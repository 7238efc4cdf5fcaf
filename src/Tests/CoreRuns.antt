-- ===== src/Tests/CoreRuns.antt =====
-- Runs of the control core: a proposal that is dispatched and then allowed by its evidence, a
-- repetition, and a stray failure.
use qiven_runtime.Base.{
  ◌+◌, ◌≡◌, ◌≢◌, refl, false, List, [], ◌∷◌, ◌++◌, map, none, some, lookup, contains, nat_eq,
  length, count_if, put, bytes_beq, Bytes, emplace, insert,
}
use qiven_runtime.Base.Text.{codes, digits_from, to_string}
use qiven_runtime.Context.{before_execution, pending, failed, Status}
use qiven_runtime.Identity.{key_eq, key_beq}
use qiven_runtime.Intent.{mechanical, classify, make_intent_set, dedupe, rule_members}
use qiven_runtime.Transaction.{
  requirements_derived, TransactionPhase, requirements_derived, prepared_for_judgment,
  ControlTransaction, begin_control_transaction, next_transaction_id, evaluate_before_execution,
  evaluate_before_judgment, execution_phase, judgment_phase,
}
use qiven_runtime.Preimage.{action_digest_of}
use qiven_runtime.Ingress.{Proposal, propose, evidence_delivery}
use qiven_runtime.Executor.{Executor, submit}
use qiven_runtime.Core.State.{Task, DrainResult, ControlCore, make_core, no_messages, awaits_report}
use qiven_runtime.Core.Steps.{
  fail_closed, unmatched, dispatch_all, presatisfy, binding_for, dispatch_one, finish_report,
  presatisfy_one, reevaluate, reevaluated, settle,
}
use qiven_runtime.Core.Handlers.{
  count_of, handle_failure, handle_evidence, open_transaction, handle_proposal, task_for, opened,
  dispatch_resolvers, receipt_accepted, record_evidence,
}
use qiven_runtime.Core.Draining.{Arrival, handle, drain}
use qiven_runtime.Core.Repeats.{repeat_proposal_lem}
use qiven_runtime.Core.Dispatching.{
  asks, tasks_of, Delivery, deliver_all, dispatch_all_counts, stray_failure_stalls,
}
use qiven_runtime.Requirement.{
  RequirementIdentity, derive_requirement_set, derive_members, merge_prepared, merge, identity_beq,
}
use qiven_runtime.Resolver.{find_for_kind_and_view, evidence_beq, is_empty, resolver_beq, type_beq}
use qiven_runtime.Receipt.{any_digest_byte, is_expired, validate_receipt}
use qiven_runtime.Activation.{activation_use_identity, complete, valid_for}
use qiven_runtime.Tests.Fixtures.{
  toy, toy_context, toy_context-IsFrozen, action, key, facts, cognition, binding, claim, receipt,
  requirement_at, plain_intent,
}

abbrev pub pool : Executor Task
pool = record {
  capacity = 4;
  workers = 1;
  pending = [];
  running = 0;
  is_shutdown = false;
  max_concurrency = 0;
  exceptions = 0;
}

abbrev pub proposal : Proposal
proposal = record {
  correlation = key;
  action = action;
  causal_parent = none;
  activation_receipts = [];
}

abbrev proposed : Arrival
proposed = record { now_ms = 100; progress = λ x. x; message = propose proposal }

abbrev start : ControlCore
start = make_core pool (binding ∷ []) cognition facts

abbrev transaction_at : TransactionPhase → Status → List Bytes → ControlTransaction
transaction_at phase status evidence = record {
  id = 1;
  causal_parent = none;
  correlation = key;
  action = action;
  intents = record { members = record { intent = plain_intent; basis = mechanical } ∷ [] };
  cognition = cognition;
  packet = record {
    requirements = record (requirement_at before_execution status) { evidence = evidence } ∷ [];
    failure = 0;
  };
  phase = phase;
}

abbrev waiting : ControlCore
waiting = (drain toy toy_context start no_messages (proposed ∷ [])).0

abbrev waits : ControlTransaction
waits = transaction_at prepared_for_judgment pending []

-- The evidence that arrives between the proposal and its repetition.
abbrev reported : List Arrival
reported =
    record {
      now_ms = 200;
      progress = λ x. record x { pending = []; running = 1 };
      message = evidence_delivery 1 claim receipt;
    }
    ∷ []

new_key : lookup key (drain toy toy_context start no_messages []).0.by_correlation ≡ none
unfolding drain make_core lookup
new_key = refl

repeat_proposal_lem_example :
    let core =
      (drain toy toy_context
        (handle_proposal toy toy_context
          (drain toy toy_context start no_messages []).0
          proposal
          no_messages
          100).0
        no_messages
        reported).0 in
    (action_digest_of toy action ≡ action_digest_of toy action
      → handle_proposal toy toy_context core proposal no_messages 300
        ≡ (core, record no_messages { replays = 1 }))
    × (action_digest_of toy action ≢ action_digest_of toy action
        → handle_proposal toy toy_context core proposal no_messages 300 ≡ (
          record core {
            conflicts = put key (count_of (lookup key core.conflicts) + 1) core.conflicts;
          },
          record no_messages { integrity_failures = 1 },
        ))
repeat_proposal_lem_example =
    repeat_proposal_lem toy toy_context toy_context-IsFrozen pool (binding ∷ []) cognition facts []
      reported proposal proposal no_messages no_messages no_messages 100 300 new_key refl

dispatch_all_counts_example :
    let asked =
      requirement_at before_execution pending ∷ requirement_at before_execution failed ∷ [] in
    let (after, x', n') = dispatch_all (binding ∷ []) (task_for start waits) asked pool 0 in
    (map asks after ≡ map asks asked)
    × (n' ≡ 0 + count_if awaits_report after)
    × (length (tasks_of (binding ∷ []) (task_for start waits) after) ≡ count_if awaits_report after)
    × (x'.pending ≡ [] ++ tasks_of (binding ∷ []) (task_for start waits) after)
dispatch_all_counts_example =
    dispatch_all_counts (binding ∷ []) (task_for start waits)
      (requirement_at before_execution pending ∷ requirement_at before_execution failed ∷ []) pool 0

abbrev other_claim : RequirementIdentity
other_claim = record claim { subject = codes "other" }

waits_stored : lookup 1 waiting.transactions ≡ some (transaction_at requirements_derived pending [])
unfolding drain handle handle_proposal handle_evidence open_transaction dispatch_all make_core
    lookup classify make_intent_set put opened begin_control_transaction next_transaction_id
    presatisfy derive_requirement_set derive_members dedupe merge_prepared merge binding_for
    find_for_kind_and_view bytes_beq submit emplace activation_use_identity complete valid_for
    contains insert digits_from to_string dispatch_resolvers receipt_accepted record_evidence
    dispatch_one finish_report presatisfy_one reevaluate reevaluated settle key_beq rule_members
    identity_beq any_digest_byte evidence_beq is_empty is_expired resolver_beq type_beq
    validate_receipt evaluate_before_execution evaluate_before_judgment execution_phase
    judgment_phase
waits_stored = refl

one_left : lookup 1 waiting.outstanding ≡ some 1
unfolding drain handle handle_proposal handle_evidence open_transaction dispatch_all make_core
    lookup classify make_intent_set put opened begin_control_transaction next_transaction_id
    presatisfy derive_requirement_set derive_members dedupe merge_prepared merge binding_for
    find_for_kind_and_view bytes_beq submit emplace activation_use_identity complete valid_for
    contains insert digits_from to_string dispatch_resolvers receipt_accepted record_evidence
    dispatch_one finish_report presatisfy_one reevaluate reevaluated settle key_beq rule_members
    identity_beq any_digest_byte evidence_beq is_empty is_expired resolver_beq type_beq
    validate_receipt evaluate_before_execution evaluate_before_judgment execution_phase
    judgment_phase
one_left = refl

stray : settle other_claim fail_closed (requirement_at before_execution pending ∷ []) ≡ unmatched
unfolding settle identity_beq bytes_beq
stray = refl

stray_failure_stalls_example :
    let stalled = (handle_failure toy_context waiting 1 other_claim no_messages).0 in
    let evaluated =
      reevaluated toy_context
        (contains 1 waiting.redeliberation_pending)
        (transaction_at requirements_derived pending []) in
    (lookup 1 stalled.outstanding ≡ some 0)
    × (lookup 1 stalled.transactions ≡ some evaluated)
    × (evaluated.packet ≡ (transaction_at requirements_derived pending []).packet)
    × ((later : DrainResult) (late : List Delivery)
        → (v : ControlTransaction) × (lookup 1
              (deliver_all toy_context stalled 1 later late).transactions
            ≡ some v)
          × (v.phase ≡ evaluated.phase))
stray_failure_stalls_example =
    stray_failure_stalls toy_context waiting 1 (transaction_at requirements_derived pending [])
      other_claim no_messages one_left waits_stored stray
