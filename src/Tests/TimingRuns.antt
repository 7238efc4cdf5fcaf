-- ===== src/Tests/TimingRuns.antt =====
-- A run of the control core in which an activation receipt satisfies the requirement before the
-- judgment and delivered evidence the one before the execution.
use qiven_runtime.Base.{
  ◌≡◌, refl, false, List, [], ◌∷◌, none, some, All, lookup, contains, nat_eq, put, bytes_beq,
  emplace, insert,
}
use qiven_runtime.Base.Text.{codes, digits_from, to_string}
use qiven_runtime.Context.{before_execution, pending, satisfied, ExecutionMet}
use qiven_runtime.Identity.{key_eq, key_beq}
use qiven_runtime.Intent.{mechanical, classify, make_intent_set, dedupe, rule_members}
use qiven_runtime.Transaction.{
  cognitive_allowed, ControlTransaction, disposition_for, begin_control_transaction,
  next_transaction_id, evaluate_before_execution, evaluate_before_judgment, execution_phase,
  judgment_phase,
}
use qiven_runtime.Ingress.{propose, evidence_delivery}
use qiven_runtime.Executor.{submit}
use qiven_runtime.Core.State.{ControlCore, make_core, no_messages}
use qiven_runtime.Core.Steps.{
  dispatch_all, presatisfy, binding_for, dispatch_one, finish_report, presatisfy_one, reevaluate,
  reevaluated, settle,
}
use qiven_runtime.Core.Handlers.{
  handle_evidence, open_transaction, handle_proposal, opened, dispatch_resolvers, receipt_accepted,
  record_evidence,
}
use qiven_runtime.Core.Draining.{Arrival, handle, drain}
use qiven_runtime.Core.Timing.{IsActivated, drain_allows}
use qiven_runtime.Requirement.{
  derive_requirement_set, derive_members, merge_prepared, merge, identity_beq,
}
use qiven_runtime.Resolver.{find_for_kind_and_view, evidence_beq, is_empty, resolver_beq, type_beq}
use qiven_runtime.Receipt.{any_digest_byte, is_expired, validate_receipt}
use qiven_runtime.Activation.{activation_use_identity, complete, valid_for}
use qiven_runtime.Tests.Fixtures.{
  toy, toy_context, toy_context-IsFrozen, action, key, facts, cognition, binding, claim, receipt,
  requirement_at, plain_intent,
}
use qiven_runtime.Context.{Context, IsFrozen, before_judgment}
use qiven_runtime.Core.Steps.{first_usable}
use qiven_runtime.Core.Timing.{IsActivated, drain_allows}
use qiven_runtime.Tests.CoreRuns.{pool, proposal}
use qiven_runtime.Tests.AdmissionRuns.{injected}

abbrev two_gates : Context
two_gates = record toy_context {
  derive_requirements = λ snapshot i.
      requirement_at before_judgment pending ∷ requirement_at before_execution pending ∷ [];
}

two_gates-IsFrozen : IsFrozen two_gates
two_gates-IsFrozen = record {
  judgment_gate = toy_context-IsFrozen.judgment_gate;
  execution_gate = toy_context-IsFrozen.execution_gate;
}

-- The worker has taken the task before the evidence is handled.
abbrev messages : List Arrival
messages =
    record {
      now_ms = 100;
      progress = λ x. x;
      message = propose (record proposal { activation_receipts = injected ∷ [] });
    }
    ∷ record {
      now_ms = 200;
      progress = λ x. record x { pending = []; running = 1 };
      message = evidence_delivery 1 claim receipt;
    }
    ∷ []

abbrev start : ControlCore
start = make_core pool (binding ∷ []) cognition facts

abbrev allowed : ControlTransaction
allowed = record {
  id = 1;
  causal_parent = none;
  correlation = key;
  action = action;
  intents = record { members = record { intent = plain_intent; basis = mechanical } ∷ [] };
  cognition = cognition;
  packet = record {
    requirements =
        record (requirement_at before_judgment satisfied) { evidence = codes "activation:1" ∷ [] }
        ∷ record (requirement_at before_execution satisfied) { evidence = codes "receipt:11" ∷ [] }
        ∷ [];
    failure = 0;
  };
  phase = cognitive_allowed;
}

done : lookup 1 (drain toy two_gates start no_messages messages).0.transactions ≡ some allowed
unfolding drain handle handle_proposal handle_evidence open_transaction dispatch_all make_core
    lookup classify make_intent_set put opened begin_control_transaction next_transaction_id
    presatisfy derive_requirement_set derive_members dedupe merge_prepared merge binding_for
    find_for_kind_and_view bytes_beq submit emplace activation_use_identity complete valid_for
    contains insert digits_from to_string dispatch_resolvers receipt_accepted record_evidence
    dispatch_one finish_report presatisfy_one first_usable reevaluate reevaluated settle key_beq
    rule_members identity_beq any_digest_byte evidence_beq is_empty is_expired resolver_beq type_beq
    validate_receipt evaluate_before_execution evaluate_before_judgment execution_phase
    judgment_phase
done = refl

drain_allows_example :
    All ExecutionMet allowed.packet.requirements
    × All IsActivated allowed.packet.requirements
    × (contains 1 (drain toy two_gates start no_messages messages).0.redeliberation_pending ≡ false)
unfolding disposition_for
drain_allows_example =
    drain_allows toy two_gates two_gates-IsFrozen pool (binding ∷ []) cognition facts messages 1
      allowed done refl
