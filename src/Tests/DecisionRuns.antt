-- ===== src/Tests/DecisionRuns.antt =====
-- Runs of the authorization plane: a decision bound and spent, its admission, its observation, the
-- barrier and the memory of failures.
use qiven_runtime.Base.{
  ◌+◌, ◌%◌, ◌^◌, ◌≤◌, ◌≡◌, refl, ◌↔◌, false, [], ◌∷◌, none, some, Bytes, contains, if◌then◌else◌,
}
use qiven_runtime.Context.{satisfied, before_execution}
use qiven_runtime.Intent.{mechanical}
use qiven_runtime.Transaction.{cognitive_allowed, ControlTransaction}
use qiven_runtime.Identity.{next_id, key_eq}
use qiven_runtime.Decision.{
  GenerationFacts, ExecutionDecision, FreshnessFacts, consumed, DecisionLedger, sealed, bound_facts,
  bind_allow, was_consumed, consume,
}
use qiven_runtime.Decision.Binding.{consume-bind_allow}
use qiven_runtime.Decision.Spending.{
  IsFresh, IsSpendable, consume_iff, consumptions, consumptions_at_most_once,
}
use qiven_runtime.Tests.Fixtures.{
  toy, toy_context, action, key, cognition, requirement_at, plain_intent,
}

abbrev pub decided : ControlTransaction
decided = record {
  id = 1;
  causal_parent = none;
  correlation = key;
  action = action;
  intents = record { members = record { intent = plain_intent; basis = mechanical } ∷ [] };
  cognition = cognition;
  packet = record { requirements = requirement_at before_execution satisfied ∷ []; failure = 0 };
  phase = cognitive_allowed;
}

abbrev pub generation : GenerationFacts
generation = record { id = 1; profile_revision = 4 }

abbrev pub secret : Bytes
secret = 1 ∷ 2 ∷ 3 ∷ []

abbrev pub nonce : Bytes
nonce = 8 ∷ 9 ∷ []

abbrev pub decision : ExecutionDecision
decision = sealed toy secret nonce (
    bound_facts toy toy_context decided generation (5 ∷ []) 2 [] (next_id toy 1000 0).0
      ((50 + 100) % 2 ^ 64))

abbrev pub ledger : DecisionLedger
ledger = record { secret = secret; spent = [] }

abbrev pub now : FreshnessFacts
now = record {
  action_digest = decision.action_digest;
  generation = decision.generation;
  cognition_revision = decision.cognition_revision;
  profile = decision.profile;
  resolver_registry_revision = decision.resolver_registry_revision;
  evidence_set_digest = none;
  resource_scope_digest = decision.resource_scope_digest;
}

now-IsFresh : IsFresh decision now
now-IsFresh = record {
  same_action = refl;
  same_generation = refl;
  same_cognition = refl;
  same_profile = refl;
  same_registry = refl;
  same_evidence = λ digest e. absurd (cc e);
  same_scope = refl;
}

bound :
    bind_allow toy toy_context decided generation (5 ∷ []) 2 [] secret nonce 0 1000 50 100
    ≡ some (decision, (next_id toy 1000 0).1)
unfolding bind_allow
bound = refl

unspent : was_consumed ledger decision.token_hash ≡ false
unfolding was_consumed contains
unspent = refl

consume-bind_allow_example : (consume toy ledger decision now 120).0 ≡ consumed
consume-bind_allow_example =
    consume-bind_allow toy toy_context decided generation (5 ∷ []) 2 [] nonce 0 1000 50 100 ledger
      decision (next_id toy 1000 0).1 now 120 bound unspent refl now-IsFresh

consume_iff_example :
    ((consume toy ledger decision now 120).0 ≡ consumed)
    ↔ (IsSpendable toy ledger decision 120 × IsFresh decision now)
consume_iff_example = consume_iff toy ledger decision now 120

consumptions_at_most_once_example :
    consumptions toy ledger decision.token_hash ((decision, now, 120) ∷ (decision, now, 121) ∷ [])
      + (if was_consumed ledger decision.token_hash then 1 else 0)
    ≤ 1
consumptions_at_most_once_example =
    consumptions_at_most_once toy ledger decision.token_hash
      ((decision, now, 120) ∷ (decision, now, 121) ∷ [])
