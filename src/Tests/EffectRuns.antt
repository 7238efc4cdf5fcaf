-- ===== src/Tests/EffectRuns.antt =====
-- Runs after a decision: its observation and the barrier.
use qiven_runtime.Base.{
  nat_eq, ℕ, ◌≡◌, ◌≢◌, refl, ◌↔◌, true, not, ◌&&◌, List, [], ◌∷◌, none, some, nat_beq, lookup,
  bytes_beq, emplace,
}
use qiven_runtime.Base.Text.{codes}
use qiven_runtime.Identity.{key_eq}
use qiven_runtime.Preimage.{action_digest_of}
use qiven_runtime.Decision.{sealed, bound_facts}
use qiven_runtime.Outcome.{
  succeeded, outcome_failed, indeterminate, PostActionObservation, PostActionObserver,
  observation_accepted, correlates, observe,
}
use qiven_runtime.Outcome.Observing.{
  IsCorrelated, first_observation_lem, replay_of_unproven_success,
}
use qiven_runtime.Reconciliation.{
  authoritative_observation, unanswered, still_indeterminate, equivalent, blocked_scope, check,
  active, raise_barrier, Coordinator, reconcile,
}
use qiven_runtime.Reconciliation.Barriers.{
  Event, raises, reconciles, after_events, reconcile_lem, after_events_blocked,
}
use qiven_runtime.Tests.DecisionRuns.{decision}
use qiven_runtime.Tests.Fixtures.{toy_context, key}

abbrev claimed : PostActionObservation
claimed = record {
  transaction = 1;
  harness_action = 7;
  action_digest = decision.action_digest;
  generation = 1;
  reported = succeeded;
  scope = 77;
  evidence = [];
}

abbrev proven : PostActionObservation
proven = record claimed { reported = outcome_failed; evidence = codes "exit 1" }

abbrev no_prior : PostActionObserver
no_prior = []

nothing_yet : lookup key no_prior ≡ none
unfolding lookup
nothing_yet = refl

first_observation_lem_example :
    ((((observe toy_context no_prior decision key proven).0.status ≡ observation_accepted))
      ↔ IsCorrelated decision key proven)
    × ((observe toy_context no_prior decision key proven).0.outcome ≢ indeterminate
        → proven.evidence ≢ [])
    × (((observe toy_context no_prior decision key proven).0.barrier ≡ some proven.scope) ↔ (
        ((observe toy_context no_prior decision key proven).0.status ≡ observation_accepted)
        × ((observe toy_context no_prior decision key proven).0.outcome ≡ indeterminate)))
first_observation_lem_example =
    first_observation_lem toy_context no_prior decision key proven nothing_yet

claimed-correlates : correlates decision key claimed ≡ true
unfolding correlates bytes_beq sealed bound_facts action_digest_of
claimed-correlates = refl

replay_of_unproven_success_example :
    let (first, after) = observe toy_context no_prior decision key claimed in
    (first.outcome ≡ indeterminate)
    × (first.barrier ≡ some 77)
    × ((observe toy_context after decision key claimed).0.status ≡ observation_accepted)
    × ((observe toy_context after decision key claimed).0.outcome ≡ succeeded)
    × ((observe toy_context after decision key claimed).0.barrier ≡ none)
replay_of_unproven_success_example =
    replay_of_unproven_success toy_context no_prior decision key claimed nothing_yet
      claimed-correlates refl refl

abbrev coordinator : Coordinator
coordinator = record { barrier = raise_barrier [] 77 1; resolutions = 0 }

abbrev events : List (Event toy_context)
events =
    raises 78 2
    ∷ reconciles 77 unanswered (codes "none")
    ∷ reconciles 78 authoritative_observation (codes "ok")
    ∷ []

raised : active coordinator.barrier 77 ≡ true
unfolding active raise_barrier emplace lookup
raised = refl

after_events_blocked_example :
    check (after_events toy_context coordinator events).barrier 77 equivalent ≡ blocked_scope
after_events_blocked_example = after_events_blocked toy_context coordinator 77 events raised refl

reconcile_lem_example :
    let after =
      reconcile toy_context coordinator 77 authoritative_observation (codes "failed: x") in
    ((after.0 ≢ still_indeterminate)
      ↔ ((authoritative_observation ≡ authoritative_observation) × (codes "failed: x" ≢ [])))
    × (after.0 ≢ still_indeterminate
        → (j : ℕ) → active after.2.barrier j ≡ (not (nat_beq 77 j) && active coordinator.barrier j))
    × (after.0 ≡ still_indeterminate → after.2.barrier ≡ coordinator.barrier)
reconcile_lem_example =
    reconcile_lem toy_context coordinator 77 authoritative_observation (codes "failed: x")
