-- ===== src/Outcome/Observing.antt =====
-- What an observation may conclude.
use qiven_runtime.Base.{
  ◌≡◌, refl, ◌∙◌, ◌↔◌, ◌≢◌, arith, true, [], none, some, nat_eq, lookup, put, lookup-put, beq_refl,
  bytes_beq_refl, bytes_beq_iff, nat_beq_iff,
}
use qiven_runtime.Context.{Context}
use qiven_runtime.Identity.{CorrelationKey, key_eq}
use qiven_runtime.Resolver.{is_empty}
use qiven_runtime.Receipt.Validation.{is_empty_iff}
use qiven_runtime.Decision.{ExecutionDecision}
use qiven_runtime.Outcome.{
  ExecutionOutcome, indeterminate, succeeded, PostActionObservation, PostActionObserver,
  observation_accepted, correlates, is_identical, recorded, observe, concluded, first_conclusion,
  PriorObservation, outcome_beq, outcome_failed,
}

-- The observation and its key name the transaction, the action, the generation, the harness action,
-- the session and the actor of the decision.
pub record IsCorrelated (d : ExecutionDecision) (k : CorrelationKey) (o : PostActionObservation)
    : Type 0 where
  pub transaction : o.transaction ≡ d.transaction
  pub action_digest : o.action_digest ≡ d.action_digest
  pub generation : o.generation ≡ d.generation
  pub harness_action : o.harness_action ≡ k.action
  pub key_generation : k.generation ≡ d.generation
  pub session : k.session ≡ d.session
  pub actor : k.actor ≡ d.actor

module _ (d : ExecutionDecision) (k : CorrelationKey) (o : PostActionObservation) where
  correlates-inv : correlates d k o ≡ true → IsCorrelated d k o
  unfolding correlates
  correlates-inv h = record {
    transaction = ground arith;
    action_digest = ground (arith, bytes_beq_iff o.action_digest d.action_digest);
    generation = ground arith;
    harness_action = ground arith;
    key_generation = ground arith;
    session = ground arith;
    actor = ground arith;
  }

  correlates-intro : IsCorrelated d k o → correlates d k o ≡ true
  unfolding correlates
  correlates-intro h =
      rw
        (
          (nat_beq_iff o.transaction d.transaction).1 h.transaction,
          (bytes_beq_iff o.action_digest d.action_digest).1 h.action_digest,
          (nat_beq_iff o.generation d.generation).1 h.generation,
          (nat_beq_iff o.harness_action k.action).1 h.harness_action,
          (nat_beq_iff k.generation d.generation).1 h.key_generation,
          (nat_beq_iff k.session d.session).1 h.session,
          (nat_beq_iff k.actor d.actor).1 h.actor,
        )
        refl

module _ (c : Context) (d : ExecutionDecision) (k : CorrelationKey) where
  observed_first :
      (prior : PostActionObserver) (o : PostActionObservation)
      → lookup k prior ≡ none
      → correlates d k o ≡ true
      → observe c prior d k o ≡ (first_conclusion c o o.reported, put k (recorded o) prior)
  unfolding observe
  observed_first prior o e ok = rw (ok, e) refl

  observed_again :
      (prior : PostActionObserver) (o : PostActionObservation) (p : PriorObservation)
      → lookup k prior ≡ some p
      → correlates d k o ≡ true
      → is_identical p o ≡ true
      → observe c prior d k o ≡ (concluded o p.outcome none, prior)
  unfolding observe
  observed_again prior o p e ok same = rw (ok, e, same) refl

lookup-put_same :
    (k : CorrelationKey) (p : PriorObservation) (prior : PostActionObserver)
    → lookup k (put k p prior) ≡ some p
lookup-put_same k p prior = lookup-put k k p prior ∙ rw (beq_refl k) refl

outcome_beq_refl : (x : ExecutionOutcome) → outcome_beq x x ≡ true
outcome_beq_refl succeeded = refl
outcome_beq_refl outcome_failed = refl
outcome_beq_refl indeterminate = refl

recorded_identical : (o : PostActionObservation) → is_identical (recorded o) o ≡ true
unfolding is_identical
recorded_identical o = ground (arith, bytes_beq_refl o.action_digest, outcome_beq_refl o.reported)

module _ (c : Context) (prior : PostActionObserver) (d : ExecutionDecision) (k : CorrelationKey)
    (o : PostActionObservation) where
  -- The first observation under a key is accepted exactly if the transaction, the action digest, the
  -- generation, the harness action, the session and the actor that it and its key name are those of
  -- the decision. A first conclusion other than indeterminate has evidence; the barrier is raised
  -- exactly by an accepted indeterminate one, at the scope of the observation.
  pub first_observation_lem :
      lookup k prior ≡ none
      → (((observe c prior d k o).0.status ≡ observation_accepted) ↔ IsCorrelated d k o)
        × ((observe c prior d k o).0.outcome ≢ indeterminate → o.evidence ≢ [])
        × (((observe c prior d k o).0.barrier ≡ some o.scope) ↔ (
            ((observe c prior d k o).0.status ≡ observation_accepted)
            × ((observe c prior d k o).0.outcome ≡ indeterminate)))
  unfolding observe
  first_observation_lem e = (
    (λ taken. correlates-inv d k o (ground (arith, e)), λ agrees. accepted agrees),
    ground (arith, e, is_empty_iff o.evidence),
    ground (arith, e),
  )
    where
      accepted : IsCorrelated d k o → (observe c prior d k o).0.status ≡ observation_accepted
      accepted agrees = let ok = correlates-intro d k o agrees in ground (arith, e, ok)

  -- An unproven success, which the first observation concludes to be indeterminate with the barrier
  -- raised, is concluded to have succeeded, with no barrier, when it is delivered again.
  pub replay_of_unproven_success :
      lookup k prior ≡ none
      → correlates d k o ≡ true
      → o.reported ≡ succeeded
      → o.evidence ≡ []
      → let (first, after) = observe c prior d k o in
        (first.outcome ≡ indeterminate)
        × (first.barrier ≡ some o.scope)
        × ((observe c after d k o).0.status ≡ observation_accepted)
        × ((observe c after d k o).0.outcome ≡ succeeded)
        × ((observe c after d k o).0.barrier ≡ none)
  unfolding is_empty
  replay_of_unproven_success e ok claimed bare =
      let start = observed_first c d k prior o e ok in
      let again =
        observed_again c d k (put k (recorded o) prior) o (recorded o)
          (lookup-put_same k (recorded o) prior) ok (recorded_identical o) in
      rw (start, again, claimed, bare) (refl, refl, refl, refl, refl)
