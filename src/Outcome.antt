-- ===== src/Outcome.antt =====
-- outcome.hpp and outcome.cpp: one final observation for each execution. An EffectScope is its
-- number.
pub mod Observing
use Prim.Native.Nat.{bit_xor}
use qiven_runtime.Base.{
  ℕ, ◌*◌, ◌%◌, Bool, true, false, not, ◌&&◌, ◌||◌, List, [], ◌∷◌, Option, none, some, Bytes,
  nat_beq, bytes_beq, lookup, put, is_some, if◌then◌else◌,
}
use qiven_runtime.Base.Text.{codes}
use qiven_runtime.Context.{Context, FailureFingerprint}
use qiven_runtime.Foundation.{Foundation}
use qiven_runtime.Identity.{CorrelationKey, key_eq, fnv_mix}
use qiven_runtime.Intent.{ObservedAction}
use qiven_runtime.Resolver.{is_empty}
use qiven_runtime.Decision.{ExecutionDecision}

pub data ExecutionOutcome : Type 0 where
  succeeded outcome_failed indeterminate : ExecutionOutcome

abbrev pub outcome_beq : ExecutionOutcome → ExecutionOutcome → Bool
outcome_beq succeeded succeeded = true
outcome_beq outcome_failed outcome_failed = true
outcome_beq indeterminate indeterminate = true
outcome_beq _ _ = false

unfoldable pub effect_scope_of : Foundation → ObservedAction → ℕ
effect_scope_of f a = fnv_mix f (f.fnv1a64 a.target f.fnv1a64_offset_basis) a.capability

pub record PostActionObservation : Type 0 where
  pub transaction : ℕ
  pub harness_action : ℕ
  pub action_digest : Bytes
  pub generation : ℕ
  pub reported : ExecutionOutcome
  pub scope : ℕ
  pub evidence : Bytes

-- `RejectedUnknownDecision` is never given.
pub data ObservationStatus : Type 0 where
  observation_accepted rejected_correlation_mismatch rejected_duplicate : ObservationStatus

-- `barrier` is the scope when the barrier is active; a fingerprint that is not set is empty.
pub record ObservationResult : Type 0 where
  pub status : ObservationStatus
  pub outcome : ExecutionOutcome
  pub fingerprint : Option FailureFingerprint
  pub barrier : Option ℕ

pub record PriorObservation : Type 0 where
  pub harness_action : ℕ
  pub transaction : ℕ
  pub generation : ℕ
  pub action_digest : Bytes
  pub outcome : ExecutionOutcome

abbrev pub PostActionObserver : Type 0
PostActionObserver = List (CorrelationKey × PriorObservation)

pub observed : PostActionObserver → CorrelationKey → Bool
observed prior correlation = is_some (lookup correlation prior)

unfoldable pub correlates : ExecutionDecision → CorrelationKey → PostActionObservation → Bool
correlates d k o =
    nat_beq o.transaction d.transaction
    && bytes_beq o.action_digest d.action_digest
    && nat_beq o.generation d.generation
    && nat_beq o.harness_action k.action
    && nat_beq k.generation d.generation
    && nat_beq k.session d.session
    && nat_beq k.actor d.actor

abbrev pub refused : ObservationStatus → ObservationResult
refused status = record {
  status = status;
  outcome = indeterminate;
  fingerprint = none;
  barrier = none;
}

-- An accepted result; an indeterminate outcome raises the barrier of the observation's scope.
abbrev pub concluded :
    PostActionObservation → ExecutionOutcome → Option FailureFingerprint → ObservationResult
concluded o outcome fingerprint = record {
  status = observation_accepted;
  outcome = outcome;
  fingerprint = fingerprint;
  barrier = if outcome_beq outcome indeterminate then some o.scope else none;
}

abbrev pub recorded : PostActionObservation → PriorObservation
recorded o = record {
  harness_action = o.harness_action;
  transaction = o.transaction;
  generation = o.generation;
  action_digest = o.action_digest;
  outcome = o.reported;
}

unfoldable pub is_identical : PriorObservation → PostActionObservation → Bool
is_identical p o =
    nat_beq p.harness_action o.harness_action
    && nat_beq p.transaction o.transaction
    && nat_beq p.generation o.generation
    && bytes_beq p.action_digest o.action_digest
    && outcome_beq p.outcome o.reported

module _ (c : Context) where
  abbrev pub post_action_fingerprint : Bytes → FailureFingerprint
  post_action_fingerprint evidence = record c.default_fingerprint {
    operation = codes "post-action";
    category = codes "mechanism";
    stable_message = c.normalize_failure_text evidence;
  }

  -- What a first observation concludes from the evidence.
  abbrev pub first_conclusion : PostActionObservation → ExecutionOutcome → ObservationResult
  first_conclusion o outcome_failed =
      if is_empty o.evidence
      then concluded o indeterminate none
      else concluded o outcome_failed (some (post_action_fingerprint o.evidence))
  first_conclusion o succeeded =
      if is_empty o.evidence then concluded o indeterminate none else concluded o succeeded none
  first_conclusion o indeterminate = concluded o indeterminate none

  unfoldable pub observe :
      PostActionObserver
      → ExecutionDecision
      → CorrelationKey
      → PostActionObservation
      → ObservationResult × PostActionObserver
  observe prior d k o =
      if not (correlates d k o)
      then (refused rejected_correlation_mismatch, prior)
      else elim (lookup k prior) [
        | some p ↦
            if is_identical p o
            then (concluded o p.outcome none, prior)
            else (refused rejected_duplicate, prior)
        | none ↦ (first_conclusion o o.reported, put k (recorded o) prior)
      ]
