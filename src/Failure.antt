-- ===== src/Failure.antt =====
-- failure.hpp and failure.cpp: the memory of established failures and the retry discipline.
pub mod Retries
use qiven_runtime.Base.{
  ℕ, ◌+◌, ◌%◌, ◌^◌, ◌≡◌, ◌↔◌, arith, Bool, true, ◌&&◌, List, [], ◌∷◌, Option, none, some, nat_beq,
  HasEquality, lookup, put,
}
use qiven_runtime.Context.{Context, FailureFingerprint, ActionIntent}
use qiven_runtime.Foundation.{Foundation}
use qiven_runtime.Intent.{
  ObservedAction, mechanical, IntentClassification, IntentSet, make_intent_set, StructuralFacts,
  classify,
}

pub record FailureKey : Type 0 where
  pub actor : ℕ
  pub capability : ℕ
  pub target : ℕ

unfoldable pub failure_key_beq : FailureKey → FailureKey → Bool
failure_key_beq a b =
    nat_beq a.actor b.actor && nat_beq a.capability b.capability && nat_beq a.target b.target

pub failure_key_beq_iff : (a b : FailureKey) → (failure_key_beq a b ≡ true) ↔ (a ≡ b)
unfolding failure_key_beq
failure_key_beq_iff a b = ground arith

instance abbrev pub failure_key_eq : HasEquality FailureKey
failure_key_eq = record { is_same = failure_key_beq; is_same_iff = failure_key_beq_iff }

-- `Entry`
pub record FailureEntry : Type 0 where
  pub fingerprint : FailureFingerprint
  pub recurrence : ℕ

abbrev pub FailureTracker : Type 0
FailureTracker = List (FailureKey × FailureEntry)

abbrev pub next_entry : Option FailureEntry → FailureFingerprint → FailureEntry
next_entry none fingerprint = record { fingerprint = fingerprint; recurrence = 1 }
next_entry (some e) fingerprint = record {
  fingerprint = fingerprint;
  recurrence = (e.recurrence + 1) % 2 ^ 64;
}

-- `FailureTracker::record`
unfoldable pub record_failure : FailureTracker → FailureKey → FailureFingerprint → FailureTracker
record_failure entries key fingerprint =
    put key (next_entry (lookup key entries) fingerprint) entries

abbrev pub failure_key_of : Foundation → ObservedAction → FailureKey
failure_key_of f action = record {
  actor = action.actor;
  capability = action.capability;
  target = f.fnv1a64 action.target f.fnv1a64_offset_basis;
}

module _ (c : Context) where
  abbrev pub retry_intent : FailureFingerprint → ActionIntent
  retry_intent fingerprint = record c.default_intent {
    kind = c.retry_failure;
    prior_failure = some fingerprint;
    tool = fingerprint.tool;
  }

  unfoldable pub retry_intent_for : FailureTracker → FailureKey → Option ActionIntent
  retry_intent_for entries key = elim (lookup key entries) [
    | none ↦ none
    | some e ↦ some (retry_intent e.fingerprint)
  ]

  -- The first intent of the floor, as `members()[0]` reads it; a set has at least one member.
  abbrev pub first_of : List IntentClassification → ActionIntent → List IntentClassification
  first_of [] retry = []
  first_of (m ∷ rest) retry =
      record { intent = m.intent; basis = mechanical }
      ∷ record { intent = retry; basis = mechanical }
      ∷ []

  unfoldable pub classify_with_failure_memory :
      Foundation → ObservedAction → StructuralFacts → FailureTracker → Option IntentSet
  unfolding retry_intent_for
  classify_with_failure_memory f action facts failures =
      elim (retry_intent_for failures (failure_key_of f action)) [
        | none ↦ classify c action facts []
        | some retry ↦ elim (classify c action facts []) [
          | none ↦ none
          | some floor ↦ make_intent_set (first_of floor.members retry)
        ]
      ]
