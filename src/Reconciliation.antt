-- ===== src/Reconciliation.antt =====
-- reconciliation.hpp and reconciliation.cpp: the barrier that an uncertain effect raises, and the
-- one way to lift it.
pub mod Barriers
use qiven_runtime.Base.{
  ℕ, ◌+◌, ◌%◌, ◌^◌, Bool, true, false, ◌||◌, not, List, [], ◌∷◌, ◌++◌, map, Option, none, some,
  Bytes, leb, nat_eq, length, take, drop, bytes_beq, has, emplace, erase, if◌then◌else◌,
}
use qiven_runtime.Base.Sorts.{sort}
use qiven_runtime.Base.Text.{codes}
use qiven_runtime.Context.{Context, FailureFingerprint}
use qiven_runtime.Resolver.{is_empty}

pub data BarrierCheck : Type 0 where
  open_scope blocked_scope : BarrierCheck

pub data MutationRelation : Type 0 where
  independent equivalent : MutationRelation

-- The raised scopes, each with the transaction that raised it.
abbrev pub ReconciliationBarrier : Type 0
ReconciliationBarrier = List (ℕ × ℕ)

-- A scope that is raised already keeps its transaction.
unfoldable pub raise_barrier : ReconciliationBarrier → ℕ → ℕ → ReconciliationBarrier
raise_barrier b scope transaction = emplace scope transaction b

unfoldable pub active : ReconciliationBarrier → ℕ → Bool
active b scope = has scope b

unfoldable pub check : ReconciliationBarrier → ℕ → MutationRelation → BarrierCheck
check b scope independent = open_scope
check b scope equivalent = if has scope b then blocked_scope else open_scope

unfoldable pub active_scope_ids : ReconciliationBarrier → List ℕ
active_scope_ids b = sort leb (map (λ e. e.0) b)

unfoldable pub lift_barrier : ReconciliationBarrier → ℕ → ReconciliationBarrier
lift_barrier b scope = erase scope b

pub data ReconciliationResult : Type 0 where
  resolved_succeeded resolved_failed still_indeterminate : ReconciliationResult

pub data ReconciliationEvidence : Type 0 where
  authoritative_observation unanswered : ReconciliationEvidence

abbrev pub is_authoritative : ReconciliationEvidence → Bool
is_authoritative authoritative_observation = true
is_authoritative unanswered = false

pub record Coordinator : Type 0 where
  pub barrier : ReconciliationBarrier
  pub resolutions : ℕ

abbrev pub reconciled_fingerprint : Context → Bytes → FailureFingerprint
reconciled_fingerprint c detail = record c.default_fingerprint {
  operation = codes "reconciled";
  category = codes "authoritative-observation";
  stable_message = c.normalize_failure_text (drop 7 detail);
}

-- The result, the fingerprint of a resolved failure, and the coordinator after.
unfoldable pub reconcile :
    Context
    → Coordinator
    → ℕ
    → ReconciliationEvidence
    → Bytes
    → ReconciliationResult × Option FailureFingerprint × Coordinator
unfolding lift_barrier
reconcile c r scope evidence detail =
    let counted = record r { resolutions = (r.resolutions + 1) % 2 ^ 64 } in
    let lifted = record counted { barrier = lift_barrier r.barrier scope } in
    if not (is_authoritative evidence) || is_empty detail
    then (still_indeterminate, none, counted)
    else if bytes_beq (take 7 detail) (codes "failed:")
    then (resolved_failed, some (reconciled_fingerprint c detail), lifted)
    else (resolved_succeeded, none, lifted)
