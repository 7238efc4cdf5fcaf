-- ===== src/Reconciliation/Barriers.antt =====
-- A barrier stays until an authoritative observation of its own scope.
use qiven_runtime.Base.{
  ℕ, ◌≡◌, refl, ◌↔◌, ◌≢◌, arith, Bool, true, not, ◌&&◌, ◌||◌, List, [], ◌∷◌, Bytes, nat_beq,
  nat_beq_iff, nat_eq, all, lookup-erase, lookup-emplace,
}
use qiven_runtime.Context.{Context}
use qiven_runtime.Resolver.{is_empty}
use qiven_runtime.Receipt.Validation.{is_empty_iff}
use qiven_runtime.Reconciliation.{
  ReconciliationBarrier, blocked_scope, equivalent, check, active, raise_barrier, lift_barrier,
  ReconciliationEvidence, authoritative_observation, is_authoritative, still_indeterminate,
  Coordinator, reconcile,
}

active-raise_barrier :
    (b : ReconciliationBarrier) (scope transaction j : ℕ)
    → active (raise_barrier b scope transaction) j ≡ (nat_beq scope j || active b j)
unfolding active raise_barrier
active-raise_barrier b scope transaction j =
    ground (arith, lookup-emplace scope j transaction b, nat_beq_iff scope j)

active-lift_barrier :
    (b : ReconciliationBarrier) (scope j : ℕ)
    → active (lift_barrier b scope) j ≡ (not (nat_beq scope j) && active b j)
unfolding active lift_barrier
active-lift_barrier b scope j = ground (arith, lookup-erase scope j b)

-- An authoritative answer with a detail.
abbrev pub answers : ReconciliationEvidence → Bytes → Bool
answers evidence detail = is_authoritative evidence && not (is_empty detail)

module _ (c : Context) where
  -- A reconciliation resolves exactly on an authoritative observation with a detail; then the
  -- barrier of that scope is down and every other scope is as before. Otherwise the barriers are as
  -- before.
  pub reconcile_lem :
      (r : Coordinator) (scope : ℕ) (evidence : ReconciliationEvidence) (detail : Bytes)
      → (((reconcile c r scope evidence detail).0 ≢ still_indeterminate)
          ↔ ((evidence ≡ authoritative_observation) × (detail ≢ [])))
        × ((reconcile c r scope evidence detail).0 ≢ still_indeterminate
            → (j : ℕ)
            → active (reconcile c r scope evidence detail).2.barrier j
              ≡ (not (nat_beq scope j) && active r.barrier j))
        × ((reconcile c r scope evidence detail).0 ≡ still_indeterminate
            → (reconcile c r scope evidence detail).2.barrier ≡ r.barrier)
  unfolding reconcile
  reconcile_lem r scope evidence detail = (
    ground (arith, is_empty_iff detail),
    λ h j. ground (arith, active-lift_barrier r.barrier scope j),
    λ h. ground arith,
  )

  -- What can happen to the barriers.
  pub data Event : Type 0 where
    raises : (scope transaction : ℕ) → Event
    reconciles : (scope : ℕ) → ReconciliationEvidence → Bytes → Event

  unfoldable pub after_event : Coordinator → Event → Coordinator
  after_event r (raises scope transaction) = record r {
    barrier = raise_barrier r.barrier scope transaction;
  }
  after_event r (reconciles scope evidence detail) = (reconcile c r scope evidence detail).2

  unfoldable pub after_events : Coordinator → List Event → Coordinator
  after_events r [] = r
  after_events r (e ∷ rest) = after_events (after_event r e) rest

  -- The event does not resolve the scope.
  abbrev pub leaves : ℕ → Event → Bool
  leaves scope (raises s transaction) = true
  leaves scope (reconciles s evidence detail) = not (nat_beq s scope && answers evidence detail)

  after_event-active :
      (r : Coordinator) (scope : ℕ) (e : Event)
      → leaves scope e ≡ true
      → active r.barrier scope ≡ true
      → active (after_event r e).barrier scope ≡ true
  unfolding after_event reconcile
  after_event-active r scope (raises s transaction) free on =
      ground (arith, active-raise_barrier r.barrier s transaction scope)
  after_event-active r scope (reconciles s evidence detail) free on =
      ground (arith, active-lift_barrier r.barrier s scope)

  -- A raised scope blocks every equivalent mutation through any raises and reconciliations, as long
  -- as none of them is an authoritative observation with a detail of that very scope.
  pub after_events_blocked :
      (r : Coordinator) (scope : ℕ) (events : List Event)
      → active r.barrier scope ≡ true
      → all (leaves scope) events ≡ true
      → check (after_events r events).barrier scope equivalent ≡ blocked_scope
  unfolding after_events check active
  after_events_blocked r scope [] on free = rw on refl
  after_events_blocked r scope (e ∷ rest) on free =
      after_events_blocked (after_event r e) scope rest
        (after_event-active r scope e (ground (arith, free)) on) (ground (arith, free))
