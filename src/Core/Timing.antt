-- ===== src/Core/Timing.antt =====
-- The timing law of state.hpp: nothing decides first, investigates later and authorizes after the
-- fact.
use qiven_runtime.Base.{
  ℕ, ◌≡◌, sym, ap, ◌∙◌, inl, inr, true, false, List, [], ◌∷◌, ◌++◌, some, arith, All, nat_eq,
  lookup, contains, Bool-cases, both_ways,
}
use qiven_runtime.Context.{Context, IsFrozen, ExecutionMet, PreparedRequirement, before_judgment}
use qiven_runtime.Base.Text.{codes, to_string}
use qiven_runtime.Foundation.{Foundation}
use qiven_runtime.Identity.{key_eq}
use qiven_runtime.Intent.{StructuralFacts}
use qiven_runtime.Transaction.{
  PinnedCognition, ControlTransaction, cognitive_allowed, allow, disposition_for,
}
use qiven_runtime.Resolver.{ResolverBinding}
use qiven_runtime.Executor.{Executor}
use qiven_runtime.Core.State.{Task, make_core, no_messages}
use qiven_runtime.Core.Draining.{Arrival, drain}
use qiven_runtime.Core.Soundness.{is_judged, IsUndelivered}
use qiven_runtime.Core.Invariant.{Inv}
use qiven_runtime.Core.Proposals.{drain-Inv}

pub make_core-Inv :
    (executor : Executor Task) (registry : List ResolverBinding) (cognition : PinnedCognition)
    (facts : StructuralFacts)
    → Inv (make_core executor registry cognition facts)
unfolding make_core lookup
make_core-Inv executor registry cognition facts = record {
  keyed = λ id t e. absurd (cc e);
  sound = λ id t e. absurd (cc e);
  indexed = λ k id e. absurd (cc e);
}

allow_inv : (t : ControlTransaction) → disposition_for t.phase ≡ allow → t.phase ≡ cognitive_allowed
unfolding disposition_for
allow_inv t h = ground arith

-- A requirement that blocks the judgment has the evidence of one activation receipt and no other, so
-- no delivered receipt has satisfied it.
abbrev pub IsActivated : PreparedRequirement → Type 0
IsActivated p =
    p.requirement.blocking ≡ true
    → p.boundary ≡ before_judgment
    → (event : ℕ) × (p.evidence ≡ (codes "activation:" ++ to_string event) ∷ [])

All-IsActivated :
    (ps : List PreparedRequirement)
    → All ExecutionMet ps
    → All IsUndelivered ps
    → All IsActivated ps
All-IsActivated [] met h = tt
All-IsActivated (p ∷ ps) met h = (
  λ blocks at_judgment. elim (h.0 blocks at_judgment) [
    | inl (_, unsatisfied) ↦ absurd (unsatisfied (met.0 blocks))
    | inr activated ↦ activated
  ],
  All-IsActivated ps met.1 h.1,
)

-- Start a core and let it drain any messages at any times, whatever its workers do between them,
-- under the frozen meaning of the two gates. A transaction that it then reports as allowed has every
-- blocking requirement satisfied. Those of them that block the judgment have the evidence of one
-- activation receipt and nothing else, so none of them was satisfied by a receipt delivered in flight,
-- and the transaction does not wait for a new deliberation.
pub drain_allows :
    (f : Foundation) (c : Context)
    → IsFrozen c
    → (executor : Executor Task) (registry : List ResolverBinding) (cognition : PinnedCognition)
      (facts : StructuralFacts) (arrivals : List Arrival) (id : ℕ) (t : ControlTransaction)
    → let core = (drain f c (make_core executor registry cognition facts) no_messages arrivals).0 in
      lookup id core.transactions ≡ some t
      → disposition_for t.phase ≡ allow
      → All ExecutionMet t.packet.requirements
        × All IsActivated t.packet.requirements
        × (contains id core.redeliberation_pending ≡ false)
drain_allows f c frozen executor registry cognition facts arrivals id t at h =
    let core = (drain f c (make_core executor registry cognition facts) no_messages arrivals).0 in
    let inv =
      drain-Inv f c frozen (make_core executor registry cognition facts) no_messages arrivals
        (make_core-Inv executor registry cognition facts) in
    let sound = inv.sound id t at in
    let done = allow_inv t h in
    let own = ap (λ (i : ℕ). contains i core.redeliberation_pending) (sym (inv.keyed id t at).0) in
    elim (Bool-cases (contains t.id core.redeliberation_pending)) [
      | inl flagged ↦ both_ways (ap is_judged done) (sound.timing flagged)
      | inr clear ↦ (
        sound.allowed done,
        All-IsActivated t.packet.requirements (sound.allowed done) (sound.undelivered clear),
        own ∙ clear,
      )
    ]
