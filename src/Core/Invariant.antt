-- ===== src/Core/Invariant.antt =====
-- The invariant of the control core, kept by every message.
use qiven_runtime.Base.{
  ℕ, ◌<◌, ◌≡◌, refl, sym, ◌∙◌, ◌⊎◌, inl, inr, true, false, List, Option, none, some, arith, subst,
  suc, zero, nat_beq, nat_beq_iff, nat_eq, lookup, put, contains, is_some, lookup-put, Bool-cases,
  Option-cases,
}
use qiven_runtime.Context.{Context, IsFrozen}
use qiven_runtime.Identity.{CorrelationKey, key_eq}
use qiven_runtime.Transaction.{ControlTransaction}
use qiven_runtime.Core.State.{ControlCore}
use qiven_runtime.Core.Steps.{reevaluated, reevaluate, last_report, finish_report}
use qiven_runtime.Core.Soundness.{IsSound, reevaluated-IsSound, packet-reevaluated}

-- Each stored transaction stands under its own id, below the next one, and is sound; each known
-- correlation key leads to a stored transaction.
pub record Consistent (next_id : ℕ) (by_correlation : List (CorrelationKey × ℕ))
    (transactions : List (ℕ × ControlTransaction)) (in_flight : List ℕ) : Type 0 where
  pub keyed :
      (id : ℕ) (t : ControlTransaction)
      → lookup id transactions ≡ some t
      → (t.id ≡ id) × (id < next_id)
  pub sound :
      (id : ℕ) (t : ControlTransaction)
      → lookup id transactions ≡ some t
      → IsSound (contains t.id in_flight) t
  pub indexed :
      (k : CorrelationKey) (id : ℕ)
      → lookup k by_correlation ≡ some id
      → is_some (lookup id transactions) ≡ true

abbrev pub Inv : ControlCore → Type 0
Inv core = Consistent core.next_id core.by_correlation core.transactions core.redeliberation_pending

put_inv :
    (k j : ℕ) (v u : ControlTransaction) (m : List (ℕ × ControlTransaction))
    → lookup j (put k v m) ≡ some u
    → ((j ≡ k) × (u ≡ v)) ⊎ ((nat_beq k j ≡ false) × (lookup j m ≡ some u))
put_inv k j v u m h = ground (arith, lookup-put k j v m, nat_beq_iff k j)

-- Replacing one transaction by a sound one of the same id keeps the store consistent, if the others
-- are flagged as before.
pub put-Consistent :
    (next_id : ℕ) (by_correlation : List (CorrelationKey × ℕ))
    (transactions : List (ℕ × ControlTransaction)) (before after : List ℕ) (id : ℕ)
    (t u : ControlTransaction)
    → lookup id transactions ≡ some t
    → u.id ≡ t.id
    → IsSound (contains u.id after) u
    → ((j : ℕ) → nat_beq id j ≡ false → contains j after ≡ contains j before)
    → Consistent next_id by_correlation transactions before
    → Consistent next_id by_correlation (put id u transactions) after
put-Consistent next_id by_correlation transactions before after id t u at same fine others h =
    record {
      keyed = λ j v e. elim (put_inv id j u v transactions e) [
        | inl (here, new) ↦ rw (here, new) (same ∙ (h.keyed id t at).0, (h.keyed id t at).1)
        | inr (_, old) ↦ h.keyed j v old
      ];
      sound = λ j v e. elim (put_inv id j u v transactions e) [
        | inl (here, new) ↦ rw new fine
        | inr (far, old) ↦
            let own : v.id ≡ j = (h.keyed j v old).0 in
            rw (others v.id (rw own far)) (h.sound j v old)
      ];
      indexed = λ k j e. ground (arith, lookup-put id j u transactions, h.indexed k j e);
    }

pub reevaluate-Inv :
    (c : Context)
    → IsFrozen c
    → (core : ControlCore) (id : ℕ) → Inv core
    → Inv (reevaluate c core id)
unfolding reevaluate
reevaluate-Inv c frozen core id h = elim (Option-cases (lookup id core.transactions)) [
  | inl e ↦ rw (e, reevaluate) h
  | inr (t, e) ↦
      let flag = contains t.id core.redeliberation_pending in
      let same = (packet-reevaluated c flag t).1 in
      rw (e, reevaluate)
        (put-Consistent core.next_id core.by_correlation core.transactions
          core.redeliberation_pending core.redeliberation_pending id t (reevaluated c flag t) e same
          (subst
            (λ (i : ℕ). IsSound (contains i core.redeliberation_pending) (reevaluated c flag t))
            (sym same) (reevaluated-IsSound c frozen flag t (h.sound id t e)))
          (λ j _. refl) h)
]

last_report-Inv :
    (c : Context)
    → IsFrozen c
    → (core : ControlCore) (id : ℕ) (left : Option ℕ) → Inv core
    → Inv (last_report c core id left)
last_report-Inv c frozen core id none h = h
last_report-Inv c frozen core id (some zero) h = h
last_report-Inv c frozen core id (some (suc n)) h = elim (Bool-cases (nat_beq n 0)) [
  | inl done ↦ rw done (reevaluate-Inv c frozen _ id h)
  | inr more ↦ rw more h
]

pub finish_report-Inv :
    (c : Context)
    → IsFrozen c
    → (core : ControlCore) (id : ℕ) → Inv core
    → Inv (finish_report c core id)
unfolding finish_report
finish_report-Inv c frozen core id h =
    last_report-Inv c frozen core id (lookup id core.outstanding) h
