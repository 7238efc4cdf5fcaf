-- ===== src/Core/Reports.antt =====
-- The report handlers keep the invariant.
use qiven_runtime.Base.{
  ℕ, ◌≡◌, refl, ◌⊎◌, inl, inr, Bool, true, false, List, some, arith, nat_eq, lookup, contains,
  insert, contains-insert, Bool-cases, Option-cases, if◌then◌else◌, both_ways,
}
use qiven_runtime.Context.{Context, IsFrozen, before_judgment, PreparedRequirement}
use qiven_runtime.Requirement.{RequirementIdentity}
use qiven_runtime.Transaction.{ControlTransaction}
use qiven_runtime.Receipt.{EvidenceReceipt}
use qiven_runtime.Core.State.{ControlCore, DrainResult}
use qiven_runtime.Core.Steps.{fail_closed, Settled, unmatched, duplicate, settled, settle}
use qiven_runtime.Core.Handlers.{
  receipt_accepted, evidence_update, resolves_judgment, with_requirements, record_evidence,
  handle_evidence, handle_failure,
}
use qiven_runtime.Core.Soundness.{IsSound, settle-IsSound, IsUndelivered, fail_closed-IsUndelivered}
use qiven_runtime.Core.Invariant.{Inv, put-Consistent, finish_report-Inv}

evidence_requirement :
    (ok : Bool) (receipt : EvidenceReceipt) (p : PreparedRequirement)
    → (evidence_update ok receipt p).requirement ≡ p.requirement
evidence_requirement true receipt p = refl
evidence_requirement false receipt p = refl

evidence_boundary :
    (ok : Bool) (receipt : EvidenceReceipt) (p : PreparedRequirement)
    → (evidence_update ok receipt p).boundary ≡ p.boundary
evidence_boundary true receipt p = refl
evidence_boundary false receipt p = refl

resolves_inv :
    (ok : Bool) (p : PreparedRequirement)
    → resolves_judgment ok p ≡ true
    → (p.requirement.blocking ≡ true) × (p.boundary ≡ before_judgment)
resolves_inv ok p h = (ground arith, ground arith)

-- A receipt that resolves no judgment requirement in flight.
evidence-IsUndelivered :
    (ok : Bool) (receipt : EvidenceReceipt) (q : PreparedRequirement)
    → resolves_judgment ok q ≡ false
    → IsUndelivered q
    → IsUndelivered (evidence_update ok receipt q)
evidence-IsUndelivered false receipt q other h blocks at_judgment =
    fail_closed-IsUndelivered q h blocks at_judgment
evidence-IsUndelivered true receipt q other h blocks at_judgment =
    let resolves : resolves_judgment true q ≡ true = rw (blocks, at_judgment) refl in
    both_ways resolves other

flagged : (id : ℕ) (ids : List ℕ) → contains id (insert id ids) ≡ true
flagged id ids = ground (arith, contains-insert id id ids)

record_evidence-Inv :
    (core : ControlCore) (id : ℕ) (identity : RequirementIdentity) (t : ControlTransaction)
    (receipt : EvidenceReceipt) (ok : Bool) (q : PreparedRequirement)
    (qs : List PreparedRequirement)
    → lookup id core.transactions ≡ some t
    → settle identity (evidence_update ok receipt) t.packet.requirements ≡ settled q qs
    → Inv core
    → Inv (record_evidence core id t receipt ok q qs)
unfolding record_evidence
record_evidence-Inv core id identity t receipt ok q qs at e h =
    let sound : (after : Bool)
        → (after ≡ true
            → (contains t.id core.redeliberation_pending ≡ true)
              ⊎ ((q.requirement.blocking ≡ true) × (q.boundary ≡ before_judgment)))
        → (after ≡ false
            → (contains t.id core.redeliberation_pending ≡ false)
              × (IsUndelivered q → IsUndelivered (evidence_update ok receipt q)))
        → IsSound after (with_requirements t qs) =
      λ after grows stays.
        settle-IsSound identity (evidence_update ok receipt) (evidence_requirement ok receipt)
          (evidence_boundary ok receipt) (contains t.id core.redeliberation_pending) after t q qs e
          grows stays (h.sound id t at) in
    elim (Bool-cases (resolves_judgment ok q)) [
      | inl late ↦
          rw (late, if◌then◌else◌)
            (put-Consistent core.next_id core.by_correlation core.transactions
              core.redeliberation_pending (insert t.id core.redeliberation_pending) id t
              (with_requirements t qs) at refl
              (sound _ (λ _. inr (resolves_inv ok q late))
                (λ clear. both_ways (flagged t.id core.redeliberation_pending) clear))
              (λ j far.
                ground
                  (arith, contains-insert t.id j core.redeliberation_pending, (h.keyed id t at).0))
              h)
      | inr other ↦
          rw (other, if◌then◌else◌)
            (put-Consistent core.next_id core.by_correlation core.transactions
              core.redeliberation_pending core.redeliberation_pending id t (with_requirements t qs)
              at refl
              (sound _ (λ flag. inl flag)
                (λ clear. (clear, evidence-IsUndelivered ok receipt q other)))
              (λ j _. refl) h)
    ]

pub settled_cases :
    (s : Settled)
    → (s ≡ unmatched)
      ⊎ ((s ≡ duplicate)
          ⊎ ((q : PreparedRequirement) × (qs : List PreparedRequirement) × (s ≡ settled q qs)))
settled_cases unmatched = inl refl
settled_cases duplicate = inr (inl refl)
settled_cases (settled q qs) = inr (inr (q, qs, refl))

module _ (c : Context) (frozen : IsFrozen c) where
  pub handle_evidence-Inv :
      (core : ControlCore) (id : ℕ) (identity : RequirementIdentity) (receipt : EvidenceReceipt)
      (result : DrainResult) (now_ms : ℕ)
      → Inv core
      → Inv (handle_evidence c core id identity receipt result now_ms).0
  unfolding handle_evidence
  handle_evidence-Inv core id identity receipt result now_ms h =
      elim (Option-cases (lookup id core.transactions)) [
        | inl e ↦ rw (e, handle_evidence) h
        | inr (t, at) ↦
            let ok = receipt_accepted core t receipt now_ms identity in
            elim (settled_cases
              (settle identity (evidence_update ok receipt) t.packet.requirements)) [
                | inl e ↦ rw (at, handle_evidence) (rw (e, handle_evidence) h)
                | inr (inl e) ↦ rw (at, handle_evidence) (rw (e, handle_evidence) h)
                | inr (inr (q, qs, e)) ↦
                    rw (at, handle_evidence)
                      (rw (e, handle_evidence)
                        (finish_report-Inv c frozen _ id
                          (record_evidence-Inv core id identity t receipt ok q qs at e h)))
              ]
      ]

  pub handle_failure-Inv :
      (core : ControlCore) (id : ℕ) (identity : RequirementIdentity) (result : DrainResult)
      → Inv core
      → Inv (handle_failure c core id identity result).0
  unfolding handle_failure
  handle_failure-Inv core id identity result h = elim (Option-cases (lookup id core.transactions)) [
    | inl e ↦ rw (e, handle_failure) h
    | inr (t, at) ↦ elim (settled_cases (settle identity fail_closed t.packet.requirements)) [
      | inl e ↦
          rw (at, handle_failure) (rw (e, handle_failure) (finish_report-Inv c frozen core id h))
      | inr (inl e) ↦ rw (at, handle_failure) (rw (e, handle_failure) h)
      | inr (inr (q, qs, e)) ↦
          rw (at, handle_failure)
            (rw (e, handle_failure)
              (finish_report-Inv c frozen _ id (
                put-Consistent core.next_id core.by_correlation core.transactions
                  core.redeliberation_pending core.redeliberation_pending id t
                  (with_requirements t qs) at refl
                  (settle-IsSound identity fail_closed (λ p. refl) (λ p. refl)
                    (contains t.id core.redeliberation_pending)
                    (contains t.id core.redeliberation_pending) t q qs e (λ flag. inl flag)
                    (λ clear. (clear, fail_closed-IsUndelivered q)) (h.sound id t at))
                  (λ j _. refl) h)))
    ]
  ]
