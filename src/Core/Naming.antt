-- ===== src/Core/Naming.antt =====
-- What the report handlers of state.cpp leave of the index by correlation key and of the actions.
use qiven_runtime.Base.{
  ℕ, suc, zero, ◌≡◌, refl, ap, ◌∙◌, inl, inr, Bool, List, Option, none, some, arith, nat_beq,
  nat_beq_iff, nat_eq, lookup, put, lookup-put, contains, Bool-cases, Option-cases, if◌then◌else◌,
}
use qiven_runtime.Context.{Context, PreparedRequirement}
use qiven_runtime.Identity.{CorrelationKey, key_eq}
use qiven_runtime.Intent.{ObservedAction}
use qiven_runtime.Requirement.{RequirementIdentity}
use qiven_runtime.Transaction.{
  ControlTransaction, evaluate_before_judgment, evaluate_before_execution,
}
use qiven_runtime.Receipt.{EvidenceReceipt}
use qiven_runtime.Core.State.{ControlCore, DrainResult}
use qiven_runtime.Core.Steps.{
  reevaluated, reevaluate, last_report, finish_report, fail_closed, settle,
}
use qiven_runtime.Core.Handlers.{
  with_requirements, record_evidence, resolves_judgment, receipt_accepted, evidence_update,
  handle_evidence, handle_failure,
}
use qiven_runtime.Core.Reports.{settled_cases}

module _ (key : CorrelationKey) (id : ℕ) (action : ObservedAction) where
  -- The key leads to the transaction, and the transaction has the action.
  abbrev pub Names : List (CorrelationKey × ℕ) → List (ℕ × ControlTransaction) → Type 0
  Names by_correlation transactions =
      (lookup key by_correlation ≡ some id)
      × (t : ControlTransaction) × (lookup id transactions ≡ some t)
      × (t.action ≡ action)

  abbrev pub IsNamed : ControlCore → Type 0
  IsNamed core = Names core.by_correlation core.transactions

  pub put-Names :
      (by_correlation : List (CorrelationKey × ℕ)) (transactions : List (ℕ × ControlTransaction))
      (j : ℕ) (t u : ControlTransaction)
      → lookup j transactions ≡ some t
      → u.action ≡ t.action
      → Names by_correlation transactions
      → Names by_correlation (put j u transactions)
  put-Names by_correlation transactions j t u at same (known, v, found, first) =
      elim (Bool-cases (nat_beq j id)) [
        | inl here ↦
            let own : t ≡ v = ground (arith, nat_beq_iff j id) in
            (
              known,
              u,
              lookup-put j id u transactions ∙ rw here refl,
              same ∙ ap (λ (x : ControlTransaction). x.action) own ∙ first,
            )
        | inr far ↦ (known, v, lookup-put j id u transactions ∙ rw far found, first)
      ]

  action-reevaluated :
      (c : Context) (in_flight : Bool) (t : ControlTransaction)
      → (reevaluated c in_flight t).action ≡ t.action
  unfolding reevaluated evaluate_before_judgment evaluate_before_execution
  action-reevaluated c in_flight t = ground arith

  pub reevaluate-IsNamed :
      (c : Context) (core : ControlCore) (j : ℕ) → IsNamed core → IsNamed (reevaluate c core j)
  unfolding reevaluate
  reevaluate-IsNamed c core j h = elim (Option-cases (lookup j core.transactions)) [
    | inl e ↦ rw (e, reevaluate) h
    | inr (t, e) ↦
        let flag = contains t.id core.redeliberation_pending in
        rw (e, reevaluate)
          (put-Names core.by_correlation core.transactions j t (reevaluated c flag t) e
            (action-reevaluated c flag t) h)
  ]

  last_report-IsNamed :
      (c : Context) (core : ControlCore) (j : ℕ) (left : Option ℕ)
      → IsNamed core
      → IsNamed (last_report c core j left)
  last_report-IsNamed c core j none h = h
  last_report-IsNamed c core j (some zero) h = h
  last_report-IsNamed c core j (some (suc n)) h = elim (Bool-cases (nat_beq n 0)) [
    | inl done ↦ rw done (reevaluate-IsNamed c _ j h)
    | inr more ↦ rw more h
  ]

  finish_report-IsNamed :
      (c : Context) (core : ControlCore) (j : ℕ) → IsNamed core → IsNamed (finish_report c core j)
  unfolding finish_report
  finish_report-IsNamed c core j h = last_report-IsNamed c core j (lookup j core.outstanding) h

  record_evidence-IsNamed :
      (core : ControlCore) (j : ℕ) (t : ControlTransaction) (receipt : EvidenceReceipt) (ok : Bool)
      (q : PreparedRequirement) (qs : List PreparedRequirement)
      → lookup j core.transactions ≡ some t
      → IsNamed core
      → IsNamed (record_evidence core j t receipt ok q qs)
  unfolding record_evidence
  record_evidence-IsNamed core j t receipt ok q qs at h =
      let kept =
        put-Names core.by_correlation core.transactions j t (with_requirements t qs) at refl h in
      elim (Bool-cases (resolves_judgment ok q)) [
        | inl late ↦ rw (late, if◌then◌else◌) kept
        | inr other ↦ rw (other, if◌then◌else◌) kept
      ]

  pub handle_evidence-IsNamed :
      (c : Context) (core : ControlCore) (j : ℕ) (identity : RequirementIdentity)
      (receipt : EvidenceReceipt) (result : DrainResult) (now_ms : ℕ)
      → IsNamed core
      → IsNamed (handle_evidence c core j identity receipt result now_ms).0
  unfolding handle_evidence
  handle_evidence-IsNamed c core j identity receipt result now_ms h =
      elim (Option-cases (lookup j core.transactions)) [
        | inl e ↦ rw (e, handle_evidence) h
        | inr (t, at) ↦
            let ok = receipt_accepted core t receipt now_ms identity in
            elim (settled_cases
              (settle identity (evidence_update ok receipt) t.packet.requirements)) [
                | inl e ↦ rw (at, handle_evidence) (rw (e, handle_evidence) h)
                | inr (inl e) ↦ rw (at, handle_evidence) (rw (e, handle_evidence) h)
                | inr (inr (q, qs, e)) ↦
                    rw (at, handle_evidence)
                      (rw (e, handle_evidence)
                        (finish_report-IsNamed c _ j
                          (record_evidence-IsNamed core j t receipt ok q qs at h)))
              ]
      ]

  pub handle_failure-IsNamed :
      (c : Context) (core : ControlCore) (j : ℕ) (identity : RequirementIdentity)
      (result : DrainResult)
      → IsNamed core
      → IsNamed (handle_failure c core j identity result).0
  unfolding handle_failure
  handle_failure-IsNamed c core j identity result h =
      elim (Option-cases (lookup j core.transactions)) [
        | inl e ↦ rw (e, handle_failure) h
        | inr (t, at) ↦ elim (settled_cases (settle identity fail_closed t.packet.requirements)) [
          | inl e ↦
              rw (at, handle_failure) (rw (e, handle_failure) (finish_report-IsNamed c core j h))
          | inr (inl e) ↦ rw (at, handle_failure) (rw (e, handle_failure) h)
          | inr (inr (q, qs, e)) ↦
              rw (at, handle_failure)
                (rw (e, handle_failure)
                  (finish_report-IsNamed c _ j (
                    put-Names core.by_correlation core.transactions j t (with_requirements t qs) at
                      refl h)))
        ]
      ]
