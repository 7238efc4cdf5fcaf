-- ===== src/Core/Undelivered.antt =====
-- What a new transaction of state.cpp starts with: its receipts of injected cognition may have
-- satisfied some requirements, and the dispatch may have failed some.
use qiven_runtime.Base.{
  ℕ, ◌≡◌, ◌≢◌, refl, inl, inr, List, [], ◌∷◌, map, All, Bool-cases, Option-cases, if◌then◌else◌,
  ◌&&◌,
}
use qiven_runtime.Context.{Context, PreparedRequirement, satisfied}
use qiven_runtime.Foundation.{Foundation}
use qiven_runtime.Intent.{IntentSet}
use qiven_runtime.Requirement.{
  RequirementIdentity, RequirementInstance, identity_of, derive_requirement_set,
}
use qiven_runtime.Transaction.{begin_control_transaction, is_before_judgment}
use qiven_runtime.Resolver.{ResolverBinding}
use qiven_runtime.Activation.{ActivationReceipt}
use qiven_runtime.Ingress.{Proposal}
use qiven_runtime.Executor.{Executor, submit}
use qiven_runtime.Core.State.{Task, ControlCore, awaits_report}
use qiven_runtime.Core.Steps.{
  binding_for, dispatch_one, dispatch_all, JudgmentFacts, first_usable, presatisfy_one, presatisfy,
}
use qiven_runtime.Core.Handlers.{prepared_of, opened}
use qiven_runtime.Core.Soundness.{IsUndelivered, fail_closed-IsUndelivered}

module _ (registry : List ResolverBinding)
    (make : RequirementIdentity → ResolverBinding → Task) where
  dispatch_one-IsUndelivered :
      (p : PreparedRequirement) (x : Executor Task) (n : ℕ)
      → IsUndelivered p
      → IsUndelivered (dispatch_one registry make p x n).0
  unfolding dispatch_one
  dispatch_one-IsUndelivered p x n h = elim (Bool-cases (awaits_report p)) [
    | inr quiet ↦ rw (quiet, if◌then◌else◌) h
    | inl waits ↦ elim (Option-cases (binding_for registry (identity_of p))) [
      | inl unbound ↦ rw (waits, unbound) (fail_closed-IsUndelivered p h)
      | inr (b, bound) ↦ elim (Bool-cases (submit x (make (identity_of p) b)).1) [
        | inl taken ↦ rw (waits, bound, taken) h
        | inr refused ↦ rw (waits, bound, refused) (fail_closed-IsUndelivered p h)
      ]
    ]
  ]

  pub dispatch_all-IsUndelivered :
      (ps : List PreparedRequirement) (x : Executor Task) (n : ℕ)
      → All IsUndelivered ps
      → All IsUndelivered (dispatch_all registry make ps x n).0
  unfolding dispatch_all
  dispatch_all-IsUndelivered [] x n h = tt
  dispatch_all-IsUndelivered (p ∷ ps) x n h =
      let one = dispatch_one registry make p x n in
      (dispatch_one-IsUndelivered p x n h.0, dispatch_all-IsUndelivered ps one.1 one.2 h.1)

-- A requirement that nothing has been recorded for.
abbrev IsBare : PreparedRequirement → Type 0
IsBare p = (p.evidence ≡ []) × (p.status ≢ satisfied)

prepared-IsBare : (is : List RequirementInstance) → All IsBare (map prepared_of is)
prepared-IsBare [] = tt
prepared-IsBare (i ∷ is) = ((refl, λ e. cc e), prepared-IsBare is)

module _ (f : Foundation) (facts : JudgmentFacts) (receipts : List ActivationReceipt) where
  presatisfy_one-IsUndelivered :
      (p : PreparedRequirement) (spent : List ℕ)
      → IsBare p
      → IsUndelivered (presatisfy_one f facts receipts p spent).0
  unfolding presatisfy_one
  presatisfy_one-IsUndelivered p spent h =
      elim (Bool-cases (awaits_report p && is_before_judgment p.boundary)) [
        | inr passed ↦ rw (passed, if◌then◌else◌) (λ _ _. inl h)
        | inl asked ↦ elim (Option-cases (first_usable f facts (identity_of p) spent receipts)) [
          | inl unusable ↦ rw (asked, unusable) (λ _ _. inl h)
          | inr (a, usable) ↦ rw (asked, usable) (λ _ _. inr (a.injection_event, rw h.0 refl))
        ]
      ]

  presatisfy-IsUndelivered :
      (ps : List PreparedRequirement) (spent : List ℕ)
      → All IsBare ps
      → All IsUndelivered (presatisfy f facts receipts ps spent).0
  unfolding presatisfy
  presatisfy-IsUndelivered [] spent h = tt
  presatisfy-IsUndelivered (p ∷ ps) spent h =
      let one = presatisfy_one f facts receipts p spent in
      (presatisfy_one-IsUndelivered p spent h.0, presatisfy-IsUndelivered ps one.1 h.1)

pub opened-IsUndelivered :
    (f : Foundation) (c : Context) (core : ControlCore) (m : Proposal) (intents : IntentSet)
    (now_ms : ℕ)
    → All IsUndelivered (opened f c core m intents now_ms).0.packet.requirements
unfolding opened begin_control_transaction
opened-IsUndelivered f c core m intents now_ms =
    presatisfy-IsUndelivered f _ m.activation_receipts _ _
      (prepared-IsBare (derive_requirement_set c core.cognition.snapshot intents))
