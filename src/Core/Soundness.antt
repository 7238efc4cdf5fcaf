-- ===== src/Core/Soundness.antt =====
-- What every stored transaction satisfies between two messages, and the steps that keep it.
use qiven_runtime.Base.Text.{codes, to_string}
use qiven_runtime.Base.{
  ℕ, Bytes, ◌++◌, ◌≢◌, subst, ◌≡◌, refl, sym, ap, ◌∙◌, ◌⊎◌, inl, inr, Bool, true, false, List, [],
  ◌∷◌, arith, All, nat_eq, Bool-cases, both_ways,
}
use qiven_runtime.Context.{
  Context, IsFrozen, JudgmentMet, ExecutionMet, before_judgment, satisfied, CognitiveRequirement,
  PreparedRequirement,
}
use qiven_runtime.Requirement.{RequirementIdentity, identity_beq, identity_beq_iff, identity_of}
use qiven_runtime.Transaction.{
  TransactionPhase, prepared_for_judgment, preparing_before_execution, awaiting_requirement,
  cognitive_allowed, stale, ControlTransaction, is_pending, evaluate_before_judgment,
  evaluate_before_execution,
}
use qiven_runtime.Core.Handlers.{with_requirements}
use qiven_runtime.Core.Steps.{
  Settled, unmatched, duplicate, settled, behind, settle, reevaluated, fail_closed,
}

-- The phases behind the judgment gate.
abbrev pub is_judged : TransactionPhase → Bool
is_judged prepared_for_judgment = true
is_judged preparing_before_execution = true
is_judged awaiting_requirement = true
is_judged cognitive_allowed = true
is_judged stale = true
is_judged _ = false

-- What an activation receipt adds to the evidence of a requirement.
abbrev pub activation_evidence : ℕ → List Bytes
activation_evidence event = (codes "activation:" ++ to_string event) ∷ []

-- A requirement that blocks the judgment has no evidence, or only that of one activation receipt; it
-- is satisfied only with the latter.
abbrev pub IsUndelivered : PreparedRequirement → Type 0
IsUndelivered p =
    p.requirement.blocking ≡ true
    → p.boundary ≡ before_judgment
    → ((p.evidence ≡ []) × (p.status ≢ satisfied))
      ⊎ ((event : ℕ) × (p.evidence ≡ activation_evidence event))

pub fail_closed-IsUndelivered :
    (p : PreparedRequirement) → IsUndelivered p → IsUndelivered (fail_closed p)
fail_closed-IsUndelivered p h blocks at_judgment = elim (h blocks at_judgment) [
  | inl (bare, _) ↦ inl (bare, λ e. cc e)
  | inr activated ↦ inr activated
]

-- A transaction with in-flight judgment evidence is not behind the judgment gate; one behind it has
-- its blocking judgment requirements satisfied, and an allowed one all that block. Without such
-- evidence, a blocking judgment requirement has no evidence but that of an activation receipt.
pub record IsSound (in_flight : Bool) (t : ControlTransaction) : Type 0 where
  pub timing : in_flight ≡ true → is_judged t.phase ≡ false
  pub judged : is_judged t.phase ≡ true → All JudgmentMet t.packet.requirements
  pub allowed : t.phase ≡ cognitive_allowed → All ExecutionMet t.packet.requirements
  pub undelivered : in_flight ≡ false → All IsUndelivered t.packet.requirements

reevaluated_cases :
    (c : Context) (in_flight : Bool) (t : ControlTransaction)
    → (reevaluated c in_flight t ≡ t)
      ⊎ ((is_judged (reevaluated c in_flight t).phase ≡ false)
          ⊎ ((in_flight ≡ false)
              × (c.ready_for_judgment t.packet ≡ true)
              × ((reevaluated c in_flight t).phase ≡ cognitive_allowed
                  → c.ready_for_execution t.packet ≡ true)))
unfolding reevaluated evaluate_before_judgment evaluate_before_execution
reevaluated_cases c in_flight t = ground arith

pub packet-reevaluated :
    (c : Context) (in_flight : Bool) (t : ControlTransaction)
    → ((reevaluated c in_flight t).packet ≡ t.packet) × ((reevaluated c in_flight t).id ≡ t.id)
unfolding reevaluated evaluate_before_judgment evaluate_before_execution
packet-reevaluated c in_flight t = (ground arith, ground arith)

-- Re-evaluation keeps a transaction sound.
pub reevaluated-IsSound :
    (c : Context)
    → IsFrozen c
    → (in_flight : Bool) (t : ControlTransaction) → IsSound in_flight t
    → IsSound in_flight (reevaluated c in_flight t)
reevaluated-IsSound c frozen in_flight t h = elim (reevaluated_cases c in_flight t) [
  | inl same ↦ rw same h
  | inr (inl unjudged) ↦ record {
    timing = λ _. unjudged;
    judged = λ e. both_ways e unjudged;
    allowed = λ e. both_ways (ap is_judged e) unjudged;
    undelivered = λ e. rw (packet-reevaluated c in_flight t).0 (h.undelivered e);
  }
  | inr (inr (late, ready, go)) ↦ record {
    timing = λ e. both_ways e late;
    judged = λ _. rw (packet-reevaluated c in_flight t).0 (frozen.judgment_gate t.packet ready);
    allowed = λ e. rw (packet-reevaluated c in_flight t).0 (frozen.execution_gate t.packet (go e));
    undelivered = λ e. rw (packet-reevaluated c in_flight t).0 (h.undelivered e);
  }
]

behind_inv :
    (p q : PreparedRequirement) (s : Settled) (qs : List PreparedRequirement)
    → behind p s ≡ settled q qs
    → (rs : List PreparedRequirement) × (s ≡ settled q rs) × (qs ≡ p ∷ rs)
behind_inv p q unmatched qs e = absurd (cc e)
behind_inv p q duplicate qs e = absurd (cc e)
behind_inv p q (settled r rs) qs e = (rs, cc, cc)

-- A settled report meets the first requirement, or one behind it.
settle_inv :
    (identity : RequirementIdentity) (update : PreparedRequirement → PreparedRequirement)
    (p q : PreparedRequirement) (ps qs : List PreparedRequirement)
    → settle identity update (p ∷ ps) ≡ settled q qs
    → ((is_pending p.status ≡ true) × (identity_of p ≡ identity) × (q ≡ p) × (qs ≡ update p ∷ ps))
      ⊎ ((rs : List PreparedRequirement) × (settle identity update ps ≡ settled q rs)
          × (qs ≡ p ∷ rs))
unfolding settle
settle_inv identity update p q ps qs e = elim (Bool-cases (identity_beq (identity_of p) identity)) [
  | inr other ↦ inr (behind_inv p q (settle identity update ps) qs (rw (other, settle) at e))
  | inl same ↦ elim (Bool-cases (is_pending p.status)) [
    | inl waits ↦
        let met : settled p (update p ∷ ps) ≡ settled q qs = rw (same, waits) at e in
        inl (waits, (identity_beq_iff _ _).0 same, cc met, cc met)
    | inr reported ↦
        let met : duplicate ≡ settled q qs = rw (same, reported) at e in absurd (cc met)
  ]
]

settle_nil :
    (identity : RequirementIdentity) (update : PreparedRequirement → PreparedRequirement)
    (q : PreparedRequirement) (qs : List PreparedRequirement)
    → ¬ (settle identity update [] ≡ settled q qs)
unfolding settle
settle_nil identity update q qs e = cc e

-- What a settled report tells: the requirement was there and pending, and a property of all
-- requirements that the update keeps still holds of all.
pub settle-All :
    (P : PreparedRequirement → Type 0) (identity : RequirementIdentity)
    (update : PreparedRequirement → PreparedRequirement) (ps : List PreparedRequirement)
    (q : PreparedRequirement) (qs : List PreparedRequirement)
    → (is_pending q.status ≡ true → P q → P (update q))
    → settle identity update ps ≡ settled q qs
    → All P ps
    → All P qs × P q × (is_pending q.status ≡ true)
settle-All P identity update [] q qs keep e h = absurd (settle_nil identity update q qs e)
settle-All P identity update (p ∷ ps) q qs keep e h =
    elim (settle_inv identity update p q ps qs e) [
      | inl (waits, _, here, all_) ↦
          let waiting : is_pending q.status ≡ true = rw here waits in
          let held : P q = rw here h.0 in
          let updated : P (update p) = subst (λ x. P (update x)) here (keep waiting held) in
          rw all_ ((updated, h.1), held, waiting)
      | inr (rs, later, all_) ↦
          let rest = settle-All P identity update ps q rs keep later h.1 in
          rw all_ ((h.0, rest.0), rest.1, rest.2)
    ]

met_judgment-update :
    (p q : PreparedRequirement)
    → q.requirement ≡ p.requirement
    → q.boundary ≡ p.boundary
    → is_pending p.status ≡ true
    → JudgmentMet p
    → JudgmentMet q
met_judgment-update p q r b waits met blocking here =
    let done : p.status ≡ satisfied =
      met (ap (λ (c : CognitiveRequirement). c.blocking) (sym r) ∙ blocking) (sym b ∙ here) in
    both_ways (sym (ap is_pending done) ∙ waits) refl

met_execution-update :
    (p q : PreparedRequirement)
    → q.requirement ≡ p.requirement
    → is_pending p.status ≡ true
    → ExecutionMet p
    → ExecutionMet q
met_execution-update p q r waits met blocking =
    let done : p.status ≡ satisfied =
      met (ap (λ (c : CognitiveRequirement). c.blocking) (sym r) ∙ blocking) in
    both_ways (sym (ap is_pending done) ∙ waits) refl

module _ (identity : RequirementIdentity) (update : PreparedRequirement → PreparedRequirement)
    (same_requirement : (p : PreparedRequirement) → (update p).requirement ≡ p.requirement)
    (same_boundary : (p : PreparedRequirement) → (update p).boundary ≡ p.boundary) where
  -- Recording a report keeps a transaction sound; it may become one with in-flight judgment evidence
  -- if the reported requirement blocks the judgment.
  pub settle-IsSound :
      (before after : Bool) (t : ControlTransaction) (q : PreparedRequirement)
      (qs : List PreparedRequirement)
      → settle identity update t.packet.requirements ≡ settled q qs
      → (after ≡ true
          → (before ≡ true) ⊎ ((q.requirement.blocking ≡ true) × (q.boundary ≡ before_judgment)))
      → (after ≡ false → (before ≡ false) × (IsUndelivered q → IsUndelivered (update q)))
      → IsSound before t
      → IsSound after (with_requirements t qs)
  settle-IsSound before after t q qs e grows stays h = record {
    timing = λ flagged. elim (grows flagged) [
      | inl old ↦ h.timing old
      | inr (blocks, at_judgment) ↦ elim (Bool-cases (is_judged t.phase)) [
        | inr unjudged ↦ unjudged
        | inl past ↦
            let parts = judgment (h.judged past) in
            both_ways (sym (ap is_pending (parts.1 blocks at_judgment)) ∙ parts.2) refl
      ]
    ];
    judged = λ past. (judgment (h.judged past)).0;
    allowed = λ done. (execution (h.allowed done)).0;
    undelivered = λ clear.
        let (was, keep) = stays clear in
        (settle-All IsUndelivered identity update t.packet.requirements q qs (λ _ k. keep k) e
          (h.undelivered was)).0;
  }
    where
      judgment :
          All JudgmentMet t.packet.requirements
          → All JudgmentMet qs × JudgmentMet q × (is_pending q.status ≡ true)
      judgment met =
          settle-All JudgmentMet identity update t.packet.requirements q qs
            (λ waits k.
              met_judgment-update q (update q) (same_requirement q) (same_boundary q) waits k)
            e met

      execution :
          All ExecutionMet t.packet.requirements
          → All ExecutionMet qs × ExecutionMet q × (is_pending q.status ≡ true)
      execution met =
          settle-All ExecutionMet identity update t.packet.requirements q qs
            (λ waits k. met_execution-update q (update q) (same_requirement q) waits k) e met
