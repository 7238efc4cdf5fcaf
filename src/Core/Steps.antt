-- ===== src/Core/Steps.antt =====
-- The loops of the handlers: pre-satisfaction, dispatch, the search for a reported requirement, and
-- the re-evaluation.
use qiven_runtime.Base.{
  ℕ, suc, zero, ◌+◌, Bool, true, false, not, ◌&&◌, ◌||◌, List, [], ◌∷◌, ◌++◌, Option, none, some,
  Bytes, nat_beq, nat_eq, lookup, put, contains, insert, if◌then◌else◌,
}
use qiven_runtime.Base.Text.{codes, to_string}
use qiven_runtime.Context.{Context, satisfied, failed, PreparedRequirement}
use qiven_runtime.Foundation.{Foundation}
use qiven_runtime.Requirement.{RequirementIdentity, identity_beq, identity_of}
use qiven_runtime.Transaction.{
  TransactionPhase, re_deliberation_required, prepared_for_judgment, ControlTransaction,
  is_terminal, is_pending, is_before_judgment, evaluate_before_judgment, evaluate_before_execution,
}
use qiven_runtime.Resolver.{ResolverBinding, find_for_kind_and_view}
use qiven_runtime.Activation.{ActivationReceipt, valid_for, activation_use_identity}
use qiven_runtime.Executor.{Executor, submit}
use qiven_runtime.Core.State.{Task, ControlCore, awaits_report}

sole : List ResolverBinding → Option ResolverBinding
sole (b ∷ []) = some b
sole _ = none

-- `binding_for`: no binding and several are `none` alike.
unfoldable pub binding_for : List ResolverBinding → RequirementIdentity → Option ResolverBinding
unfolding sole
binding_for registry identity =
    sole (find_for_kind_and_view registry identity.kind (codes "default"))

abbrev pub fail_closed : PreparedRequirement → PreparedRequirement
fail_closed p = record p { status = failed }

module _ (registry : List ResolverBinding)
    (make : RequirementIdentity → ResolverBinding → Task) where
  -- One round of the loop of `dispatch_resolvers`, with the resolvers outstanding so far.
  unfoldable pub dispatch_one :
      PreparedRequirement → Executor Task → ℕ → PreparedRequirement × Executor Task × ℕ
  dispatch_one p x n =
      if not (awaits_report p) then (p, x, n) else elim (binding_for registry (identity_of p)) [
        | none ↦ (fail_closed p, x, n)
        | some b ↦
            let (x', taken) = submit x (make (identity_of p) b) in
            if taken then (p, x', n + 1) else (fail_closed p, x', n)
      ]

  unfoldable pub dispatch_all :
      List PreparedRequirement → Executor Task → ℕ → List PreparedRequirement × Executor Task × ℕ
  unfolding dispatch_one
  dispatch_all [] x n = ([], x, n)
  dispatch_all (p ∷ ps) x n =
      let (p', x', n') = dispatch_one p x n in
      let (ps', x'', n'') = dispatch_all ps x' n' in (p' ∷ ps', x'', n'')

-- What the new judgment pins, for the test of an activation receipt.
pub record JudgmentFacts : Type 0 where
  pub revision : Bytes
  pub snapshot_digest : Bytes
  pub generation : ℕ
  pub now_ms : ℕ

module _ (f : Foundation) (facts : JudgmentFacts) where
  -- The first receipt that is unspent and valid for the requirement.
  unfoldable pub first_usable :
      RequirementIdentity → List ℕ → List ActivationReceipt → Option ActivationReceipt
  first_usable identity spent [] = none
  first_usable identity spent (a ∷ rest) =
      if contains (activation_use_identity f a) spent
        || not (
            valid_for a identity facts.revision facts.snapshot_digest facts.generation facts.now_ms)
      then first_usable identity spent rest
      else some a

  unfoldable pub presatisfy_one :
      List ActivationReceipt → PreparedRequirement → List ℕ → PreparedRequirement × List ℕ
  presatisfy_one receipts p spent =
      if awaits_report p && is_before_judgment p.boundary
      then elim (first_usable (identity_of p) spent receipts) [
        | none ↦ (p, spent)
        | some a ↦ (
          record p {
            status = satisfied;
            evidence = p.evidence ++ (codes "activation:" ++ to_string a.injection_event) ∷ [];
          },
          insert (activation_use_identity f a) spent,
        )
      ]
      else (p, spent)

  unfoldable pub presatisfy :
      List ActivationReceipt → List PreparedRequirement → List ℕ → List PreparedRequirement × List ℕ
  unfolding presatisfy_one
  presatisfy receipts [] spent = ([], spent)
  presatisfy receipts (p ∷ ps) spent =
      let (p', spent') = presatisfy_one receipts p spent in
      let (ps', spent'') = presatisfy receipts ps spent' in (p' ∷ ps', spent'')

-- How a report meets the packet: no requirement of that identity, one that has been reported, or a
-- pending one, with the requirements after the update.
pub data Settled : Type 0 where
  unmatched duplicate : Settled
  settled : PreparedRequirement → List PreparedRequirement → Settled

abbrev pub behind : PreparedRequirement → Settled → Settled
behind p unmatched = unmatched
behind p duplicate = duplicate
behind p (settled q ps) = settled q (p ∷ ps)

unfoldable pub settle :
    RequirementIdentity
    → (PreparedRequirement → PreparedRequirement)
    → List PreparedRequirement
    → Settled
settle identity update [] = unmatched
settle identity update (p ∷ ps) =
    let rest = settle identity update ps in
    if identity_beq (identity_of p) identity
    then (if is_pending p.status then settled p (update p ∷ ps) else duplicate)
    else behind p rest

abbrev is_prepared : TransactionPhase → Bool
is_prepared prepared_for_judgment = true
is_prepared _ = false

-- The transaction that `reevaluate_after_reports` leaves; the flag says that a judgment requirement
-- was satisfied in flight.
unfoldable pub reevaluated : Context → Bool → ControlTransaction → ControlTransaction
reevaluated c in_flight t =
    if is_terminal t.phase
    then t
    else if in_flight && nat_beq t.packet.failure 0
    then record t { phase = re_deliberation_required }
    else let judged = (evaluate_before_judgment c t).0 in
      if is_prepared judged.phase then (evaluate_before_execution c judged).0 else judged

unfoldable pub reevaluate : Context → ControlCore → ℕ → ControlCore
reevaluate c core id = elim (lookup id core.transactions) [
  | none ↦ core
  | some t ↦ record core {
    transactions =
        put id (reevaluated c (contains t.id core.redeliberation_pending) t) core.transactions;
  }
]

-- The end of both report handlers: one resolver fewer is outstanding, and the last one re-evaluates.
abbrev pub last_report : Context → ControlCore → ℕ → Option ℕ → ControlCore
last_report c core id none = core
last_report c core id (some zero) = core
last_report c core id (some (suc n)) =
    let core' = record core { outstanding = put id n core.outstanding } in
    if nat_beq n 0 then reevaluate c core' id else core'

unfoldable pub finish_report : Context → ControlCore → ℕ → ControlCore
finish_report c core id = last_report c core id (lookup id core.outstanding)
