-- ===== src/Core/Dispatching.antt =====
-- What a dispatch leaves outstanding, and what a report after the last one can do.
use qiven_runtime.Base.{
  ℕ, ◌+◌, ◌≡◌, refl, ap, ◌∙◌, arith, Bool, true, false, List, [], ◌∷◌, some, length, length-append,
  count_if, lookup, lookup-put, put, beq_refl, contains, if◌then◌else◌, nat_eq, Bool-cases,
  Option-cases, inl, inr, ◌++◌, map, none, sym,
}
use mathlib.Core.List.{append_assoc, append-nil}
use qiven_runtime.Context.{Context, CognitiveRequirement, Boundary, PreparedRequirement}
use qiven_runtime.Requirement.{RequirementIdentity, identity_of}
use qiven_runtime.Transaction.{ControlTransaction}
use qiven_runtime.Resolver.{ResolverBinding}
use qiven_runtime.Receipt.{EvidenceReceipt}
use qiven_runtime.Executor.{Executor, submit}
use qiven_runtime.Core.State.{Task, DrainResult, ControlCore, awaits_report}
use qiven_runtime.Core.Steps.{
  binding_for, dispatch_one, dispatch_all, finish_report, reevaluate, reevaluated, fail_closed,
  settle, unmatched,
}
use qiven_runtime.Core.Soundness.{packet-reevaluated}
use qiven_runtime.Core.Reports.{settled_cases}
use qiven_runtime.Core.Handlers.{
  record_evidence, with_requirements, resolves_judgment, handle_evidence, handle_failure,
  receipt_accepted, evidence_update,
}

abbrev one_if : Bool → ℕ
one_if true = 1
one_if false = 0

-- What a requirement asks, and by when.
abbrev pub asks : PreparedRequirement → CognitiveRequirement × Boundary
asks p = (p.requirement, p.boundary)

submit_queues :
    (x : Executor Task) (task : Task)
    → (submit x task).0.pending ≡ x.pending ++ (if (submit x task).1 then task ∷ [] else [])
unfolding submit
submit_queues x task = ground (arith, append-nil x.pending)

module _ (registry : List ResolverBinding)
    (make : RequirementIdentity → ResolverBinding → Task) where
  -- The task for a requirement that waits for a report, under its own kind, subject, boundary and
  -- blocking flag and the binding that the registry names for it.
  abbrev task_of : PreparedRequirement → List Task
  task_of p =
      let identity : RequirementIdentity = record {
        kind = p.requirement.kind;
        subject = p.requirement.subject;
        boundary = p.boundary;
        blocking = p.requirement.blocking;
      } in
      if awaits_report p
      then elim (binding_for registry identity) [ none ↦ [] | some b ↦ make identity b ∷ [] ]
      else []

  abbrev pub tasks_of : List PreparedRequirement → List Task
  tasks_of [] = []
  tasks_of (p ∷ ps) = task_of p ++ tasks_of ps

  -- What one round does: the requirement keeps what it asks, and the count and the queue grow by it
  -- alone.
  record DispatchesOne (p : PreparedRequirement) (x : Executor Task) (n : ℕ)
      (r : PreparedRequirement × Executor Task × ℕ) : Type 0 where
    pub requirement : r.0.requirement ≡ p.requirement
    pub boundary : r.0.boundary ≡ p.boundary
    pub counted : r.2 ≡ n + one_if (awaits_report r.0)
    pub queued : r.1.pending ≡ x.pending ++ task_of r.0
    pub one_each : length (task_of r.0) ≡ one_if (awaits_report r.0)

  dispatch_one_lem :
      (p : PreparedRequirement) (x : Executor Task) (n : ℕ)
      → DispatchesOne p x n (dispatch_one registry make p x n)
  unfolding dispatch_one
  dispatch_one_lem p x n = elim (Option-cases (binding_for registry (identity_of p))) [
    | inl unbound ↦ record {
      requirement = ground (arith, unbound);
      boundary = ground (arith, unbound);
      counted = ground (arith, unbound);
      queued = ground (arith, unbound, append-nil x.pending);
      one_each = ground (arith, unbound);
    }
    | inr (b, bound) ↦
        let queues = submit_queues x (make (identity_of p) b) in
        let nothing = append-nil x.pending in
        record {
          requirement = ground (arith, bound);
          boundary = ground (arith, bound);
          counted = ground (arith, bound);
          queued = ground (arith, bound, queues, nothing);
          one_each = ground (arith, bound);
        }
  ]

  -- A dispatch keeps what each requirement asks. It raises the count of outstanding resolvers by the
  -- number of blocking requirements that it leaves pending, and queues exactly one task for each of
  -- them, in their order, behind what was queued: the task for that very requirement and for the
  -- binding that the registry names for it.
  pub dispatch_all_counts :
      (ps : List PreparedRequirement) (x : Executor Task) (n : ℕ)
      → let (after, x', n') = dispatch_all registry make ps x n in
        (map asks after ≡ map asks ps)
        × (n' ≡ n + count_if awaits_report after)
        × (length (tasks_of after) ≡ count_if awaits_report after)
        × (x'.pending ≡ x.pending ++ tasks_of after)
  unfolding dispatch_all
  dispatch_all_counts [] x n = (refl, omega arith, refl, sym (append-nil x.pending))
  dispatch_all_counts (p ∷ ps) x n =
      let r = dispatch_one registry make p x n in
      let one = dispatch_one_lem p x n in
      let rest = dispatch_all_counts ps r.1 r.2 in
      let after = (dispatch_all registry make ps r.1 r.2).0 in
      (
        rw (one.requirement, one.boundary, rest.0) refl,
        ground (arith, one.counted, rest.1),
        ground (arith, one.one_each, rest.2, length-append (task_of r.0) (tasks_of after)),
        rest.3
            ∙ ap (λ (ts : List Task). ts ++ tasks_of after) one.queued
            ∙ append_assoc x.pending (task_of r.0) (tasks_of after),
      )

-- An evidence delivery for a transaction, and the clock's reading when it is handled.
pub record Delivery : Type 0 where
  pub requirement : RequirementIdentity
  pub receipt : EvidenceReceipt
  pub now_ms : ℕ

lookup-put_same :
    (id : ℕ) (t : ControlTransaction) (m : List (ℕ × ControlTransaction))
    → lookup id (put id t m) ≡ some t
lookup-put_same id t m = lookup-put id id t m ∙ rw (beq_refl id) refl

module _ (c : Context) where
  -- With nothing outstanding, the end of a report changes nothing.
  quiet_finish :
      (core : ControlCore) (id : ℕ)
      → lookup id core.outstanding ≡ some 0
      → finish_report c core id ≡ core
  unfolding finish_report
  quiet_finish core id none_left = rw none_left refl

  record_evidence_kept :
      (core : ControlCore) (id : ℕ) (t : ControlTransaction) (receipt : EvidenceReceipt) (ok : Bool)
      (p : PreparedRequirement) (requirements : List PreparedRequirement)
      → let after = record_evidence core id t receipt ok p requirements in
        (after.outstanding ≡ core.outstanding)
        × (lookup id after.transactions ≡ some (with_requirements t requirements))
  unfolding record_evidence
  record_evidence_kept core id t receipt ok p requirements =
      let kept = lookup-put_same id (with_requirements t requirements) core.transactions in
      elim (Bool-cases (resolves_judgment ok p)) [
        | inl resolves ↦ rw (resolves, if◌then◌else◌) (refl, kept)
        | inr other ↦ rw (other, if◌then◌else◌) (refl, kept)
      ]

  quiet_evidence :
      (core : ControlCore) (id : ℕ) (t : ControlTransaction) (identity : RequirementIdentity)
      (receipt : EvidenceReceipt) (result : DrainResult) (now_ms : ℕ)
      → lookup id core.outstanding ≡ some 0
      → lookup id core.transactions ≡ some t
      → (u : ControlTransaction) × (lookup id
            (handle_evidence c core id identity receipt result now_ms).0.transactions
          ≡ some u)
        × (u.phase ≡ t.phase)
        × (lookup id (handle_evidence c core id identity receipt result now_ms).0.outstanding
            ≡ some 0)
  unfolding handle_evidence
  quiet_evidence core id t identity receipt result now_ms none_left at =
      let ok = receipt_accepted core t receipt now_ms identity in
      elim (settled_cases (settle identity (evidence_update ok receipt) t.packet.requirements)) [
        | inl e ↦ (
          t,
          rw (at, handle_evidence) (rw (e, handle_evidence) at),
          refl,
          rw (at, handle_evidence) (rw (e, handle_evidence) none_left),
        )
        | inr (inl e) ↦ (
          t,
          rw (at, handle_evidence) (rw (e, handle_evidence) at),
          refl,
          rw (at, handle_evidence) (rw (e, handle_evidence) none_left),
        )
        | inr (inr (p, ps, e)) ↦
            let kept = record_evidence_kept core id t receipt ok p ps in
            let none_still = ap (lookup id) kept.0 ∙ none_left in
            let quiet = quiet_finish (record_evidence core id t receipt ok p ps) id none_still in
            (
              with_requirements t ps,
              rw (at, handle_evidence) (rw (e, handle_evidence) (rw quiet kept.1)),
              refl,
              rw (at, handle_evidence) (rw (e, handle_evidence) (rw quiet none_still)),
            )
      ]

  abbrev pub deliver_all : ControlCore → ℕ → DrainResult → List Delivery → ControlCore
  deliver_all core id result [] = core
  deliver_all core id result (d ∷ rest) =
      let next = handle_evidence c core id d.requirement d.receipt result d.now_ms in
      deliver_all next.0 id next.1 rest

  quiet_deliveries :
      (core : ControlCore) (id : ℕ) (t : ControlTransaction) (result : DrainResult)
      (late : List Delivery)
      → lookup id core.outstanding ≡ some 0
      → lookup id core.transactions ≡ some t
      → (v : ControlTransaction) × (lookup id (deliver_all core id result late).transactions
          ≡ some v)
        × (v.phase ≡ t.phase)
  quiet_deliveries core id t result [] none_left at = (t, at, refl)
  quiet_deliveries core id t result (d ∷ rest) none_left at =
      let (u, kept, same, none_still) =
        quiet_evidence core id t d.requirement d.receipt result d.now_ms none_left at in
      let next = handle_evidence c core id d.requirement d.receipt result d.now_ms in
      let (v, stored, phase) = quiet_deliveries next.0 id u next.1 rest none_still kept in
      (v, stored, phase ∙ same)

  -- The last report evaluates the transaction.
  finish_last :
      (core : ControlCore) (id : ℕ) (t : ControlTransaction)
      → lookup id core.outstanding ≡ some 1
      → lookup id core.transactions ≡ some t
      → finish_report c core id ≡ record core {
        outstanding = put id 0 core.outstanding;
        transactions =
            put id (reevaluated c (contains t.id core.redeliberation_pending) t) core.transactions;
      }
  unfolding finish_report reevaluate
  finish_last core id t one_left at = rw one_left (rw (at, reevaluate) refl)

  -- The last outstanding report, for a requirement that is not in the packet.
  stray_failure :
      (core : ControlCore) (id : ℕ) (t : ControlTransaction) (identity : RequirementIdentity)
      (result : DrainResult)
      → lookup id core.outstanding ≡ some 1
      → lookup id core.transactions ≡ some t
      → settle identity fail_closed t.packet.requirements ≡ unmatched
      → let after = (handle_failure c core id identity result).0 in
        (lookup id after.outstanding ≡ some 0)
        × (lookup id after.transactions
            ≡ some (reevaluated c (contains t.id core.redeliberation_pending) t))
  unfolding handle_failure
  stray_failure core id t identity result one_left at e =
      rw (at, handle_failure)
        (rw (e, handle_failure)
          (rw (finish_last core id t one_left at) (
            lookup-put id id 0 core.outstanding ∙ rw (beq_refl id) refl,
            lookup-put_same id (reevaluated c (contains t.id core.redeliberation_pending) t)
                core.transactions,
          )))

  -- A failure report for a requirement that the transaction never derived, while one resolver is
  -- outstanding, uses up the last report: nothing is outstanding then, and the transaction is evaluated
  -- with its packet as it is. Whatever evidence is delivered to it afterwards, in any number, leaves
  -- its phase where that evaluation put it.
  pub stray_failure_stalls :
      (core : ControlCore) (id : ℕ) (t : ControlTransaction) (identity : RequirementIdentity)
      (result : DrainResult)
      → lookup id core.outstanding ≡ some 1
      → lookup id core.transactions ≡ some t
      → settle identity fail_closed t.packet.requirements ≡ unmatched
      → let stalled = (handle_failure c core id identity result).0 in
        let evaluated = reevaluated c (contains t.id core.redeliberation_pending) t in
        (lookup id stalled.outstanding ≡ some 0)
        × (lookup id stalled.transactions ≡ some evaluated)
        × (evaluated.packet ≡ t.packet)
        × ((later : DrainResult) (late : List Delivery)
            → (v : ControlTransaction) × (lookup id (deliver_all stalled id later late).transactions
                ≡ some v)
              × (v.phase ≡ evaluated.phase))
  stray_failure_stalls core id t identity result one_left at e =
      let after = stray_failure core id t identity result one_left at e in
      let flag = contains t.id core.redeliberation_pending in
      (
        after.0,
        after.1,
        (packet-reevaluated c flag t).0,
        λ later late.
            quiet_deliveries (handle_failure c core id identity result).0 id (reevaluated c flag t)
              later late after.0 after.1,
      )
