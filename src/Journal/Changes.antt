-- ===== src/Journal/Changes.antt =====
-- A property of the rows that each change of journal/runtime_journal.cpp keeps, whatever is
-- audited with it, holds all along a run.
use qiven_runtime.Base.{
  ℕ, ◌≡◌, refl, subst, arith, false, not, Option, some, Bytes, ◌∷◌, lookup, has, bytes_eq, nat_eq,
}
use qiven_runtime.Foundation.{Foundation}
use qiven_runtime.Journal.{
  ok, >>=-inv, ok-injective, guard, constraint_failed, TxState, DispatchRow, BarrierRow, Tables,
}
use qiven_runtime.Journal.Audit.{write_meta, key_quarantine}
use qiven_runtime.Journal.Control.{SessionOpen, TransactionOpen, with_session, with_transaction}
use qiven_runtime.Journal.Decisions.{
  DecisionBind, GenerationAdvance, with_decision, with_consumed, with_generation,
}
use qiven_runtime.Journal.Effects.{
  LeaseRequest, DispatchPrepared, OutcomeRecord, with_lease, with_dispatch, with_outcome,
}
use qiven_runtime.Journal.Barriers.{with_closed}
use qiven_runtime.Journal.Recovery.{restarted}
use qiven_runtime.Journal.Resolution.{
  PendingDispatch, with_resolution, reconcile_barrier, reconcile_scope,
}
use qiven_runtime.Journal.Writes.{
  IsRecorded, session_rows-inv, transaction_rows-inv, evidence_rows-inv, bind_rows-inv,
  consume_rows-inv, advance_rows-inv, lease_rows-inv, dispatch_rows-inv, outcome_rows-inv,
  barrier_rows-inv, closing_rows-inv, append_rows-inv,
}
use qiven_runtime.Journal.Frames.{
  IsFramed, IsRecorded-IsFramed, audit_rows-IsFramed, apply_resolution-inv,
}
use qiven_runtime.Journal.Runs.{IsKept, AnyKind}
use qiven_runtime.Journal.Walks.{IsKeptByRecovery, recovery_rows-kept}

pub record IsKeptByChanges (f : Foundation) (P : Tables → Type 0) : Type 0 where
  pub framed : (x t' : Tables) → IsFramed x t' → P x → P t'
  pub session : (s : SessionOpen) (now : ℕ) (t : Tables) → P t → P (with_session f s now t)
  pub transaction :
      (epoch : ℕ) (o : TransactionOpen) (t : Tables) → P t → P (with_transaction f epoch o t)
  pub decision :
      (d : DecisionBind) (t : Tables) → has d.id t.decisions ≡ false → P t → P (with_decision f d t)
  pub consumption : (id : Bytes) (now : ℕ) (t : Tables) → P t → P (with_consumed f id now t)
  pub generation :
      (g : GenerationAdvance) (now : ℕ) (t : Tables)
      → has g.id t.generations ≡ false
      → P t
      → P (with_generation f g now t)
  pub lease :
      (epoch : ℕ) (q : LeaseRequest) (now : ℕ) (t : Tables) → P t → P (with_lease f epoch q now t)
  pub dispatch :
      (d : DispatchPrepared) (now : ℕ) (t : Tables)
      → has d.id t.dispatches ≡ false
      → P t
      → P (with_dispatch f d now t)
  pub outcome :
      (o : OutcomeRecord) (status : TxState) (now : ℕ) (t : Tables) (row : DispatchRow)
      → lookup o.dispatch t.dispatches ≡ some row
      → has o.dispatch t.outcomes ≡ false
      → P t
      → P (with_outcome f o status row.transaction now t)
  pub barrier :
      (scope : Bytes) (row : BarrierRow) (t : Tables)
      → has scope t.barriers ≡ false
      → P t
      → P (record t { barriers = (scope, row) ∷ t.barriers })
  pub closed : (scope : Bytes) (now : ℕ) (t : Tables) → P t → P (with_closed f scope now t)
  pub resolution :
      (d : PendingDispatch) (status : TxState) (ref_observed : Option Bytes) (now : ℕ) (t : Tables)
      → has d.id t.outcomes ≡ false
      → P t
      → P (with_resolution f d status ref_observed now t)
  pub restart : (epoch : ℕ) (t : Tables) → P t → P (restarted f epoch t)

module _ (f : Foundation) (P : Tables → Type 0) (kept : IsKeptByChanges f P) where
  settings_IsFramed : (t : Tables) (key value : Bytes) → IsFramed t (write_meta key value t)
  settings_IsFramed t key value = record {
    generations = refl;
    sessions = refl;
    transactions = refl;
    decisions = refl;
    leases = refl;
    dispatches = refl;
    outcomes = refl;
    barriers = refl;
  }

  flagged_keeps : (t : Tables) (value : Bytes) → P t → P (write_meta key_quarantine value t)
  flagged_keeps t value p = kept.framed t _ (settings_IsFramed t key_quarantine value) p

  recorded_keeps : (x t' : Tables) → IsRecorded f x t' → P x → P t'
  recorded_keeps x t' r p = kept.framed x t' (IsRecorded-IsFramed f x t' r) p

  barred_keeps :
      (d : PendingDispatch) (now : ℕ) (t t' : Tables)
      → reconcile_barrier f d now t ≡ ok t'
      → P t
      → P t'
  unfolding reconcile_barrier
  barred_keeps d now t t' h p =
      let (_, g, h1) =
        >>=-inv (guard (not (has (reconcile_scope d) t.barriers)) constraint_failed) _ h in
      let fresh : has (reconcile_scope d) t.barriers ≡ false = ground (arith, g) in
      subst P (ok-injective h1) (kept.barrier (reconcile_scope d) _ t fresh p)

  IsKept-recovery : IsKeptByRecovery f P
  IsKept-recovery = record {
    restarted-keeps = kept.restart;
    apply_resolution-keeps = λ d status ref_observed now t t' h p.
        let (fresh, frame) = apply_resolution-inv f d status ref_observed now t t' h in
        kept.framed _ t' frame (kept.resolution d status ref_observed now t fresh p);
    barriers-keep = barred_keeps;
    IsRecorded-keeps = recorded_keeps;
    meta-keeps = flagged_keeps;
  }

  pub IsKept-changes : IsKept f AnyKind P
  IsKept-changes = record {
    session_rows-keeps = λ s now t a t' h p.
        recorded_keeps _ t' (session_rows-inv f now t t' s a h) (kept.session s now t p);
    transaction_rows-keeps = λ epoch o now t a t' h p.
        recorded_keeps _ t' (transaction_rows-inv f now t t' epoch o a h).1
          (kept.transaction epoch o t p);
    evidence_rows-keeps = λ tx evidence now t a t' h p.
        recorded_keeps t t' (evidence_rows-inv f now t t' tx evidence a h) p;
    bind_rows-keeps = λ d now t a t' h p.
        let facts = bind_rows-inv f now t t' d a h in
        recorded_keeps _ t' facts.5 (kept.decision d t facts.3 p);
    consume_rows-keeps = λ id now t a t' h p.
        recorded_keeps _ t' (consume_rows-inv f now t t' id a h).4 (kept.consumption id now t p);
    advance_rows-keeps = λ g now t a t' h p.
        let facts = advance_rows-inv f now t t' g a h in
        recorded_keeps _ t' facts.1 (kept.generation g now t facts.0 p);
    lease_rows-keeps = λ epoch q now t a t' h p.
        recorded_keeps _ t' (lease_rows-inv f now t t' epoch q a h).2 (kept.lease epoch q now t p);
    dispatch_rows-keeps = λ d now t a t' h p.
        let facts = dispatch_rows-inv f now t t' d a h in
        recorded_keeps _ t' facts.4 (kept.dispatch d now t facts.3 p);
    outcome_rows-keeps = λ o status now t a t' h p.
        let facts = outcome_rows-inv f now t t' o status a h in
        recorded_keeps _ t' facts.4 (kept.outcome o status now t facts.0 facts.1 facts.3 p);
    barrier_rows-keeps = λ b now t a t' h p.
        let facts = barrier_rows-inv f now t t' b a h in
        recorded_keeps _ t' facts.1 (kept.barrier b.scope _ t facts.0 p);
    closing_rows-keeps = λ scope evidence now t a t' h p.
        recorded_keeps _ t' (closing_rows-inv f now t t' scope evidence a h).1
          (kept.closed scope now t p);
    audit_rows-keeps = λ kind payload now named t a t' h p.
        kept.framed t t' (audit_rows-IsFramed f kind payload now t t' a h) p;
    append_rows-keeps =
        λ r now t a t' h p. recorded_keeps t t' (append_rows-inv f now t t' r a h) p;
    recovery_rows-keeps = recovery_rows-kept f P IsKept-recovery;
    flag-keeps = flagged_keeps;
  }
