-- ===== src/Journal/Walks.antt =====
-- What a recovery of journal/runtime_journal.cpp keeps: what each of its parts keeps.
use qiven_runtime.Base.{
  ℕ, ◌≡◌, subst, arith, Bool, true, false, Option, none, List, [], ◌∷◌, Bytes, count_if, length,
}
use qiven_runtime.Base.Text.{codes}
use qiven_runtime.Foundation.{Foundation}
use qiven_runtime.Journal.{Result, ok, >>=-inv, found, TxState, failed, indeterminate, Tables}
use qiven_runtime.Journal.Writes.{IsRecorded}
use qiven_runtime.Journal.Audit.{write_meta, key_quarantine, put_bytes}
use qiven_runtime.Journal.Effects.{outcome_status}
use qiven_runtime.Journal.Recovery.{
  restarted, recovery_audited, recovery_rows, closing, is_stale_row,
}
use qiven_runtime.Journal.Resolution.{
  PendingDispatch, DispatchResolution, Progress, apply_resolution, reconcile_barrier, resolve,
  resolve_all, enter_quarantine, reconstructed, not_performed, indeterminate_conflict, quarantined,
  clean, RecoveryClassification, pending_of, no_progress, reconstructed_text, resolve_as, go_on,
  well_sized,
}

-- A property that each part of a recovery keeps.
pub record IsKeptByRecovery (f : Foundation) (P : Tables → Type 0) : Type 0 where
  pub restarted-keeps : (epoch : ℕ) (t : Tables) → P t → P (restarted f epoch t)
  pub apply_resolution-keeps :
      (d : PendingDispatch) (status : TxState) (ref_observed : Option Bytes) (now : ℕ)
      (t t' : Tables)
      → apply_resolution f d status ref_observed now t ≡ ok t'
      → P t
      → P t'
  pub barriers-keep :
      (d : PendingDispatch) (now : ℕ) (t t' : Tables)
      → reconcile_barrier f d now t ≡ ok t'
      → P t
      → P t'
  pub IsRecorded-keeps : (t t' : Tables) → IsRecorded f t t' → P t → P t'
  pub meta-keeps : (t : Tables) (value : Bytes) → P t → P (write_meta key_quarantine value t)

module _ (f : Foundation) (P : Tables → Type 0) (kept : IsKeptByRecovery f P) where
  enter_quarantine-keeps : (now : ℕ) (t t' : Tables) → enter_quarantine f now t ≡ ok t' → P t → P t'
  unfolding enter_quarantine
  enter_quarantine-keeps now t t' h p =
      kept.IsRecorded-keeps (write_meta key_quarantine (codes "1") t) t'
        (record {
          kind = codes "quarantine_entered";
          payload =
              f.append_le_u64 (put_bytes f f.new_builder (codes "recovery-inspector-quarantine"))
                now;
          now = now;
          named = omega arith;
          written = h;
        })
        (kept.meta-keeps t (codes "1") p)

  resolve_as-keeps :
      (c : RecoveryClassification) (d : PendingDispatch) (r : DispatchResolution) (now : ℕ)
      (p p' : Progress) (t t' : Tables)
      → resolve_as f c d r now p t ≡ ok (p', t')
      → P t
      → P t'
  unfolding resolve_as
  resolve_as-keeps reconstructed d r now p p' t t' h holds =
      let (status, _, h1) = >>=-inv (found (outcome_status (reconstructed_text r)) _) _ h in
      let (made, e, h2) = >>=-inv (apply_resolution f d status r.ref_observed now t) _ h1 in
      let same : made ≡ t' = cc in
      subst P same (kept.apply_resolution-keeps d status r.ref_observed now t made e holds)
  resolve_as-keeps not_performed d r now p p' t t' h holds =
      let (made, e, h2) = >>=-inv (apply_resolution f d failed none now t) _ h in
      let same : made ≡ t' = cc in
      subst P same (kept.apply_resolution-keeps d failed none now t made e holds)
  resolve_as-keeps indeterminate_conflict d r now p p' t t' h holds =
      let (made, e, h1) = >>=-inv (apply_resolution f d indeterminate none now t) _ h in
      let (barred, e2, h2) = >>=-inv (reconcile_barrier f d now made) _ h1 in
      let same : barred ≡ t' = cc in
      subst P same (
        kept.barriers-keep d now made barred e2
          (kept.apply_resolution-keeps d indeterminate none now t made e holds))
  resolve_as-keeps quarantined d r now p p' t t' h holds =
      let (made, e, h1) = >>=-inv (enter_quarantine f now t) _ h in
      let same : made ≡ t' = cc in subst P same (enter_quarantine-keeps now t made e holds)
  resolve_as-keeps clean d r now p p' t t' h holds = absurd (let no_way : ⊥ = cc in no_way)

  go_on-keeps :
      (halted : Bool) (p p' : Progress) (t t' : Tables)
      (next : Progress × Tables → Result (Progress × Tables))
      → ((h : next (p, t) ≡ ok (p', t')) → P t → P t')
      → go_on f (p, t) next halted ≡ ok (p', t')
      → P t
      → P t'
  go_on-keeps true p p' t t' next keeps h holds = let same : t ≡ t' = cc in subst P same holds
  go_on-keeps false p p' t t' next keeps h holds = keeps h holds

  resolve_all-keeps :
      (inspect : PendingDispatch → DispatchResolution) (ds : List PendingDispatch) (now : ℕ)
      (p p' : Progress) (t t' : Tables)
      → resolve_all f inspect ds now p t ≡ ok (p', t')
      → P t
      → P t'
  unfolding resolve_all
  resolve_all-keeps inspect [] now p p' t t' h holds = let same : t ≡ t' = cc in subst P same holds
  resolve_all-keeps inspect (d ∷ rest) now p p' t t' h holds =
      let ((p1, t1), e, h1) = >>=-inv (resolve f d (inspect d) now p t) _ h in
      go_on-keeps p1.halted p1 p' t1 t' (λ x. resolve_all f inspect rest now x.0 x.1)
        (λ e'. resolve_all-keeps inspect rest now p1 p' t1 t' e') h1
        (resolve_as-keeps (inspect d).classification d (inspect d) now p p1 t t1 e holds)

  closing-keeps :
      (halted : Bool) (epoch stale unresolved now : ℕ) (p : Progress) (t t' : Tables)
      → closing f halted epoch stale unresolved now p t ≡ ok t'
      → P t
      → P t'
  unfolding recovery_audited
  closing-keeps true epoch stale unresolved now p t t' h holds =
      let same : t ≡ t' = cc in subst P same holds
  closing-keeps false epoch stale unresolved now p t t' h holds =
      kept.IsRecorded-keeps t t'
        (record {
          kind = codes "recovery_completed";
          payload = _;
          now = now;
          named = omega arith;
          written = h;
        })
        holds

  pub recovery_rows-kept :
      (inspect : PendingDispatch → DispatchResolution) (epoch now : ℕ) (t : Tables)
      (a : ℕ × Progress) (t' : Tables)
      → recovery_rows f inspect epoch now t ≡ ok (a, t')
      → P t
      → P t'
  unfolding recovery_rows
  recovery_rows-kept inspect epoch now t a t' h holds =
      let t1 = restarted f epoch t in
      let (_, _, h1) = >>=-inv (well_sized (pending_of t1.outcomes t1.dispatches)) _ h in
      let ((p, t2), e, h2) =
        >>=-inv (resolve_all f inspect (pending_of t1.outcomes t1.dispatches) now no_progress t1) _
          h1 in
      let (t3, e3, h3) =
        >>=-inv
          (closing f p.halted epoch (count_if is_stale_row t1.decisions)
            (length (pending_of t1.outcomes t1.dispatches)) now p t2)
          _ h2 in
      let same : t3 ≡ t' = cc in
      subst P same (
        closing-keeps p.halted epoch _ _ now p t2 t3 e3 (
          resolve_all-keeps inspect _ now no_progress p t1 t2 e
            (kept.restarted-keeps epoch t holds)))
