-- ===== src/Journal/Resumed.antt =====
-- What a recovery of journal/runtime_journal.cpp leaves behind.
use qiven_runtime.Base.{
  ℕ, ◌+◌, ◌%◌, ◌^◌, ◌≡◌, ◌≢◌, refl, sym, ◌∙◌, subst, ap, arith, not, ◌&&◌, ◌||◌, Bool, true, false,
  Option, none, Bytes, List, [], ◌∷◌, any, length, count_if, lookup, has, inl, inr, Bool-cases,
  bytes_eq, bytes_beq, bytes_beq_iff, bytes_beq_refl,
}
use qiven_runtime.Base.Text.{codes}
use qiven_runtime.Foundation.{Foundation}
use qiven_runtime.Journal.{
  Fault, Result, ok, err, ◌>>=◌, >>=-inv, ok-injective, guard, found, constraint_failed, TxState,
  failed, indeterminate, OutcomeRow, DispatchRow, Tables, RuntimeJournal, Engine,
}
use qiven_runtime.Journal.Audit.{verify_audit_chain, check_clock}
use qiven_runtime.Journal.Command.{txn, unless_failed, unless_failed-passed, txn-ok}
use qiven_runtime.Journal.Effects.{is_pending, close_dispatch, outcome_status}
use qiven_runtime.Journal.Recovery.{
  closing, recovery_audited, restarted, recovery_rows, recovery_walk, recover_at, classification_of,
  JournalRecoveryReport, reported, is_stale_row, mark_quarantined,
}
use qiven_runtime.Journal.Resolution.{
  PendingDispatch, DispatchResolution, Progress, RecoveryClassification, reconstructed,
  not_performed, indeterminate_conflict, quarantined, clean, pending_of, with_resolution,
  apply_resolution, reconcile_barrier, reconcile_scope, enter_quarantine, resolve, resolve_as,
  resolve_all, reconstructed_text, well_sized, no_progress,
}
use qiven_runtime.Journal.Frames.{apply_resolution-inv, recorded-IsFramed}

abbrev listed : Bytes → List PendingDispatch → Bool
listed k ds = any (λ d. bytes_beq d.id k) ds

-- Each dispatch that is under way and has no outcome is in the list.
covered : List PendingDispatch → List (Bytes × OutcomeRow) → List (Bytes × DispatchRow) → Bool
covered ds outcomes [] = true
covered ds outcomes ((k, r) ∷ rows) =
    (not (is_pending r.state) || has k outcomes || listed k ds) && covered ds outcomes rows

listed_more :
    (outcomes : List (Bytes × OutcomeRow)) (k : Bytes) (r : DispatchRow)
    (rows : List (Bytes × DispatchRow)) (j : Bytes)
    → listed j (pending_of outcomes rows) ≡ true
    → listed j (pending_of outcomes ((k, r) ∷ rows)) ≡ true
unfolding pending_of
listed_more outcomes k r rows j l = ground (arith, l)

listed_first :
    (outcomes : List (Bytes × OutcomeRow)) (k : Bytes) (r : DispatchRow)
    (rows : List (Bytes × DispatchRow))
    → is_pending r.state ≡ true
    → has k outcomes ≡ false
    → listed k (pending_of outcomes ((k, r) ∷ rows)) ≡ true
unfolding pending_of
listed_first outcomes k r rows going none_yet = ground (arith, bytes_beq_refl k)

covered-pending_of :
    (ds : List PendingDispatch) (outcomes : List (Bytes × OutcomeRow))
    (rows : List (Bytes × DispatchRow))
    → ((k : Bytes) → listed k (pending_of outcomes rows) ≡ true → listed k ds ≡ true)
    → covered ds outcomes rows ≡ true
unfolding covered pending_of
covered-pending_of ds outcomes [] h = refl
covered-pending_of ds outcomes ((k, r) ∷ rows) h =
    let inner =
      covered-pending_of ds outcomes rows (λ j l. h j (listed_more outcomes k r rows j l)) in
    ground (arith, inner, h k, listed_first outcomes k r rows)

covered-resolved :
    (d : PendingDispatch) (rest : List PendingDispatch) (row : OutcomeRow) (status : TxState)
    (now : ℕ) (outcomes : List (Bytes × OutcomeRow)) (rows : List (Bytes × DispatchRow))
    → covered (d ∷ rest) outcomes rows ≡ true
    → covered rest ((d.id, row) ∷ outcomes) (close_dispatch d.id is_pending status now rows) ≡ true
unfolding covered close_dispatch lookup
covered-resolved d rest row status now outcomes [] h = refl
covered-resolved d rest row status now outcomes ((k, r) ∷ rows) h = ground (
  arith,
  covered-resolved d rest row status now outcomes rows,
  bytes_beq_iff d.id k,
  bytes_beq_iff k d.id,
)

pending_of-covered :
    (outcomes : List (Bytes × OutcomeRow)) (rows : List (Bytes × DispatchRow))
    → covered [] outcomes rows ≡ true
    → pending_of outcomes rows ≡ []
unfolding covered pending_of
pending_of-covered outcomes [] h = refl
pending_of-covered outcomes ((k, r) ∷ rows) h = ground (arith, pending_of-covered outcomes rows)

module _ (f : Foundation) where
  abbrev IsCovered : List PendingDispatch → Tables → Type 0
  IsCovered ds t = covered ds t.outcomes t.dispatches ≡ true

  carried-IsCovered :
      (ds : List PendingDispatch) (x t' : Tables)
      → t'.outcomes ≡ x.outcomes
      → t'.dispatches ≡ x.dispatches
      → IsCovered ds x
      → IsCovered ds t'
  carried-IsCovered ds x t' o d h = rw (o, d) h

  applied-IsCovered :
      (d : PendingDispatch) (rest : List PendingDispatch) (status : TxState)
      (ref_observed : Option Bytes) (now : ℕ) (t t' : Tables)
      → apply_resolution f d status ref_observed now t ≡ ok t'
      → IsCovered (d ∷ rest) t
      → IsCovered rest t'
  applied-IsCovered d rest status ref_observed now t t' h c =
      let (_, frame) = apply_resolution-inv f d status ref_observed now t t' h in
      carried-IsCovered rest (with_resolution f d status ref_observed now t) t' frame.outcomes
        frame.dispatches (covered-resolved d rest _ status now t.outcomes t.dispatches c)

  barred-IsCovered :
      (d : PendingDispatch) (rest : List PendingDispatch) (now : ℕ) (t t' : Tables)
      → reconcile_barrier f d now t ≡ ok t'
      → IsCovered rest t
      → IsCovered rest t'
  unfolding reconcile_barrier
  barred-IsCovered d rest now t t' h c =
      let (_, g, h1) =
        >>=-inv (guard (not (has (reconcile_scope d) t.barriers)) constraint_failed) _ h in
      subst (IsCovered rest) (ok-injective h1) c

  -- A round that does not halt has dealt with its dispatch.
  resolve_as-IsCovered :
      (c : RecoveryClassification) (d : PendingDispatch) (rest : List PendingDispatch)
      (r : DispatchResolution) (now : ℕ) (p p' : Progress) (t t' : Tables)
      → resolve_as f c d r now p t ≡ ok (p', t')
      → p'.halted ≡ false
      → IsCovered (d ∷ rest) t
      → IsCovered rest t'
  unfolding resolve_as
  resolve_as-IsCovered reconstructed d rest r now p p' t t' h on c =
      let (status, _, h1) = >>=-inv (found (outcome_status (reconstructed_text r)) _) _ h in
      let (made, e, h2) = >>=-inv (apply_resolution f d status r.ref_observed now t) _ h1 in
      let same : made ≡ t' = cc in
      subst (IsCovered rest) same (applied-IsCovered d rest status r.ref_observed now t made e c)
  resolve_as-IsCovered not_performed d rest r now p p' t t' h on c =
      let (made, e, h2) = >>=-inv (apply_resolution f d failed none now t) _ h in
      let same : made ≡ t' = cc in
      subst (IsCovered rest) same (applied-IsCovered d rest failed none now t made e c)
  resolve_as-IsCovered indeterminate_conflict d rest r now p p' t t' h on c =
      let (made, e, h1) = >>=-inv (apply_resolution f d indeterminate none now t) _ h in
      let (barred, e2, h2) = >>=-inv (reconcile_barrier f d now made) _ h1 in
      let same : barred ≡ t' = cc in
      subst (IsCovered rest) same (
        barred-IsCovered d rest now made barred e2
          (applied-IsCovered d rest indeterminate none now t made e c))
  resolve_as-IsCovered quarantined d rest r now p p' t t' h on c =
      let (made, e, h1) = >>=-inv (enter_quarantine f now t) _ h in
      absurd (let no_way : ⊥ = cc in no_way)
  resolve_as-IsCovered clean d rest r now p p' t t' h on c = absurd (let no_way : ⊥ = cc in no_way)

  resolve_all-IsCovered :
      (inspect : PendingDispatch → DispatchResolution) (ds : List PendingDispatch) (now : ℕ)
      (p p' : Progress) (t t' : Tables)
      → resolve_all f inspect ds now p t ≡ ok (p', t')
      → p'.halted ≡ false
      → IsCovered ds t
      → IsCovered [] t'
  unfolding resolve_all
  resolve_all-IsCovered inspect [] now p p' t t' h on c =
      let same : t ≡ t' = cc in subst (IsCovered []) same c
  resolve_all-IsCovered inspect (d ∷ rest) now p p' t t' h on c =
      let ((p1, t1), e, h1) = >>=-inv (resolve f d (inspect d) now p t) _ h in
      elim (Bool-cases p1.halted) [
        | inl stopped ↦
            let same : p1 ≡ p' = ground (arith, stopped, h1) in
            absurd (let no_way : ⊥ = cc in no_way)
        | inr running ↦
            resolve_all-IsCovered inspect rest now p1 p' t1 t' (ground (arith, running, h1)) on (
              resolve_as-IsCovered (inspect d).classification d rest (inspect d) now p p1 t t1 e
                running c)
      ]

  closing-same :
      (halted : Bool) (epoch stale unresolved now : ℕ) (p : Progress) (t t' : Tables)
      → closing f halted epoch stale unresolved now p t ≡ ok t'
      → (t'.outcomes ≡ t.outcomes) × (t'.dispatches ≡ t.dispatches)
  unfolding recovery_audited
  closing-same true epoch stale unresolved now p t t' h =
      let same : t ≡ t' = cc in (ap (λ x. x.outcomes) (sym same), ap (λ x. x.dispatches) (sym same))
  closing-same false epoch stale unresolved now p t t' h =
      let frame = recorded-IsFramed f (codes "recovery_completed") _ now t t' h in
      (frame.outcomes, frame.dispatches)

  recovery_rows-covered :
      (inspect : PendingDispatch → DispatchResolution) (epoch now : ℕ) (t : Tables) (u : ℕ)
      (p : Progress) (t' : Tables)
      → recovery_rows f inspect epoch now t ≡ ok ((u, p), t')
      → p.halted ≡ false
      → pending_of t'.outcomes t'.dispatches ≡ []
  unfolding recovery_rows
  recovery_rows-covered inspect epoch now t u p' t' h on =
      let t1 = restarted f epoch t in
      let ds = pending_of t1.outcomes t1.dispatches in
      let stale = count_if is_stale_row t1.decisions in
      let (_, _, h1) = >>=-inv (well_sized ds) _ h in
      let ((p, t2), e, h2) = >>=-inv (resolve_all f inspect ds now no_progress t1) _ h1 in
      let (t3, e3, h3) = >>=-inv (closing f p.halted epoch stale (length ds) now p t2) _ h2 in
      let same_p : p ≡ p' = cc in
      let same_t : t3 ≡ t' = cc in
      let all_ = covered-pending_of ds t1.outcomes t1.dispatches (λ k l. l) in
      let still : p.halted ≡ false = cc in
      let rest = resolve_all-IsCovered inspect ds now no_progress p t1 t2 e still all_ in
      let (o, d) = closing-same p.halted epoch stale (length ds) now p t2 t3 e3 in
      subst (λ x. pending_of x.outcomes x.dispatches ≡ []) same_t
        (pending_of-covered t3.outcomes t3.dispatches (carried-IsCovered [] t2 t3 o d rest))

  reported-inv :
      (r : Result (ℕ × Progress)) (report : JournalRecoveryReport)
      → reported f r ≡ ok report
      → (u : ℕ) × (p : Progress) × (r ≡ ok (u, p)) × (report.classification ≡ classification_of p)
  reported-inv (ok (u, p)) report h =
      (u, p, refl, ap (λ x. x.classification) (sym (ok-injective h)))
  reported-inv (err e) report h = absurd (let no_way : ⊥ = cc in no_way)

  running_on : (p : Progress) → classification_of p ≢ quarantined → p.halted ≡ false
  unfolding classification_of
  running_on p h = ground (arith, h)

  walk-resolved :
      (inspect : PendingDispatch → DispatchResolution) (e : Engine) (now : ℕ) (j : RuntimeJournal)
      (report : JournalRecoveryReport)
      → (recovery_walk f inspect e now j).0 ≡ ok report
      → report.classification ≢ quarantined
      → let t' = (recovery_walk f inspect e now j).1.tables in
        pending_of t'.outcomes t'.dispatches ≡ []
  unfolding recovery_walk
  walk-resolved inspect e now j report h calm =
      let epoch = (j.boot_epoch + 1) % 2 ^ 64 in
      let body = recovery_rows f inspect epoch now in
      let (u, p, got, same) = reported-inv (txn e body j.tables).0 report h in
      let done_ = txn-ok e body j.tables (u, p) got in
      recovery_rows-covered inspect epoch now j.tables u p _ done_
        (running_on p (λ q. calm (same ∙ q)))

  -- A recovery that succeeds without asking for quarantine leaves no dispatch under way without an
  -- outcome, whatever the inspector says.
  pub recover_at-resolved :
      (inspect : PendingDispatch → DispatchResolution) (check : Result Bool) (flagging e : Engine)
      (now : ℕ) (j : RuntimeJournal) (report : JournalRecoveryReport)
      → (recover_at f inspect check flagging e now j).0 ≡ ok report
      → report.classification ≢ quarantined
      → let t' = (recover_at f inspect check flagging e now j).1.tables in
        pending_of t'.outcomes t'.dispatches ≡ []
  unfolding recover_at
  recover_at-resolved inspect check flagging e now j report h calm =
      let walk = recovery_walk f inspect e now j in
      let timed = unless_failed (check_clock now j.tables) (λ fault. (err fault, j)) walk in
      let broken : Fault → Result JournalRecoveryReport × RuntimeJournal =
        λ fault. (err fault, record j { tables = mark_quarantined f flagging j.tables }) in
      let step1 : recover_at f inspect check flagging e now j ≡ timed =
        unless_failed-passed (check >>= λ _. verify_audit_chain f j.tables) broken timed report
          (λ _. refl) h in
      let step2 : timed ≡ walk =
        unless_failed-passed (check_clock now j.tables) (λ fault. (err fault, j)) walk report
          (λ _. refl) (sym (ap (λ x. x.0) step1) ∙ h) in
      let all_ = step1 ∙ step2 in
      subst
        (λ (x : Result JournalRecoveryReport × RuntimeJournal).
          pending_of x.1.tables.outcomes x.1.tables.dispatches ≡ [])
        (sym all_) (walk-resolved inspect e now j report (sym (ap (λ x. x.0) all_) ∙ h) calm)
