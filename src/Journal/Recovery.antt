-- ===== src/Journal/Recovery.antt =====
-- `RuntimeJournal::recover_at` of journal/runtime_journal.cpp. The inspector is a function; the
-- engine's answers are inputs.
use qiven_runtime.Base.{
  ℕ, ◌+◌, ◌%◌, ◌^◌, Bool, true, false, ◌&&◌, ◌||◌, List, [], ◌∷◌, Bytes, length, ltb, nat_beq,
  bytes_eq, count_if, if◌then◌else◌,
}
use qiven_runtime.Base.Text.{codes, to_string}
use qiven_runtime.Foundation.{Foundation}
use qiven_runtime.Journal.{
  Result, ok, err, ◌>>=◌, ◌>>◌, stale, TransactionRow, DecisionRow, Tables, RuntimeJournal, Engine,
}
use qiven_runtime.Journal.Audit.{
  write_meta, key_quarantine, check_clock, put_bytes, recorded, verify_audit_chain,
}
use qiven_runtime.Journal.Command.{txn, unless_failed}
use qiven_runtime.Journal.Decisions.{mark_stale}
use qiven_runtime.Journal.Resolution.{
  RecoveryClassification, PendingDispatch, DispatchResolution, Progress, no_progress, pending_of,
  well_sized, resolve_all, clean, reconstructed, not_performed, indeterminate_conflict, quarantined,
}

pub record JournalRecoveryReport : Type 0 where
  pub classification : RecoveryClassification
  pub unresolved_transactions : ℕ
  pub barriers_opened : ℕ
  pub audit_chain_verified : Bool

abbrev pub key_boot_epoch : Bytes
key_boot_epoch = codes "boot_epoch"

-- `id IN (SELECT id FROM transactions WHERE boot_epoch < …)`
unfoldable pub is_from_before : ℕ → List (ℕ × TransactionRow) → ℕ → Bool
is_from_before epoch [] id = false
is_from_before epoch ((k, r) ∷ rows) id =
    (nat_beq k id && ltb r.boot_epoch epoch) || is_from_before epoch rows id

abbrev pub is_stale_row : Bytes × DecisionRow → Bool
is_stale_row (_, r) = elim (r.state) [ stale ↦ true | _ ↦ false ]

abbrev pub summary_of : Progress → Bytes
summary_of p =
    if p.any_conflict
    then codes "indeterminate"
    else if p.any_reconstructed
    then codes "reconstructed"
    else if p.any_not_performed
    then codes "not_performed"
    else codes "clean"

unfoldable pub classification_of : Progress → RecoveryClassification
classification_of p =
    if p.halted
    then quarantined
    else if p.any_conflict
    then indeterminate_conflict
    else if p.any_reconstructed
    then reconstructed
    else if p.any_not_performed
    then not_performed
    else clean

module _ (f : Foundation) where
  -- Steps 4 and 5: the new epoch, and the decisions of older ones.
  unfoldable pub restarted : ℕ → Tables → Tables
  unfolding is_from_before mark_stale
  restarted epoch t = record (write_meta key_boot_epoch (to_string epoch) t) {
    decisions = mark_stale (λ r. is_from_before epoch t.transactions r.transaction) t.decisions;
  }

  -- Step 8
  unfoldable pub recovery_audited : ℕ → ℕ → ℕ → ℕ → Progress → Tables → Result Tables
  unfolding recorded
  recovery_audited epoch stale_marked unresolved now p t =
      recorded f (codes "recovery_completed")
        (put_bytes f
          (f.append_le_u64
            (f.append_le_u64 (f.append_le_u64 (f.append_le_u64 f.new_builder epoch) stale_marked)
              unresolved)
            p.barriers)
          (summary_of p))
        now t

  -- A quarantine has been audited already.
  abbrev pub closing : Bool → ℕ → ℕ → ℕ → ℕ → Progress → Tables → Result Tables
  closing true epoch stale_marked unresolved now p t = ok t
  closing false epoch stale_marked unresolved now p t =
      recovery_audited epoch stale_marked unresolved now p t

  -- The body of the recovery transaction: what it found pending, and how it went.
  unfoldable pub recovery_rows :
      (PendingDispatch → DispatchResolution) → ℕ → ℕ → Tables → Result ((ℕ × Progress) × Tables)
  unfolding restarted pending_of resolve_all recovery_audited
  recovery_rows inspect epoch now t = do
    let t1 = restarted epoch t
    let pendings = pending_of t1.outcomes t1.dispatches
    let unresolved = length pendings
    well_sized pendings
    (p, t2) ← resolve_all f inspect pendings now no_progress t1
    t3 ← closing p.halted epoch (count_if is_stale_row t1.decisions) unresolved now p t2
    ok ((unresolved, p), t3)

  -- `mark_quarantined`: a transaction of its own, whose failure is ignored.
  unfoldable pub mark_quarantined : Engine → Tables → Tables
  unfolding txn
  mark_quarantined e t =
      (txn {0} {A = Unit {0}} e (λ t. ok (tt, write_meta key_quarantine (codes "1") t)) t).1

  abbrev report_of : ℕ × Progress → JournalRecoveryReport
  report_of (unresolved, p) = record {
    classification = classification_of p;
    unresolved_transactions = unresolved;
    barriers_opened = p.barriers;
    audit_chain_verified = true;
  }

  abbrev has_halted : Result ((ℕ × Progress) × Tables) → Bool
  has_halted (err _) = false
  has_halted (ok ((_, p), _)) = p.halted

  abbrev pub reported : Result (ℕ × Progress) → Result JournalRecoveryReport
  reported (err e) = err e
  reported (ok found_) = ok (report_of found_)

  -- Steps 4 to 8. The epoch in memory moves once the transaction has begun, the quarantine in
  -- memory once the loop has met it, whether or not the transaction commits.
  unfoldable pub recovery_walk :
      (PendingDispatch → DispatchResolution)
      → Engine
      → ℕ
      → RuntimeJournal
      → Result JournalRecoveryReport × RuntimeJournal
  unfolding recovery_rows txn classification_of
  recovery_walk inspect e now j =
      let epoch = (j.boot_epoch + 1) % 2 ^ 64 in
      let body = recovery_rows inspect epoch now in
      let (answer, t') = txn e body j.tables in
      (
        reported answer,
        record j {
          tables = t';
          boot_epoch = if e.begins then epoch else j.boot_epoch;
          is_quarantined = (e.begins && has_halted (body j.tables)) || j.is_quarantined;
        },
      )

  -- The answer of PRAGMA quick_check comes first; only a check that could not be made counts as a
  -- failure. `flagging` takes the transaction of `mark_quarantined`.
  unfoldable pub recover_at :
      (PendingDispatch → DispatchResolution)
      → Result Bool
      → Engine
      → Engine
      → ℕ
      → RuntimeJournal
      → Result JournalRecoveryReport × RuntimeJournal
  unfolding mark_quarantined verify_audit_chain check_clock recovery_walk
  recover_at inspect quick_check flagging e now j =
      unless_failed (quick_check >>= λ _. verify_audit_chain f j.tables)
        (λ fault. (err fault, record j { tables = mark_quarantined flagging j.tables }))
        (unless_failed (check_clock now j.tables) (λ fault. (err fault, j))
          (recovery_walk inspect e now j))

  -- `RuntimeJournal::recover`
  unfoldable pub recover :
      (PendingDispatch → DispatchResolution)
      → Result Bool
      → Engine
      → Engine
      → ℕ
      → RuntimeJournal
      → JournalRecoveryReport × RuntimeJournal
  unfolding recover_at
  recover inspect quick_check flagging e now j =
      let (answer, j') = recover_at inspect quick_check flagging e now j in
      (
        elim answer [
          | ok report ↦ report
          | err _ ↦ record {
            classification = quarantined;
            unresolved_transactions = 0;
            barriers_opened = 0;
            audit_chain_verified = false;
          }
        ],
        j',
      )
