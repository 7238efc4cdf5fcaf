-- ===== src/Journal/Resolution.antt =====
-- The pending dispatches of `RuntimeJournal::recover_at` (journal/runtime_journal.cpp, step 5) and
-- how the inspector of journal/recovery.hpp resolves each.
use qiven_runtime.Base.{
  ℕ, ◌+◌, Bool, true, false, not, ◌&&◌, Option, none, some, List, [], ◌∷◌, ◌++◌, Bytes, length,
  nat_beq, bytes_eq, has, if◌then◌else◌,
}
use qiven_runtime.Base.Text.{codes}
use qiven_runtime.Foundation.{Foundation}
use qiven_runtime.Journal.{
  Result, ok, err, ◌>>=◌, ◌>>◌, guard, found, err_open, err_constraint, constraint_failed, TxState,
  state_text, failed, indeterminate, DispatchRow, OutcomeRow, BarrierRow, Tables,
}
use qiven_runtime.Journal.Text.{to_hex}
use qiven_runtime.Journal.Audit.{write_meta, key_quarantine, put_bytes, append_audit_row, recorded}
use qiven_runtime.Journal.Control.{advance_transaction}
use qiven_runtime.Journal.Effects.{outcome_status, is_pending, close_dispatch}

pub data RecoveryClassification : Type 0 where
  clean reconstructed not_performed : RecoveryClassification
  indeterminate_conflict quarantined : RecoveryClassification

pub record PendingDispatch : Type 0 where
  pub id : Bytes
  pub transaction : ℕ
  pub plan_digest : Bytes
  pub state : TxState

pub record DispatchResolution : Type 0 where
  pub classification : RecoveryClassification
  pub reconstructed_status : Option Bytes
  pub ref_observed : Option Bytes

-- `FailClosedInspector::classify`
unfoldable pub fail_closed : PendingDispatch → DispatchResolution
fail_closed d = record {
  classification = indeterminate_conflict;
  reconstructed_status = none;
  ref_observed = none;
}

-- What the loop has counted; `halted` is that the inspector asked for quarantine.
pub record Progress : Type 0 where
  pub barriers : ℕ
  pub any_conflict : Bool
  pub any_reconstructed : Bool
  pub any_not_performed : Bool
  pub halted : Bool

abbrev pub no_progress : Progress
no_progress = record {
  barriers = 0;
  any_conflict = false;
  any_reconstructed = false;
  any_not_performed = false;
  halted = false;
}

-- The dispatches that are under way and have no outcome.
unfoldable pub pending_of :
    List (Bytes × OutcomeRow) → List (Bytes × DispatchRow) → List PendingDispatch
pending_of outcomes [] = []
pending_of outcomes ((k, r) ∷ rows) =
    let rest = pending_of outcomes rows in
    let row : PendingDispatch = record {
      id = k;
      transaction = r.transaction;
      plan_digest = r.plan_digest;
      state = r.state;
    } in
    if is_pending r.state && not (has k outcomes) then row ∷ rest else rest

-- The sizes of the blobs.
abbrev pub well_sized : List PendingDispatch → Result (Unit {0})
well_sized [] = ok tt
well_sized (d ∷ rest) =
    guard (nat_beq (length d.id) 16) (err_open (codes "journal-dispatch-id-corrupt"))
    >> guard (nat_beq (length d.plan_digest) 32) (err_open (codes "journal-plan-digest-corrupt"))
    >> well_sized rest

abbrev pub reconstructed_text : DispatchResolution → Bytes
reconstructed_text r = elim (r.reconstructed_status) [ none ↦ codes "succeeded" | some text ↦ text ]

unfoldable pub reconcile_scope : PendingDispatch → Bytes
unfolding to_hex
reconcile_scope d = codes "journal.reconcile." ++ to_hex d.id

module _ (f : Foundation) where
  abbrev pub resolution_payload : PendingDispatch → TxState → ℕ → f.Builder
  resolution_payload d status now =
      f.append_le_u64 (put_bytes f (f.append f.new_builder d.id) (state_text status)) now

  abbrev pub with_resolution : PendingDispatch → TxState → Option Bytes → ℕ → Tables → Tables
  with_resolution d status ref_observed now t =
      let row : OutcomeRow = record {
        status = status;
        ref_observed = ref_observed;
        validator_digest = none;
        observed_ms = now;
      } in
      record t {
        outcomes = (d.id, row) ∷ t.outcomes;
        dispatches = close_dispatch d.id is_pending status now t.dispatches;
        transactions = advance_transaction d.transaction is_pending status t.transactions;
      }

  unfoldable pub apply_resolution :
      PendingDispatch → TxState → Option Bytes → ℕ → Tables → Result Tables
  unfolding close_dispatch advance_transaction append_audit_row
  apply_resolution d status ref_observed now t = do
    guard (not (has d.id t.outcomes)) constraint_failed
    (_, t') ←
        append_audit_row f (codes "outcome_observed") (f.contents (resolution_payload d status now))
          (with_resolution d status ref_observed now t)
    ok t'

  -- The barrier over a dispatch that nobody can decide.
  unfoldable pub reconcile_barrier : PendingDispatch → ℕ → Tables → Result Tables
  unfolding reconcile_scope
  reconcile_barrier d now t = do
    let scope = reconcile_scope d
    guard (not (has scope t.barriers)) constraint_failed
    let row : BarrierRow = record {
      reason = codes "reconciliation-unknown";
      opened_ms = now;
      closed_ms = none;
      evidence = codes "inspector=fail-closed";
    }
    ok (record t { barriers = (scope, row) ∷ t.barriers })

  unfoldable pub enter_quarantine : ℕ → Tables → Result Tables
  unfolding recorded
  enter_quarantine now t =
      recorded f (codes "quarantine_entered")
        (f.append_le_u64 (put_bytes f f.new_builder (codes "recovery-inspector-quarantine")) now)
        now (write_meta key_quarantine (codes "1") t)

  -- One round of the loop, by the inspector's classification.
  unfoldable pub resolve_as :
      RecoveryClassification
      → PendingDispatch
      → DispatchResolution
      → ℕ
      → Progress
      → Tables
      → Result (Progress × Tables)
  unfolding apply_resolution reconcile_barrier enter_quarantine outcome_status
  resolve_as reconstructed d r now p t = do
    status ←
        found (outcome_status (reconstructed_text r))
          (err_constraint (codes "inspector-reconstructed-status-invalid"))
    t' ← apply_resolution d status r.ref_observed now t
    ok (record p { any_reconstructed = true }, t')
  resolve_as not_performed d r now p t = do
    t' ← apply_resolution d failed none now t
    ok (record p { any_not_performed = true }, t')
  resolve_as indeterminate_conflict d r now p t = do
    t' ← apply_resolution d indeterminate none now t
    t'' ← reconcile_barrier d now t'
    ok (record p { any_conflict = true; barriers = p.barriers + 1 }, t'')
  resolve_as quarantined d r now p t = do
    t' ← enter_quarantine now t
    ok (record p { halted = true }, t')
  resolve_as clean d r now p t = err (err_constraint (codes "inspector-clean-for-pending-dispatch"))

  abbrev pub resolve :
      PendingDispatch → DispatchResolution → ℕ → Progress → Tables → Result (Progress × Tables)
  resolve d r now p t = resolve_as r.classification d r now p t

  abbrev pub go_on :
      Progress × Tables
      → (Progress × Tables → Result (Progress × Tables))
      → Bool
      → Result (Progress × Tables)
  go_on at next true = ok at
  go_on at next false = next at

  -- The loop, which a quarantine leaves.
  unfoldable pub resolve_all :
      (PendingDispatch → DispatchResolution)
      → List PendingDispatch
      → ℕ
      → Progress
      → Tables
      → Result (Progress × Tables)
  unfolding resolve_as
  resolve_all inspect [] now p t = ok (p, t)
  resolve_all inspect (d ∷ rest) now p t = resolve d (inspect d) now p t >>= λ (p', t').
      go_on (p', t') (λ (p, t). resolve_all inspect rest now p t) p'.halted
