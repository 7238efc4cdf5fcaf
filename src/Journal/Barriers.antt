-- ===== src/Journal/Barriers.antt =====
-- The commands of journal/runtime_journal.cpp for barriers, and the records that the ports append.
use qiven_runtime.Base.{
  ℕ, ◌+◌, ◌%◌, ◌^◌, Bool, false, not, ◌&&◌, Option, none, some, List, [], ◌∷◌, Bytes, bytes_beq,
  bytes_eq, nat_eq, lookup, has, is_some, if◌then◌else◌,
}
use qiven_runtime.Base.Text.{codes}
use qiven_runtime.Foundation.{Foundation}
use qiven_runtime.Journal.{
  Result, ok, err, ◌>>=◌, ◌>>◌, guard, err_constraint, constraint_failed, BarrierRow, Tables,
  RuntimeJournal, Engine,
}
use qiven_runtime.Journal.Audit.{put_bytes, recorded}
use qiven_runtime.Journal.Command.{admitted, txn, command, unless_failed}
use qiven_runtime.Journal.Control.{u64}

pub record BarrierOpen : Type 0 where
  pub scope : Bytes
  pub reason : Bytes
  pub evidence : Bytes

pub data JournalRecordKind : Type 0 where
  generation_activated session_opened transaction_opened requirement_tracked : JournalRecordKind
  evidence_accepted decision_bound decision_consumed lease_acquired : JournalRecordKind
  dispatch_prepared outcome_observed barrier_opened barrier_closed audit_event : JournalRecordKind

pub record JournalRecord : Type 0 where
  pub kind : JournalRecordKind
  pub record_id : Bytes
  pub transaction : ℕ
  pub payload : Bytes

abbrev pub port_kind_name : JournalRecordKind → Bytes
port_kind_name generation_activated = codes "record_generation_activated"
port_kind_name session_opened = codes "record_session_opened"
port_kind_name transaction_opened = codes "record_transaction_opened"
port_kind_name requirement_tracked = codes "record_requirement_tracked"
port_kind_name evidence_accepted = codes "record_evidence_accepted"
port_kind_name decision_bound = codes "record_decision_bound"
port_kind_name decision_consumed = codes "record_decision_consumed"
port_kind_name lease_acquired = codes "record_lease_acquired"
port_kind_name dispatch_prepared = codes "record_dispatch_prepared"
port_kind_name outcome_observed = codes "record_outcome_observed"
port_kind_name barrier_opened = codes "record_barrier_opened"
port_kind_name barrier_closed = codes "record_barrier_closed"
port_kind_name audit_event = codes "record_audit"

abbrev pub is_open_barrier : Option BarrierRow → Bool
is_open_barrier none = false
is_open_barrier (some r) = not (is_some r.closed_ms)

-- `UPDATE barriers SET closed_ms = … WHERE scope = … AND closed_ms IS NULL`
unfoldable pub mark_closed : Bytes → ℕ → List (Bytes × BarrierRow) → List (Bytes × BarrierRow)
mark_closed scope now [] = []
mark_closed scope now ((k, r) ∷ rows) =
    (
      k,
      if bytes_beq k scope && not (is_some r.closed_ms)
          then record r { closed_ms = some now }
          else r,
    )
    ∷ mark_closed scope now rows

module _ (f : Foundation) where
  abbrev pub with_barrier : BarrierOpen → ℕ → Tables → Tables
  with_barrier b now t =
      let row : BarrierRow = record {
        reason = b.reason;
        opened_ms = now;
        closed_ms = none;
        evidence = b.evidence;
      } in
      record t { barriers = (b.scope, row) ∷ t.barriers }

  -- Two texts and the time.
  abbrev pub barrier_payload : Bytes → Bytes → ℕ → f.Builder
  barrier_payload scope text now = u64 f now (put_bytes f (put_bytes f f.new_builder scope) text)

  unfoldable pub barrier_rows : BarrierOpen → ℕ → Tables → Result (Unit {0} × Tables)
  unfolding recorded
  barrier_rows b now t = do
    guard (not (has b.scope t.barriers)) constraint_failed
    t' ←
        recorded f (codes "barrier_opened") (barrier_payload b.scope b.reason now) now
          (with_barrier b now t)
    ok (tt, t')

  abbrev pub with_closed : Bytes → ℕ → Tables → Tables
  with_closed scope now t = record t { barriers = mark_closed scope now t.barriers }

  unfoldable pub closing_rows : Bytes → Bytes → ℕ → Tables → Result (Unit {0} × Tables)
  unfolding mark_closed recorded
  closing_rows scope evidence now t = do
    guard (is_open_barrier (lookup scope t.barriers)) (err_constraint (codes "barrier-not-active"))
    t' ←
        recorded f (codes "barrier_closed") (barrier_payload scope evidence now) now
          (with_closed scope now t)
    ok (tt, t')

  unfoldable pub audit_rows : Bytes → Bytes → ℕ → Tables → Result (Unit {0} × Tables)
  unfolding recorded
  audit_rows kind payload now t = do
    t' ← recorded f kind (f.append f.new_builder payload) now t
    ok (tt, t')

  abbrev pub record_payload : JournalRecord → f.Builder
  record_payload r =
      put_bytes f (u64 f r.transaction (f.append f.new_builder r.record_id)) r.payload

  unfoldable pub append_rows : JournalRecord → ℕ → Tables → Result (Unit {0} × Tables)
  unfolding recorded
  append_rows r now t = do
    t' ← recorded f (port_kind_name r.kind) (record_payload r) now t
    ok (tt, t')

  unfoldable pub open_barrier :
      Engine → BarrierOpen → ℕ → RuntimeJournal → Result (Unit {0}) × RuntimeJournal
  unfolding command barrier_rows
  open_barrier e b now j = command e now (barrier_rows b now) j

  unfoldable pub close_barrier :
      Engine → Bytes → Bytes → ℕ → RuntimeJournal → Result (Unit {0}) × RuntimeJournal
  unfolding command closing_rows
  close_barrier e scope evidence now j = command e now (closing_rows scope evidence now) j

  unfoldable pub append :
      Engine → JournalRecord → ℕ → RuntimeJournal → Result (Unit {0}) × RuntimeJournal
  unfolding command append_rows
  append e r now j = command e now (append_rows r now) j

  -- A transaction that fails is counted; a refusal before it is not.
  unfoldable pub append_audit_at :
      Engine → Bytes → Bytes → ℕ → RuntimeJournal → Result (Unit {0}) × RuntimeJournal
  unfolding admitted txn audit_rows
  append_audit_at e kind payload now j =
      let (prelude, j') = admitted now j in
      let (answer, t') = txn e (audit_rows kind payload now) j'.tables in
      unless_failed prelude (λ fault. (err fault, j'))
        (
          answer,
          record j' {
            tables = t';
            audit_append_failures =
                unless_failed answer (λ _. (j'.audit_append_failures + 1) % 2 ^ 64)
                  j'.audit_append_failures;
          },
        )
