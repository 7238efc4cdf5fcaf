-- ===== src/Journal/Effects.antt =====
-- The commands of journal/runtime_journal.cpp for leases, dispatches and outcomes.
use qiven_runtime.Base.{
  ℕ, ◌+◌, ◌%◌, ◌^◌, Bool, true, false, not, ◌&&◌, Option, none, some, List, [], ◌∷◌, ◌++◌, Bytes,
  ltb, bytes_beq, bytes_eq, nat_eq, lookup, has, put, if◌then◌else◌,
}
use qiven_runtime.Base.Text.{codes}
use qiven_runtime.Foundation.{Foundation}
use qiven_runtime.Journal.{
  Result, ok, err, ◌>>=◌, ◌>>◌, guard, found, err_constraint, constraint_failed, TxState,
  state_text, decided, prepared, dispatched, succeeded, failed, indeterminate, LeaseRow,
  DispatchRow, OutcomeRow, Tables, RuntimeJournal, Engine,
}
use qiven_runtime.Journal.Audit.{put_bytes, recorded}
use qiven_runtime.Journal.Command.{admitted, command}
use qiven_runtime.Journal.Control.{u64, put_option_text, advance_transaction, row_not_found}

pub record LeaseRequest : Type 0 where
  pub workspace : Bytes
  pub holder_install : Bytes
  pub ttl_ms : ℕ

pub record LeaseState : Type 0 where
  pub workspace : Bytes
  pub row : LeaseRow

pub record DispatchPrepared : Type 0 where
  pub id : Bytes
  pub transaction : ℕ
  pub plan_digest : Bytes

pub record OutcomeRecord : Type 0 where
  pub dispatch : Bytes
  pub status : Bytes
  pub ref_observed : Option Bytes
  pub validator_digest : Option Bytes

-- The status that the text names, where it is a valid outcome.
unfoldable pub outcome_status : Bytes → Option TxState
outcome_status text =
    if bytes_beq text (codes "succeeded")
    then some succeeded
    else if bytes_beq text (codes "failed")
    then some failed
    else if bytes_beq text (codes "indeterminate")
    then some indeterminate
    else none

abbrev pub is_decided : TxState → Bool
is_decided decided = true
is_decided _ = false

abbrev pub is_prepared : TxState → Bool
is_prepared prepared = true
is_prepared _ = false

abbrev pub is_pending : TxState → Bool
is_pending prepared = true
is_pending dispatched = true
is_pending _ = false

-- `UPDATE dispatches SET state = …, done_ms = … WHERE id = … AND state IN …`
unfoldable pub close_dispatch :
    Bytes → (TxState → Bool) → TxState → ℕ → List (Bytes × DispatchRow) → List (Bytes × DispatchRow)
close_dispatch id from to now [] = []
close_dispatch id from to now ((k, r) ∷ rows) =
    (k, if bytes_beq k id && from r.state then record r { state = to; done_ms = some now } else r)
    ∷ close_dispatch id from to now rows

-- Whether the row keeps another holder out.
abbrev pub is_held_against : LeaseRequest → ℕ → Option LeaseRow → Bool
is_held_against q now none = false
is_held_against q now (some r) =
    not (ltb r.expires_ms now) && not (bytes_beq r.holder_install q.holder_install)

abbrev pub next_fence : Option LeaseRow → ℕ
next_fence none = 1
next_fence (some r) = (r.fencing_epoch + 1) % 2 ^ 64

module _ (f : Foundation) where
  abbrev pub lease_row : ℕ → LeaseRequest → ℕ → Tables → LeaseRow
  lease_row epoch q now t = record {
    holder_install = q.holder_install;
    boot_epoch = epoch;
    fencing_epoch = next_fence (lookup q.workspace t.leases);
    acquired_ms = now;
    expires_ms = (now + q.ttl_ms) % 2 ^ 64;
  }

  abbrev pub lease_payload : LeaseRequest → LeaseRow → f.Builder
  lease_payload q row =
      let head = put_bytes f (put_bytes f f.new_builder q.workspace) q.holder_install in
      u64 f row.expires_ms (u64 f row.fencing_epoch (u64 f row.boot_epoch head))

  abbrev pub with_lease : ℕ → LeaseRequest → ℕ → Tables → Tables
  with_lease epoch q now t = record t {
    leases = put q.workspace (lease_row epoch q now t) t.leases;
  }

  unfoldable pub lease_rows : ℕ → LeaseRequest → ℕ → Tables → Result (LeaseState × Tables)
  unfolding recorded
  lease_rows epoch q now t = do
    guard (not (is_held_against q now (lookup q.workspace t.leases)))
        (err_constraint (codes "lease-held-by-another-holder"))
    let row = lease_row epoch q now t
    t' ← recorded f (codes "lease_acquired") (lease_payload q row) now (with_lease epoch q now t)
    ok (record { workspace = q.workspace; row = row }, t')

  abbrev pub dispatch_payload : DispatchPrepared → ℕ → f.Builder
  dispatch_payload d now =
      u64 f now (f.append (u64 f d.transaction (f.append f.new_builder d.id)) d.plan_digest)

  abbrev pub with_dispatch : DispatchPrepared → ℕ → Tables → Tables
  with_dispatch d now t =
      let row : DispatchRow = record {
        transaction = d.transaction;
        plan_digest = d.plan_digest;
        state = prepared;
        started_ms = now;
        done_ms = none;
      } in
      record t {
        dispatches = (d.id, row) ∷ t.dispatches;
        transactions = advance_transaction d.transaction is_decided prepared t.transactions;
      }

  unfoldable pub dispatch_rows : DispatchPrepared → ℕ → Tables → Result (Unit {0} × Tables)
  unfolding advance_transaction recorded
  dispatch_rows d now t = do
    tx ← found (lookup d.transaction t.transactions) (err_constraint row_not_found)
    guard (is_decided tx.state)
        (err_constraint (codes "dispatch-tx-state-invalid: " ++ state_text tx.state))
    guard (not (has d.id t.dispatches)) constraint_failed
    t' ← recorded f (codes "dispatch_prepared") (dispatch_payload d now) now (with_dispatch d now t)
    ok (tt, t')

  abbrev pub outcome_payload : OutcomeRecord → ℕ → f.Builder
  outcome_payload o now =
      u64 f now (
        put_option_text f (put_bytes f (f.append f.new_builder o.dispatch) o.status) o.ref_observed)

  abbrev pub with_outcome : OutcomeRecord → TxState → ℕ → ℕ → Tables → Tables
  with_outcome o status transaction now t =
      let row : OutcomeRow = record {
        status = status;
        ref_observed = o.ref_observed;
        validator_digest = o.validator_digest;
        observed_ms = now;
      } in
      record t {
        outcomes = (o.dispatch, row) ∷ t.outcomes;
        dispatches = close_dispatch o.dispatch is_prepared status now t.dispatches;
        transactions = advance_transaction transaction is_prepared status t.transactions;
      }

  unfoldable pub outcome_rows : OutcomeRecord → TxState → ℕ → Tables → Result (Unit {0} × Tables)
  unfolding advance_transaction close_dispatch recorded
  outcome_rows o status now t = do
    dispatch ← found (lookup o.dispatch t.dispatches) (err_constraint row_not_found)
    guard (is_prepared dispatch.state)
        (err_constraint (codes "outcome-dispatch-state-invalid: " ++ state_text dispatch.state))
    guard (not (has o.dispatch t.outcomes)) constraint_failed
    t' ←
        recorded f (codes "outcome_observed") (outcome_payload o now) now
          (with_outcome o status dispatch.transaction now t)
    ok (tt, t')

  unfoldable pub acquire_lease :
      Engine → LeaseRequest → ℕ → RuntimeJournal → Result LeaseState × RuntimeJournal
  unfolding command lease_rows
  acquire_lease e q now j = command e now (lease_rows j.boot_epoch q now) j

  unfoldable pub record_dispatch_prepared :
      Engine → DispatchPrepared → ℕ → RuntimeJournal → Result (Unit {0}) × RuntimeJournal
  unfolding command dispatch_rows
  record_dispatch_prepared e d now j = command e now (dispatch_rows d now) j

  unfoldable pub record_outcome :
      Engine → OutcomeRecord → ℕ → RuntimeJournal → Result (Unit {0}) × RuntimeJournal
  unfolding admitted command outcome_rows outcome_status
  record_outcome e o now j = elim (outcome_status o.status) [
    | none ↦
        let (prelude, j') = admitted now j in
        (prelude >> err (err_constraint (codes "outcome-status-invalid: " ++ o.status)), j')
    | some status ↦ command e now (outcome_rows o status now) j
  ]
