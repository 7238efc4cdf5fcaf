-- ===== src/Journal/Reads.antt =====
-- The read surface of journal/runtime_journal.cpp.
use qiven_runtime.Base.{
  ℕ, Bool, Option, none, some, List, [], ◌∷◌, Bytes, length, nat_beq, bytes_eq, nat_eq, lookup,
  if◌then◌else◌,
}
use qiven_runtime.Base.Text.{codes}
use qiven_runtime.Base.Sorts.{lex_le}
use qiven_runtime.Journal.{
  Result, ok, ◌>>=◌, ◌>>◌, guard, found, err_open, err_constraint, TxState, DecisionState, Tables,
  RuntimeJournal,
}
use qiven_runtime.Journal.Audit.{read_meta, write_meta}
use qiven_runtime.Journal.Control.{max_key, row_not_found}
use qiven_runtime.Journal.Effects.{LeaseState}
use qiven_runtime.Journal.Barriers.{is_open_barrier}

unfoldable pub tx_state_of : ℕ → Tables → Result TxState
tx_state_of id t =
    found (lookup id t.transactions) (err_constraint row_not_found) >>= λ row. ok row.state

unfoldable pub decision_state_of : Bytes → Tables → Result DecisionState
decision_state_of id t =
    found (lookup id t.decisions) (err_constraint row_not_found) >>= λ row. ok row.state

unfoldable pub dispatch_state_of : Bytes → Tables → Result TxState
dispatch_state_of id t =
    found (lookup id t.dispatches) (err_constraint row_not_found) >>= λ row. ok row.state

-- `… WHERE "transaction" = … ORDER BY id LIMIT 1`, with the column given.
unfoldable pub first_of {ℓ} : {A : Type ℓ} → (A → ℕ) → ℕ → List (Bytes × A) → Option Bytes
first_of transaction id [] = none
first_of transaction id ((k, r) ∷ rows) =
    let rest = first_of transaction id rows in
    if nat_beq (transaction r) id
    then elim rest [ none ↦ some k | some j ↦ if lex_le k j then some k else some j ]
    else rest

unfoldable pub first_decision_of_transaction : ℕ → Tables → Result Bytes
unfolding first_of
first_decision_of_transaction id t = do
  key ←
      found (first_of (λ r. r.transaction) id t.decisions)
        (err_constraint (codes "decision-unknown"))
  guard (nat_beq (length key) 16) (err_open (codes "decision-id-corrupt"))
  ok key

unfoldable pub first_dispatch_of_transaction : ℕ → Tables → Result Bytes
unfolding first_of
first_dispatch_of_transaction id t = do
  key ←
      found (first_of (λ r. r.transaction) id t.dispatches)
        (err_constraint (codes "dispatch-unknown"))
  guard (nat_beq (length key) 16) (err_open (codes "dispatch-id-corrupt"))
  ok key

unfoldable pub lease_of : Bytes → Tables → Option LeaseState
lease_of workspace t = elim (lookup workspace t.leases) [
  | none ↦ none
  | some row ↦ some (record { workspace = workspace; row = row })
]

unfoldable pub barrier_active : Bytes → Tables → Bool
barrier_active scope t = is_open_barrier (lookup scope t.barriers)

unfoldable pub audit_event_count : Tables → ℕ
audit_event_count t = length t.audit

unfoldable pub max_generation_id : Tables → ℕ
unfolding max_key
max_generation_id t = max_key t.generations

unfoldable pub get_meta : Bytes → Tables → Option Bytes
get_meta key t = read_meta key t

unfoldable pub set_meta : Bytes → Bytes → RuntimeJournal → RuntimeJournal
set_meta key value j = record j { tables = write_meta key value j.tables }
