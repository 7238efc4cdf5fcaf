-- ===== src/Journal/Settled.antt =====
-- The states of transactions in journal/runtime_journal.cpp never regress.
use qiven_runtime.Base.{ℕ, ◌≡◌, not, ◌&&◌, Bool, some, lookup, nat_eq}
use qiven_runtime.Foundation.{Foundation}
use qiven_runtime.Journal.{TxState, TransactionRow, Tables}
use qiven_runtime.Journal.Control.{is_open_for_judgment}
use qiven_runtime.Journal.Effects.{is_decided, is_pending}

-- A state that no statement of the journal moves a transaction out of.
abbrev pub is_settled : TxState → Bool
is_settled s = not (is_open_for_judgment s) && not (is_decided s) && not (is_pending s)

record IsAt (id : ℕ) (s : TxState) (t : Tables) : Type 0 where
  row : TransactionRow
  there : lookup id t.transactions ≡ some row
  at : row.state ≡ s
