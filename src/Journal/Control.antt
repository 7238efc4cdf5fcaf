-- ===== src/Journal/Control.antt =====
-- The commands of journal/runtime_journal.cpp for sessions, transactions and evidence.
use qiven_runtime.Base.{
  ℕ, ◌+◌, Bool, true, false, ◌&&◌, Option, none, some, List, [], ◌∷◌, ◌++◌, Bytes, length, ltb,
  nat_beq, bytes_eq, nat_eq, lookup, if◌then◌else◌,
}
use qiven_runtime.Base.Text.{codes}
use qiven_runtime.Foundation.{Foundation}
use qiven_runtime.Journal.{
  Result, ok, ◌>>=◌, ◌>>◌, guard, found, err_constraint, TxState, state_text, observed, judging,
  GenerationRow, SessionRow, TransactionRow, Tables, RuntimeJournal, Engine,
}
use qiven_runtime.Journal.Audit.{put_bytes, recorded}
use qiven_runtime.Journal.Command.{command}

pub record SessionOpen : Type 0 where
  pub generation : ℕ
  pub actor : Option ℕ
  pub harness : Bytes

pub record TransactionOpen : Type 0 where
  pub causal_parent : Option ℕ
  pub correlation : Bytes
  pub request_digest : Bytes
  pub base_revision : Option Bytes

-- `COALESCE(MAX(id), 0)`
unfoldable pub max_key {ℓ} : {A : Type ℓ} → List (ℕ × A) → ℕ
max_key [] = 0
max_key ((k, _) ∷ rows) = let rest = max_key rows in if ltb rest k then k else rest

abbrev pub row_not_found : Bytes
row_not_found = codes "journal-row-not-found"

abbrev pub is_open_for_judgment : TxState → Bool
is_open_for_judgment observed = true
is_open_for_judgment judging = true
is_open_for_judgment _ = false

-- `UPDATE transactions SET state = … WHERE id = … AND state IN …`
unfoldable pub advance_transaction :
    ℕ → (TxState → Bool) → TxState → List (ℕ × TransactionRow) → List (ℕ × TransactionRow)
advance_transaction id from to [] = []
advance_transaction id from to ((k, r) ∷ rows) =
    (k, if nat_beq k id && from r.state then record r { state = to } else r)
    ∷ advance_transaction id from to rows

abbrev or_zero : Option ℕ → ℕ
or_zero none = 0
or_zero (some n) = n

abbrev pub is_active_row : Option GenerationRow → Bool
is_active_row none = false
is_active_row (some r) = r.is_active

module _ (f : Foundation) where
  abbrev put_option_number : f.Builder → Option ℕ → f.Builder
  put_option_number out none = f.append_le_u64 out 0
  put_option_number out (some n) = f.append_le_u64 (f.append_le_u64 out 1) n

  abbrev pub put_option_text : f.Builder → Option Bytes → f.Builder
  put_option_text out none = f.append_le_u64 out 0
  put_option_text out (some text) = put_bytes f (f.append_le_u64 out 1) text

  abbrev put_digests : f.Builder → List Bytes → f.Builder
  put_digests out [] = out
  put_digests out (d ∷ rest) = put_digests (f.append out d) rest

  abbrev pub u64 : ℕ → f.Builder → f.Builder
  u64 n out = f.append_le_u64 out n

  abbrev pub session_payload : SessionOpen → ℕ → ℕ → f.Builder
  session_payload s row_id now =
      let head = u64 (or_zero s.actor) (u64 s.generation (u64 row_id f.new_builder)) in
      u64 now (put_bytes f head s.harness)

  abbrev pub with_session : SessionOpen → ℕ → Tables → Tables
  with_session s now t =
      let row : SessionRow = record {
        generation = s.generation;
        actor = s.actor;
        harness = s.harness;
        opened_ms = now;
      } in
      record t { sessions = (max_key t.sessions + 1, row) ∷ t.sessions }

  unfoldable pub session_rows : SessionOpen → ℕ → Tables → Result (ℕ × Tables)
  unfolding max_key recorded
  session_rows s now t = do
    guard (is_active_row (lookup s.generation t.generations))
        (err_constraint (codes "session-generation-not-active"))
    let row_id = max_key t.sessions + 1
    t' ←
        recorded f (codes "session_opened") (session_payload s row_id now) now
          (with_session s now t)
    ok (row_id, t')

  abbrev pub transaction_payload : ℕ → TransactionOpen → ℕ → f.Builder
  transaction_payload epoch o id =
      let head = put_option_number (u64 epoch (u64 id f.new_builder)) o.causal_parent in
      put_option_text (f.append (put_bytes f head o.correlation) o.request_digest) o.base_revision

  abbrev pub with_transaction : ℕ → TransactionOpen → Tables → Tables
  with_transaction epoch o t =
      let row : TransactionRow = record {
        boot_epoch = epoch;
        causal_parent = o.causal_parent;
        correlation = o.correlation;
        request_digest = o.request_digest;
        base_revision = o.base_revision;
        state = observed;
      } in
      record t { transactions = (max_key t.transactions + 1, row) ∷ t.transactions }

  unfoldable pub transaction_rows : ℕ → TransactionOpen → ℕ → Tables → Result (ℕ × Tables)
  unfolding max_key recorded
  transaction_rows epoch o now t = do
    let id = max_key t.transactions + 1
    t' ←
        recorded f (codes "transaction_opened") (transaction_payload epoch o id) now
          (with_transaction epoch o t)
    ok (id, t')

  abbrev pub evidence_payload : ℕ → List Bytes → ℕ → f.Builder
  evidence_payload transaction evidence now =
      u64 now (put_digests (u64 (length evidence) (u64 transaction f.new_builder)) evidence)

  unfoldable pub evidence_rows : ℕ → List Bytes → ℕ → Tables → Result (Unit {0} × Tables)
  unfolding recorded
  evidence_rows transaction evidence now t = do
    row ← found (lookup transaction t.transactions) (err_constraint row_not_found)
    guard (is_open_for_judgment row.state)
        (err_constraint (codes "evidence-tx-state-invalid: " ++ state_text row.state))
    t' ← recorded f (codes "evidence_accepted") (evidence_payload transaction evidence now) now t
    ok (tt, t')

  unfoldable pub open_session :
      Engine → SessionOpen → ℕ → RuntimeJournal → Result ℕ × RuntimeJournal
  unfolding command session_rows
  open_session e s now j = command e now (session_rows s now) j

  unfoldable pub open_transaction :
      Engine → TransactionOpen → ℕ → RuntimeJournal → Result ℕ × RuntimeJournal
  unfolding command transaction_rows
  open_transaction e o now j = command e now (transaction_rows j.boot_epoch o now) j

  unfoldable pub accept_evidence :
      Engine → ℕ → List Bytes → ℕ → RuntimeJournal → Result (Unit {0}) × RuntimeJournal
  unfolding command evidence_rows
  accept_evidence e transaction evidence now j =
      command e now (evidence_rows transaction evidence now) j
