-- ===== src/Journal/Spent.antt =====
-- The single consumption of decisions in journal/runtime_journal.cpp.
use qiven_runtime.Base.{
  ℕ, ◌≡◌, ◌≢◌, refl, arith, Bool, true, false, some, Bytes, List, [], ◌∷◌, lookup, has, bytes_eq,
  bytes_beq_iff,
}
use qiven_runtime.Foundation.{Foundation}
use qiven_runtime.Journal.{ok, consumed, DecisionRow, Tables, RuntimeJournal, Engine}
use qiven_runtime.Journal.Recovery.{restarted}
use qiven_runtime.Journal.Changes.{IsKeptByChanges, IsKept-changes}
use qiven_runtime.Journal.Runs.{JournalCommand, run, any-run-keeps}
use qiven_runtime.Journal.Writes.{consume_rows-inv}
use qiven_runtime.Journal.Frames.{IsRecorded-IsFramed}
use qiven_runtime.Journal.Command.{command-ok}
use qiven_runtime.Journal.Decisions.{
  bound_row, is_bound, mark_stale, mark_consumed, consume_decision, consume_rows,
}

-- The decision's row is there and says consumed.
pub record IsSpent (id : Bytes) (t : Tables) : Type 0 where
  pub row : DecisionRow
  pub there : lookup id t.decisions ≡ some row
  pub spent : row.state ≡ consumed

lookup-mark_stale :
    (p : DecisionRow → Bool) (id : Bytes) (row : DecisionRow) (rows : List (Bytes × DecisionRow))
    → is_bound row.state ≡ false
    → lookup id rows ≡ some row
    → lookup id (mark_stale p rows) ≡ some row
unfolding lookup mark_stale
lookup-mark_stale p id row [] settled h = h
lookup-mark_stale p id row ((k, r) ∷ rows) settled h =
    ground (arith, lookup-mark_stale p id row rows settled)

lookup-mark_consumed :
    (j : Bytes) (now : ℕ) (id : Bytes) (row : DecisionRow) (rows : List (Bytes × DecisionRow))
    → is_bound row.state ≡ false
    → lookup id rows ≡ some row
    → lookup id (mark_consumed j now rows) ≡ some row
unfolding lookup mark_consumed
lookup-mark_consumed j now id row [] settled h = h
lookup-mark_consumed j now id row ((k, r) ∷ rows) settled h =
    ground (arith, lookup-mark_consumed j now id row rows settled)

lookup-marked :
    (id : Bytes) (now : ℕ) (row : DecisionRow) (rows : List (Bytes × DecisionRow))
    → is_bound row.state ≡ true
    → lookup id rows ≡ some row
    → lookup id (mark_consumed id now rows)
      ≡ some (record row { state = consumed; consumed_ms = some now })
unfolding lookup mark_consumed
lookup-marked id now row [] unspent h = absurd (let no_way : ⊥ = cc in no_way)
lookup-marked id now row ((k, r) ∷ rows) unspent h =
    ground (arith, lookup-marked id now row rows unspent)

lookup-fresh :
    (id j : Bytes) (row new : DecisionRow) (rows : List (Bytes × DecisionRow))
    → has j rows ≡ false
    → lookup id rows ≡ some row
    → lookup id ((j, new) ∷ rows) ≡ some row
unfolding lookup
lookup-fresh id j row new rows fresh h = ground (arith, bytes_beq_iff j id)

module _ (f : Foundation) (id : Bytes) where
  -- The decision's row alone matters.
  carried-IsSpent : (x t' : Tables) → t'.decisions ≡ x.decisions → IsSpent id x → IsSpent id t'
  carried-IsSpent x t' same s = record { row = s.row; there = rw same s.there; spent = s.spent }

  with_rows :
      (x t' : Tables) (s : IsSpent id x) → lookup id t'.decisions ≡ some s.row → IsSpent id t'
  with_rows x t' s there = record { row = s.row; there = there; spent = s.spent }

  unbound : (x : Tables) (s : IsSpent id x) → is_bound s.row.state ≡ false
  unbound x s = rw s.spent refl

  changes-IsSpent : IsKeptByChanges f (IsSpent id)
  unfolding restarted
  changes-IsSpent = record {
    framed = λ x t' frame s. carried-IsSpent x t' frame.decisions s;
    session = λ o now t s. carried-IsSpent t _ refl s;
    transaction = λ epoch o t s. carried-IsSpent t _ refl s;
    decision = λ d t fresh s.
        with_rows t _ s (lookup-fresh id d.id s.row (bound_row f d) t.decisions fresh s.there);
    consumption = λ j now t s.
        with_rows t _ s (lookup-mark_consumed j now id s.row t.decisions (unbound t s) s.there);
    generation = λ g now t fresh s.
        with_rows t _ s (lookup-mark_stale _ id s.row t.decisions (unbound t s) s.there);
    lease = λ epoch q now t s. carried-IsSpent t _ refl s;
    dispatch = λ d now t fresh s. carried-IsSpent t _ refl s;
    outcome = λ o status now t row e fresh s. carried-IsSpent t _ refl s;
    barrier = λ scope row t fresh s. carried-IsSpent t _ refl s;
    closed = λ scope now t s. carried-IsSpent t _ refl s;
    resolution = λ d status ref_observed now t fresh s. carried-IsSpent t _ refl s;
    restart = λ epoch t s.
        with_rows t _ s (lookup-mark_stale _ id s.row t.decisions (unbound t s) s.there);
  }

  consumed-IsSpent :
      (e : Engine) (now : ℕ) (j : RuntimeJournal)
      → (consume_decision f e id now j).0 ≡ ok tt
      → IsSpent id (consume_decision f e id now j).1.tables
  unfolding consume_decision
  consumed-IsSpent e now j h =
      let done_ = command-ok e now (consume_rows f id now) j tt h in
      let (row, there, unspent, in_time, r) = consume_rows-inv f now j.tables _ id tt done_ in
      let frame = IsRecorded-IsFramed f _ _ r in
      let open_ : is_bound row.state ≡ true = rw unspent refl in
      record {
        row = record row { state = consumed; consumed_ms = some now };
        there = rw frame.decisions (lookup-marked id now row j.tables.decisions open_ there);
        spent = refl;
      }

  spent_denied :
      (e : Engine) (now : ℕ) (j : RuntimeJournal)
      → IsSpent id j.tables
      → (consume_decision f e id now j).0 ≢ ok tt
  unfolding consume_decision
  spent_denied e now j s h =
      let done_ = command-ok e now (consume_rows f id now) j tt h in
      let (row, there, unspent, in_time, r) = consume_rows-inv f now j.tables _ id tt done_ in
      ground (arith, s.there, s.spent, there, unspent)

  -- Once a decision has been consumed, it is never consumed again: not after any commands,
  -- recoveries, restarts of the epoch and engine failures in between, at any time.
  pub consumed_once :
      (e e' : Engine) (now now' : ℕ) (cs : List (JournalCommand × Engine × ℕ)) (j : RuntimeJournal)
      → (consume_decision f e id now j).0 ≡ ok tt
      → (consume_decision f e' id now' (run f cs (consume_decision f e id now j).1)).0 ≢ ok tt
  consumed_once e e' now now' cs j h = spent_denied e' now' _ (
      any-run-keeps f (IsSpent id) (IsKept-changes f (IsSpent id) changes-IsSpent) cs _
        (consumed-IsSpent e now j h))
