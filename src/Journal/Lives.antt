-- ===== src/Journal/Lives.antt =====
-- The decisions of journal/runtime_journal.cpp against their abstract life: bound once, then
-- consumed or stale, and nothing after that.
use qiven_runtime.Base.{
  ℕ, ◌≡◌, refl, subst, ◌⊎◌, inl, inr, arith, Bool, true, false, Option, none, some, Bytes, List, [],
  ◌∷◌, lookup, has, bytes_eq, bytes_beq_iff,
}
use qiven_runtime.Foundation.{Foundation}
use qiven_runtime.Journal.{
  DecisionState, bound, consumed, stale, DecisionRow, Tables, RuntimeJournal, Engine,
}
use qiven_runtime.Journal.Decisions.{mark_stale, mark_consumed, bound_row}
use qiven_runtime.Journal.Recovery.{restarted}
use qiven_runtime.Journal.Changes.{IsKeptByChanges, IsKept-changes}
use qiven_runtime.Journal.Runs.{JournalCommand, run, any-run-keeps}

-- The moves of one decision in the abstract machine: it is bound, then consumed or made stale.
abbrev pub is_move : Option DecisionState → Option DecisionState → Bool
is_move none (some bound) = true
is_move (some bound) (some consumed) = true
is_move (some bound) (some stale) = true
is_move _ _ = false

pub data Moves (s : Option DecisionState) : Option DecisionState → Type 0 where
  here : Moves s s
  then_ : {u v : Option DecisionState} → Moves s u → is_move u v ≡ true → Moves s v

abbrev state_in : Option DecisionRow → Option DecisionState
state_in none = none
state_in (some r) = some r.state

-- What the abstract machine sees of the rows.
unfoldable pub view : Bytes → Tables → Option DecisionState
view id t = state_in (lookup id t.decisions)

-- A state as it was, or one move on.
abbrev Within : Option DecisionState → Option DecisionState → Type 0
Within u v = (u ≡ v) ⊎ (is_move u v ≡ true)

further : {s u v : Option DecisionState} → Moves s u → Within u v → Moves s v
further {s} m (inl same) = subst (Moves s) same m
further m (inr move) = then_ m move

lookup-staled :
    (p : DecisionRow → Bool) (id : Bytes) (rows : List (Bytes × DecisionRow))
    → Within (state_in (lookup id rows)) (state_in (lookup id (mark_stale p rows)))
unfolding lookup mark_stale
lookup-staled p id [] = inl refl
lookup-staled p id ((k, r) ∷ rows) = ground (arith, lookup-staled p id rows)

lookup-consumed :
    (j : Bytes) (now : ℕ) (id : Bytes) (rows : List (Bytes × DecisionRow))
    → Within (state_in (lookup id rows)) (state_in (lookup id (mark_consumed j now rows)))
unfolding lookup mark_consumed
lookup-consumed j now id [] = inl refl
lookup-consumed j now id ((k, r) ∷ rows) = ground (arith, lookup-consumed j now id rows)

lookup-bound :
    (id j : Bytes) (new : DecisionRow) (rows : List (Bytes × DecisionRow))
    → new.state ≡ bound
    → has j rows ≡ false
    → Within (state_in (lookup id rows)) (state_in (lookup id ((j, new) ∷ rows)))
unfolding lookup
lookup-bound id j new rows new_bound fresh = ground (arith, bytes_beq_iff j id)

module _ (f : Foundation) (id : Bytes) (s : Option DecisionState) where
  changes-Moves : IsKeptByChanges f (λ t. Moves s (view id t))
  unfolding restarted view
  changes-Moves = record {
    framed = λ x t' frame m. rw frame.decisions m;
    session = λ o now t m. m;
    transaction = λ epoch o t m. m;
    decision =
        λ d t fresh m. further m (lookup-bound id d.id (bound_row f d) t.decisions refl fresh);
    consumption = λ j now t m. further m (lookup-consumed j now id t.decisions);
    generation = λ g now t fresh m. further m (lookup-staled _ id t.decisions);
    lease = λ epoch q now t m. m;
    dispatch = λ d now t fresh m. m;
    outcome = λ o status now t row e fresh m. m;
    barrier = λ scope row t fresh m. m;
    closed = λ scope now t m. m;
    resolution = λ d status ref_observed now t fresh m. m;
    restart = λ epoch t m. further m (lookup-staled _ id t.decisions);
  }

-- What any run of commands and recoveries does to a decision is a sequence of moves of the
-- abstract machine, in which an unknown decision is bound, a bound one is consumed or made stale,
-- and a consumed or a stale one stays what it is.
pub run-refines :
    (f : Foundation) (cs : List (JournalCommand × Engine × ℕ)) (j : RuntimeJournal) (id : Bytes)
    → Moves (view id j.tables) (view id (run f cs j).tables)
run-refines f cs j id =
    any-run-keeps f (λ t. Moves (view id j.tables) (view id t))
      (IsKept-changes f _ (changes-Moves f id (view id j.tables))) cs j here
