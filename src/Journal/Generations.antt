-- ===== src/Journal/Generations.antt =====
-- The activation of generations in journal/runtime_journal.cpp.
use qiven_runtime.Base.{
  ℕ, ◌≤◌, ◌≡◌, refl, arith, not, ◌&&◌, true, some, Bytes, List, [], ◌∷◌, count_if, lookup, nat_eq,
  nat_beq, beq_refl,
}
use qiven_runtime.Foundation.{Foundation}
use qiven_runtime.Journal.{ok, GenerationRow, DecisionRow, RuntimeJournal, Engine}
use qiven_runtime.Journal.Decisions.{
  GenerationAdvance, retire_active, mark_stale, is_bound, advance_generation, advance_rows,
}
use qiven_runtime.Journal.Command.{command-ok}
use qiven_runtime.Journal.Writes.{advance_rows-inv}
use qiven_runtime.Journal.Frames.{IsRecorded-IsFramed}
use qiven_runtime.Journal.Recovery.{restarted}
use qiven_runtime.Journal.Changes.{IsKeptByChanges, IsKept-changes}
use qiven_runtime.Journal.Runs.{JournalCommand, run, any-run-keeps}

-- How many generations are active.
unfoldable pub active_count : List (ℕ × GenerationRow) → ℕ
active_count rows = count_if (λ row. row.1.is_active) rows

retired : (rows : List (ℕ × GenerationRow)) → active_count (retire_active rows) ≡ 0
unfolding active_count retire_active
retired [] = refl
retired ((k, r) ∷ rows) = retired rows

-- How many decisions are bound under another generation.
unfoldable pub foreign_bound : ℕ → List (Bytes × DecisionRow) → ℕ
foreign_bound id rows =
    count_if (λ row. is_bound row.1.state && not (nat_beq row.1.generation id)) rows

none_foreign :
    (id : ℕ) (rows : List (Bytes × DecisionRow))
    → foreign_bound id (mark_stale (λ r. not (nat_beq r.generation id)) rows) ≡ 0
unfolding foreign_bound mark_stale
none_foreign id [] = refl
none_foreign id ((k, r) ∷ rows) = ground (arith, none_foreign id rows)

lookup-head :
    (id : ℕ) (row : GenerationRow) (rows : List (ℕ × GenerationRow))
    → lookup id ((id, row) ∷ rows) ≡ some row
unfolding lookup
lookup-head id row rows = rw (beq_refl id) refl

module _ (f : Foundation) where
  at_most_one : IsKeptByChanges f (λ t. active_count t.generations ≤ 1)
  unfolding restarted active_count
  at_most_one = record {
    framed = λ x t' frame m. rw frame.generations m;
    session = λ o now t m. m;
    transaction = λ epoch o t m. m;
    decision = λ d t fresh m. m;
    consumption = λ j now t m. m;
    generation = λ g now t fresh m. omega (arith, retired t.generations);
    lease = λ epoch q now t m. m;
    dispatch = λ d now t fresh m. m;
    outcome = λ o status now t row e fresh m. m;
    barrier = λ scope row t fresh m. m;
    closed = λ scope now t m. m;
    resolution = λ d status ref_observed now t fresh m. m;
    restart = λ epoch t m. m;
  }

  -- Where at most one generation is active, at most one is after any commands and recoveries.
  pub run-active_count :
      (cs : List (JournalCommand × Engine × ℕ)) (j : RuntimeJournal)
      → active_count j.tables.generations ≤ 1
      → active_count (run f cs j).tables.generations ≤ 1
  run-active_count cs j h = any-run-keeps f _ (IsKept-changes f _ at_most_one) cs j h

  -- An activation that succeeds leaves exactly one generation active, the new one, and no decision
  -- bound under another.
  pub advance_generation-sole :
      (e : Engine) (g : GenerationAdvance) (now : ℕ) (j : RuntimeJournal)
      → (advance_generation f e g now j).0 ≡ ok tt
      → let t' = (advance_generation f e g now j).1.tables in
        (active_count t'.generations ≡ 1)
        × ((row : GenerationRow) × (lookup g.id t'.generations ≡ some row) × (row.is_active ≡ true))
        × (foreign_bound g.id t'.decisions ≡ 0)
  unfolding advance_generation active_count
  advance_generation-sole e g now j h =
      let done_ = command-ok e now (advance_rows f g now) j tt h in
      let (fresh, r) = advance_rows-inv f now j.tables _ g tt done_ in
      let frame = IsRecorded-IsFramed f _ _ r in
      let row : GenerationRow = record {
        bundle_digest = g.bundle_digest;
        profile_digest = g.profile_digest;
        build_id = g.build_id;
        activated_ms = now;
        is_active = true;
      } in
      (
        rw frame.generations (omega (arith, retired j.tables.generations)),
        (row, rw frame.generations (lookup-head g.id row _), refl),
        rw frame.decisions (none_foreign g.id j.tables.decisions),
      )
