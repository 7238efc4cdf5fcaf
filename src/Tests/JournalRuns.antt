-- ===== src/Tests/JournalRuns.antt =====
-- Runs of the journal of journal/runtime_journal.cpp, at which its theorems are applied.
use qiven_runtime.Base.{
  ℕ, ◌+◌, ◌≡◌, ◌≢◌, refl, arith, true, false, none, some, List, [], ◌∷◌, ◌++◌, Bytes, lookup,
  bytes_beq, nat_eq, bytes_eq,
}
use qiven_runtime.Base.Text.{codes, to_string}
use qiven_runtime.Journal.{
  ok, TxState, observed, prepared, succeeded, bound, GenerationRow, TransactionRow, DecisionRow,
  DispatchRow, RuntimeJournal, Engine,
}
use qiven_runtime.Journal.Text.{parse_u64, parse_digit}
use qiven_runtime.Journal.Audit.{verify_audit_chain}
use qiven_runtime.Journal.Decisions.{GenerationAdvance, consume_decision, advance_generation}
use qiven_runtime.Journal.Effects.{LeaseRequest, LeaseState, acquire_lease}
use qiven_runtime.Journal.Recovery.{JournalRecoveryReport, recover_at}
use qiven_runtime.Journal.Resolution.{
  PendingDispatch, DispatchResolution, not_performed, pending_of,
}
use qiven_runtime.Journal.Reads.{lease_of}
use qiven_runtime.Journal.Opening.{
  open_journal, opened_with, create_new, open_existing, absent, journal,
}
use qiven_runtime.Journal.Runs.{JournalCommand, advancing, recovering, auditing, run}
use qiven_runtime.Journal.Intact.{run-verified}
use qiven_runtime.Journal.Spent.{consumed_once}
use qiven_runtime.Journal.Lives.{Moves, view, run-refines}
use qiven_runtime.Journal.Generations.{active_count, foreign_bound, advance_generation-sole}
use qiven_runtime.Journal.Founding.{new_tables, verified_new_tables, open_journal-open_journal}
use qiven_runtime.Journal.Resumed.{recover_at-resolved}
use qiven_runtime.Journal.Leases.{IsFree, fence_in, acquire_lease-fenced}
use qiven_runtime.Journal.Numbers.{parse_u64-to_string}
use qiven_runtime.Tests.Fixtures.{toy, toy-IsLawful}

abbrev working : Engine
working = record { begins = true; commits = true; failure = record { code = 51; message = [] } }

abbrev broken : Engine
broken = record { begins = true; commits = false; failure = record { code = 51; message = [] } }

abbrev transaction_row : TxState → TransactionRow
transaction_row state = record {
  boot_epoch = 0;
  causal_parent = none;
  correlation = codes "k";
  request_digest = [];
  base_revision = none;
  state = state;
}

abbrev decision_row : DecisionRow
decision_row = record {
  token_hash = 7 ∷ [];
  transaction = 1;
  generation = 1;
  binding_digest = [];
  expires_ms = 100;
  state = bound;
  consumed_ms = none;
}

abbrev generation_row : GenerationRow
generation_row = record {
  bundle_digest = [];
  profile_digest = [];
  build_id = codes "b";
  activated_ms = 1;
  is_active = true;
}

abbrev dispatch_id : Bytes
dispatch_id = 1 ∷ 2 ∷ 3 ∷ 4 ∷ 5 ∷ 6 ∷ 7 ∷ 8 ∷ 9 ∷ 10 ∷ 11 ∷ 12 ∷ 13 ∷ 14 ∷ 15 ∷ 16 ∷ []

abbrev dispatch_row : DispatchRow
dispatch_row = record {
  transaction = 2;
  plan_digest = dispatch_id ++ dispatch_id;
  state = prepared;
  started_ms = 6;
  done_ms = none;
}

-- One bound decision, one settled transaction, and one dispatch under way.
abbrev busy : RuntimeJournal
busy =
    opened_with
      (record (new_tables toy (1 ∷ []) 5) {
        generations = (1, generation_row) ∷ [];
        transactions =
            (3, transaction_row succeeded)
            ∷ (2, transaction_row prepared)
            ∷ (1, transaction_row observed)
            ∷ [];
        decisions = (9 ∷ [], decision_row) ∷ [];
        dispatches = (dispatch_id, dispatch_row) ∷ [];
      })
      (codes "01") 0

abbrev fail_everything : PendingDispatch → DispatchResolution
fail_everything =
    λ d. record { classification = not_performed; reconstructed_status = none; ref_observed = none }

abbrev next_generation : GenerationAdvance
next_generation = record { id = 2; bundle_digest = []; profile_digest = []; build_id = codes "c" }

abbrev busy_run : List (JournalCommand × Engine × ℕ)
busy_run =
    (recovering fail_everything (ok true) working, working, 8)
    ∷ (advancing next_generation, broken, 9)
    ∷ (auditing (codes "note") (codes "text"), working, 10)
    ∷ []

run-verified_example :
    verify_audit_chain toy
      (run toy busy_run (opened_with (new_tables toy (1 ∷ []) 5) (codes "01") 0)).tables
    ≡ ok tt
run-verified_example =
    run-verified toy toy-IsLawful busy_run (opened_with (new_tables toy (1 ∷ []) 5) (codes "01") 0)
      (tt, (tt, ((omega arith), tt))) (verified_new_tables toy (1 ∷ []) 5 toy-IsLawful)

consumed_once_example :
    (consume_decision toy working
      (9 ∷ [])
      8
      (run toy busy_run (consume_decision toy working (9 ∷ []) 7 busy).1)).0
    ≢ ok tt
unfolding consume_decision lookup bytes_beq parse_u64 to_string parse_digit
consumed_once_example = consumed_once toy (9 ∷ []) working working 7 8 busy_run busy refl

run-refines_example :
    Moves (view (9 ∷ []) busy.tables) (view (9 ∷ []) (run toy busy_run busy).tables)
run-refines_example = run-refines toy busy_run busy (9 ∷ [])

advances : (advance_generation toy working next_generation 9 busy).0 ≡ ok tt
unfolding advance_generation lookup bytes_beq parse_u64 to_string parse_digit
advances = refl

advance_generation-sole_example :
    let t' = (advance_generation toy working next_generation 9 busy).1.tables in
    (active_count t'.generations ≡ 1)
    × ((row : GenerationRow) × (lookup 2 t'.generations ≡ some row) × (row.is_active ≡ true))
    × (foreign_bound 2 t'.decisions ≡ 0)
advance_generation-sole_example =
    advance_generation-sole toy working next_generation 9 busy advances

abbrev busy_report : JournalRecoveryReport
busy_report = record {
  classification = not_performed;
  unresolved_transactions = 1;
  barriers_opened = 0;
  audit_chain_verified = true;
}

recovers : (recover_at toy fail_everything (ok true) working working 8 busy).0 ≡ ok busy_report
unfolding recover_at lookup bytes_beq parse_u64 to_string parse_digit
recovers = refl

recover_at-resolved_example :
    let t' = (recover_at toy fail_everything (ok true) working working 8 busy).1.tables in
    pending_of t'.outcomes t'.dispatches ≡ []
recover_at-resolved_example =
    recover_at-resolved toy fail_everything (ok true) working working 8 busy busy_report recovers
      (ground arith)

abbrev request : LeaseRequest
request = record { workspace = codes "w"; holder_install = codes "01"; ttl_ms = 30 }

abbrev granted : LeaseState
granted = record {
  workspace = codes "w";
  row = record {
    holder_install = codes "01";
    boot_epoch = 0;
    fencing_epoch = 1;
    acquired_ms = 9;
    expires_ms = 39;
  };
}

leases_out : (acquire_lease toy working request 9 busy).0 ≡ ok granted
unfolding acquire_lease lookup bytes_beq parse_u64 to_string parse_digit
leases_out = refl

acquire_lease-fenced_example :
    IsFree request 9 (lookup (codes "w") busy.tables.leases)
    × (1 ≡ fence_in (lookup (codes "w") busy.tables.leases) + 1)
    × (0 ≡ busy.boot_epoch)
    × (codes "01" ≡ codes "01")
    × (lease_of (codes "w") (acquire_lease toy working request 9 busy).1.tables ≡ some granted)
unfolding lookup
acquire_lease-fenced_example =
    acquire_lease-fenced toy working request 9 busy granted (omega arith) leases_out

parse_u64-to_string_example : parse_u64 (to_string 1234567890) ≡ some 1234567890
parse_u64-to_string_example = parse_u64-to_string 1234567890 (omega arith)

open_journal-open_journal_example :
    (j : RuntimeJournal) × (open_journal toy working (ok true) create_new absent (1 ∷ []) 5 ≡ ok j)
    × (verify_audit_chain toy j.tables ≡ ok tt)
    × (j.boot_epoch ≡ 0)
    × (open_journal toy broken (ok true) open_existing (journal j.tables) [] 6 ≡ ok j)
open_journal-open_journal_example =
    open_journal-open_journal toy (1 ∷ []) 5 working broken true true 6 [] toy-IsLawful refl refl
