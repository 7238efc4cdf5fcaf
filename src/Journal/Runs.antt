-- ===== src/Journal/Runs.antt =====
-- Runs of a journal: any commands of journal/runtime_journal.cpp with any engine, recoveries
-- included, one after the other; and what a property of the rows needs to hold all along.
use qiven_runtime.Base.{
  ℕ, ◌+◌, ◌%◌, ◌^◌, ◌++◌, ◌≡◌, ◌≢◌, subst, arith, Bool, Option, none, some, List, [], ◌∷◌, Bytes,
  length,
}
use qiven_runtime.Base.Text.{codes}
use qiven_runtime.Foundation.{Foundation}
use qiven_runtime.Journal.{
  Result, ok, err, ◌>>=◌, ◌>>◌, err_constraint, TxState, Tables, RuntimeJournal, Engine,
}
use qiven_runtime.Journal.Audit.{
  deny_if_quarantined, check_clock, verify_audit_chain, write_meta, key_quarantine,
}
use qiven_runtime.Journal.Command.{command-keeps, txn-keeps, unless_failed-keeps, admitted, command}
use qiven_runtime.Journal.Control.{
  SessionOpen, TransactionOpen, session_rows, transaction_rows, evidence_rows, open_session,
  open_transaction, accept_evidence,
}
use qiven_runtime.Journal.Decisions.{
  DecisionBind, GenerationAdvance, bind_rows, consume_rows, advance_rows, bind_decision,
  consume_decision, advance_generation,
}
use qiven_runtime.Journal.Effects.{
  LeaseRequest, DispatchPrepared, OutcomeRecord, lease_rows, dispatch_rows, outcome_rows,
  acquire_lease, record_dispatch_prepared, record_outcome, outcome_status,
}
use qiven_runtime.Journal.Barriers.{
  BarrierOpen, JournalRecord, barrier_rows, closing_rows, audit_rows, append_rows, open_barrier,
  close_barrier, append_audit_at, append,
}
use qiven_runtime.Journal.Recovery.{
  recovery_rows, recover_at, mark_quarantined, recovery_walk, JournalRecoveryReport,
}
use qiven_runtime.Journal.Resolution.{PendingDispatch, DispatchResolution}

-- A command with its arguments; `recovering` holds the inspector, the integrity check and the
-- engine of the quarantine flag.
pub data JournalCommand : Type 0 where
  opening_session : SessionOpen → JournalCommand
  opening_transaction : TransactionOpen → JournalCommand
  accepting_evidence : ℕ → List Bytes → JournalCommand
  binding : DecisionBind → JournalCommand
  consuming : Bytes → JournalCommand
  advancing : GenerationAdvance → JournalCommand
  acquiring : LeaseRequest → JournalCommand
  preparing : DispatchPrepared → JournalCommand
  observing : OutcomeRecord → JournalCommand
  opening_barrier : BarrierOpen → JournalCommand
  closing_barrier : Bytes → Bytes → JournalCommand
  auditing : Bytes → Bytes → JournalCommand
  appending : JournalRecord → JournalCommand
  recovering : (PendingDispatch → DispatchResolution) → Result Bool → Engine → JournalCommand

-- That the audit kind which a command names itself is as `N` says.
abbrev pub IsNamed : (Bytes → Type 0) → JournalCommand → Type 0
IsNamed N (auditing kind payload) = N kind
IsNamed N _ = Unit

abbrev pub AllNamed : (Bytes → Type 0) → List (JournalCommand × Engine × ℕ) → Type 0
AllNamed N [] = Unit
AllNamed N ((c, _, _) ∷ rest) = IsNamed N c × AllNamed N rest

abbrev pub AnyKind : Bytes → Type 0
AnyKind kind = Unit

abbrev pub IsNonempty : Bytes → Type 0
IsNonempty kind = length kind ≢ 0

any_IsNamed : (c : JournalCommand) → IsNamed AnyKind c
any_IsNamed c = ground arith

any_AllNamed : (cs : List (JournalCommand × Engine × ℕ)) → AllNamed AnyKind cs
any_AllNamed [] = tt
any_AllNamed ((c, _, _) ∷ rest) = (any_IsNamed c, any_AllNamed rest)

module _ (f : Foundation) where
  -- The journal after one command.
  unfoldable pub step : JournalCommand × Engine × ℕ → RuntimeJournal → RuntimeJournal
  step (opening_session s, e, now) j = (open_session f e s now j).1
  step (opening_transaction o, e, now) j = (open_transaction f e o now j).1
  step (accepting_evidence tx evidence, e, now) j = (accept_evidence f e tx evidence now j).1
  step (binding d, e, now) j = (bind_decision f e d now j).1
  step (consuming id, e, now) j = (consume_decision f e id now j).1
  step (advancing g, e, now) j = (advance_generation f e g now j).1
  step (acquiring q, e, now) j = (acquire_lease f e q now j).1
  step (preparing d, e, now) j = (record_dispatch_prepared f e d now j).1
  step (observing o, e, now) j = (record_outcome f e o now j).1
  step (opening_barrier b, e, now) j = (open_barrier f e b now j).1
  step (closing_barrier scope evidence, e, now) j = (close_barrier f e scope evidence now j).1
  step (auditing kind payload, e, now) j = (append_audit_at f e kind payload now j).1
  step (appending r, e, now) j = (append f e r now j).1
  step (recovering inspect check flagging, e, now) j =
      (recover_at f inspect check flagging e now j).1

  unfoldable pub run : List (JournalCommand × Engine × ℕ) → RuntimeJournal → RuntimeJournal
  unfolding step
  run [] j = j
  run (c ∷ rest) j = run rest (step c j)

-- That the body of a transaction keeps a property of the rows whenever it succeeds.
abbrev pub Keeps {ℓ} : {A : Type ℓ} → (Tables → Type 0) → (Tables → Result (A × Tables)) → Type ℓ
Keeps {A = A} P body = (t : Tables) (a : A) (t' : Tables) → body t ≡ ok (a, t') → P t → P t'

-- A property that each body keeps, and the quarantine flag too.
pub record IsKept (f : Foundation) (N : Bytes → Type 0) (P : Tables → Type 0) : Type 0 where
  pub session_rows-keeps : (s : SessionOpen) (now : ℕ) → Keeps P (session_rows f s now)
  pub transaction_rows-keeps :
      (epoch : ℕ) (o : TransactionOpen) (now : ℕ) → Keeps P (transaction_rows f epoch o now)
  pub evidence_rows-keeps :
      (tx : ℕ) (evidence : List Bytes) (now : ℕ) → Keeps P (evidence_rows f tx evidence now)
  pub bind_rows-keeps : (d : DecisionBind) (now : ℕ) → Keeps P (bind_rows f d now)
  pub consume_rows-keeps : (id : Bytes) (now : ℕ) → Keeps P (consume_rows f id now)
  pub advance_rows-keeps : (g : GenerationAdvance) (now : ℕ) → Keeps P (advance_rows f g now)
  pub lease_rows-keeps :
      (epoch : ℕ) (q : LeaseRequest) (now : ℕ) → Keeps P (lease_rows f epoch q now)
  pub dispatch_rows-keeps : (d : DispatchPrepared) (now : ℕ) → Keeps P (dispatch_rows f d now)
  pub outcome_rows-keeps :
      (o : OutcomeRecord) (status : TxState) (now : ℕ) → Keeps P (outcome_rows f o status now)
  pub barrier_rows-keeps : (b : BarrierOpen) (now : ℕ) → Keeps P (barrier_rows f b now)
  pub closing_rows-keeps :
      (scope evidence : Bytes) (now : ℕ) → Keeps P (closing_rows f scope evidence now)
  pub audit_rows-keeps :
      (kind payload : Bytes) (now : ℕ) → N kind → Keeps P (audit_rows f kind payload now)
  pub append_rows-keeps : (r : JournalRecord) (now : ℕ) → Keeps P (append_rows f r now)
  pub recovery_rows-keeps :
      (inspect : PendingDispatch → DispatchResolution) (epoch now : ℕ)
      → Keeps P (recovery_rows f inspect epoch now)
  pub flag-keeps : (t : Tables) (value : Bytes) → P t → P (write_meta key_quarantine value t)

module _ (f : Foundation) (N : Bytes → Type 0) (P : Tables → Type 0) (kept : IsKept f N P) where
  outcome-keeps :
      (o : OutcomeRecord) (e : Engine) (now : ℕ) (j : RuntimeJournal)
      → P j.tables
      → P (record_outcome f e o now j).1.tables
  unfolding record_outcome admitted deny_if_quarantined
  outcome-keeps o e now j p = go (outcome_status o.status)
    where
      go :
          (status : Option TxState)
          → P
              (elim status as (λ s. Result (Unit {0}) × RuntimeJournal) [
                | none ↦ (
                  (admitted now j).0
                      >> err (err_constraint (codes "outcome-status-invalid: " ++ o.status)),
                  (admitted now j).1,
                )
                | some s ↦ command e now (outcome_rows f o s now) j
              ]).1.tables
      go none = p
      go (some s) =
          command-keeps P e now j (outcome_rows f o s now) (kept.outcome_rows-keeps o s now) p

  flagged : (flagging : Engine) (t : Tables) → P t → P (mark_quarantined f flagging t)
  unfolding mark_quarantined
  flagged flagging t p =
      txn-keeps {0} {A = Unit {0}} P flagging t
        (λ t. ok (tt, write_meta key_quarantine (codes "1") t))
        (λ t a t' h p.
          let same : write_meta key_quarantine (codes "1") t ≡ t' = cc in
          subst P same (kept.flag-keeps t (codes "1") p))
        p

  walked :
      (inspect : PendingDispatch → DispatchResolution) (e : Engine) (now : ℕ) (j : RuntimeJournal)
      → P j.tables
      → P (recovery_walk f inspect e now j).1.tables
  unfolding recovery_walk
  walked inspect e now j p =
      let epoch = (j.boot_epoch + 1) % 2 ^ 64 in
      txn-keeps P e j.tables (recovery_rows f inspect epoch now)
        (kept.recovery_rows-keeps inspect epoch now) p

  pub step-keeps :
      (c : JournalCommand) (e : Engine) (now : ℕ) (j : RuntimeJournal)
      → IsNamed N c
      → P j.tables
      → P (step f (c, e, now) j).tables
  unfolding step open_session open_transaction accept_evidence bind_decision consume_decision
      advance_generation acquire_lease record_dispatch_prepared open_barrier close_barrier append
      append_audit_at recover_at admitted deny_if_quarantined
  step-keeps (opening_session s) e now j named p =
      command-keeps P e now j (session_rows f s now) (kept.session_rows-keeps s now) p
  step-keeps (opening_transaction o) e now j named p =
      command-keeps P e now j (transaction_rows f j.boot_epoch o now)
        (kept.transaction_rows-keeps j.boot_epoch o now) p
  step-keeps (accepting_evidence tx evidence) e now j named p =
      command-keeps P e now j (evidence_rows f tx evidence now)
        (kept.evidence_rows-keeps tx evidence now) p
  step-keeps (binding d) e now j named p =
      command-keeps P e now j (bind_rows f d now) (kept.bind_rows-keeps d now) p
  step-keeps (consuming id) e now j named p =
      command-keeps P e now j (consume_rows f id now) (kept.consume_rows-keeps id now) p
  step-keeps (advancing g) e now j named p =
      command-keeps P e now j (advance_rows f g now) (kept.advance_rows-keeps g now) p
  step-keeps (acquiring q) e now j named p =
      command-keeps P e now j (lease_rows f j.boot_epoch q now)
        (kept.lease_rows-keeps j.boot_epoch q now) p
  step-keeps (preparing d) e now j named p =
      command-keeps P e now j (dispatch_rows f d now) (kept.dispatch_rows-keeps d now) p
  step-keeps (observing o) e now j named p = outcome-keeps o e now j p
  step-keeps (opening_barrier b) e now j named p =
      command-keeps P e now j (barrier_rows f b now) (kept.barrier_rows-keeps b now) p
  step-keeps (closing_barrier scope evidence) e now j named p =
      command-keeps P e now j (closing_rows f scope evidence now)
        (kept.closing_rows-keeps scope evidence now) p
  step-keeps (auditing kind payload) e now j named p =
      unless_failed-keeps (λ (out : Result (Unit {0}) × RuntimeJournal). P out.1.tables)
        (admitted now j).0 _ _ (λ fault. p)
        (txn-keeps P e j.tables (audit_rows f kind payload now)
          (kept.audit_rows-keeps kind payload now named) p)
  step-keeps (appending r) e now j named p =
      command-keeps P e now j (append_rows f r now) (kept.append_rows-keeps r now) p
  step-keeps (recovering inspect check flagging) e now j named p =
      unless_failed-keeps (λ (out : Result JournalRecoveryReport × RuntimeJournal). P out.1.tables)
        (check >>= λ _. verify_audit_chain f j.tables) _ _ (λ fault. flagged flagging j.tables p)
        (unless_failed-keeps
          (λ (out : Result JournalRecoveryReport × RuntimeJournal). P out.1.tables)
          (check_clock now j.tables) _ _ (λ fault. p) (walked inspect e now j p))

  pub run-keeps :
      (cs : List (JournalCommand × Engine × ℕ)) (j : RuntimeJournal)
      → AllNamed N cs
      → P j.tables
      → P (run f cs j).tables
  unfolding run
  run-keeps [] j named p = p
  run-keeps ((c, e, now) ∷ rest) j (first, others) p =
      run-keeps rest (step f (c, e, now) j) others (step-keeps c e now j first p)

pub any-run-keeps :
    (f : Foundation) (P : Tables → Type 0)
    → IsKept f AnyKind P
    → (cs : List (JournalCommand × Engine × ℕ)) (j : RuntimeJournal) → P j.tables
    → P (run f cs j).tables
any-run-keeps f P kept cs j p = run-keeps f AnyKind P kept cs j (any_AllNamed cs) p
