-- ===== src/Journal/Command.antt =====
-- How each command of journal/runtime_journal.cpp runs: the quarantine, the clock, and one
-- transaction that is undone when it fails.
use qiven_runtime.Base.{ℕ, ◌≡◌, refl, subst, Bool, true, false, if◌then◌else◌}
use qiven_runtime.Journal.{
  Fault, Result, ok, err, ◌>>◌, ok-injective, Tables, RuntimeJournal, Engine,
}
use qiven_runtime.Journal.Audit.{deny_if_quarantined, check_clock}

module _ {ℓ} {A : Type ℓ} where
  -- A failure of the body rolls back, and so does a commit that fails.
  abbrev committed : Bool → Fault → Tables → Result (A × Tables) → Result A × Tables
  committed commits failure t (err e) = (err e, t)
  committed true failure t (ok (a, t')) = (ok a, t')
  committed false failure t (ok (a, t')) = (err failure, t)

  -- `JournalDb::txn`
  unfoldable pub txn : Engine → (Tables → Result (A × Tables)) → Tables → Result A × Tables
  txn e body t = if e.begins then committed e.commits e.failure t (body t) else (err e.failure, t)

-- `deny_if_quarantined`, then `check_clock`: how each command begins.
unfoldable pub admitted : ℕ → RuntimeJournal → Result (Unit {0}) × RuntimeJournal
unfolding deny_if_quarantined check_clock
admitted now j =
    let (denial, j') = deny_if_quarantined j in (denial >> check_clock now j'.tables, j')

module _ {ℓ} {A : Type ℓ} where
  -- The answer and the rows count only where the prelude has passed.
  abbrev gated : Result (Unit {0}) → Result A × Tables → RuntimeJournal → Result A × RuntimeJournal
  gated (err e) (answer, t) j = (err e, j)
  gated (ok _) (answer, t) j = (answer, record j { tables = t })

  unfoldable pub command :
      Engine → ℕ → (Tables → Result (A × Tables)) → RuntimeJournal → Result A × RuntimeJournal
  unfolding txn admitted
  command e now body j =
      let (prelude, j') = admitted now j in gated prelude (txn e body j'.tables) j'

  -- A transaction fails and changes nothing, or is what its body makes of the rows.
  pub data Ran (body : Tables → Result (A × Tables)) (t : Tables) : Result A → Tables → Type ℓ where
    undone : {e : Fault} → Ran body t (err e) t
    done : {a : A} {t' : Tables} → body t ≡ ok (a, t') → Ran body t (ok a) t'

  committed-Ran :
      (body : Tables → Result (A × Tables)) (commits : Bool) (failure : Fault) (t : Tables)
      (r : Result (A × Tables))
      → body t ≡ r
      → Ran body t (committed commits failure t r).0 (committed commits failure t r).1
  committed-Ran body commits failure t (err e) h = undone
  committed-Ran body true failure t (ok (a, t')) h = done h
  committed-Ran body false failure t (ok (a, t')) h = undone

  begun-Ran :
      (body : Tables → Result (A × Tables)) (begins commits : Bool) (failure : Fault) (t : Tables)
      → let out = if begins then committed commits failure t (body t) else (err failure, t) in
        Ran body t out.0 out.1
  begun-Ran body true commits failure t = committed-Ran body commits failure t (body t) refl
  begun-Ran body false commits failure t = undone

  pub txn-Ran :
      (e : Engine) (body : Tables → Result (A × Tables)) (t : Tables)
      → Ran body t (txn e body t).0 (txn e body t).1
  unfolding txn
  txn-Ran e body t = begun-Ran body e.begins e.commits e.failure t

  gated-Ran :
      (body : Tables → Result (A × Tables)) (prelude : Result (Unit {0})) (out : Result A × Tables)
      (j : RuntimeJournal)
      → Ran body j.tables out.0 out.1
      → Ran body j.tables (gated prelude out j).0 (gated prelude out j).1.tables
  gated-Ran body (err e) out j h = undone
  gated-Ran body (ok _) out j h = h

  pub command-Ran :
      (e : Engine) (now : ℕ) (body : Tables → Result (A × Tables)) (j : RuntimeJournal)
      → Ran body j.tables (command e now body j).0 (command e now body j).1.tables
  unfolding command admitted deny_if_quarantined
  command-Ran e now body j =
      gated-Ran body (admitted now j).0 (txn e body j.tables) (admitted now j).1
        (txn-Ran e body j.tables)

  -- A property that the body keeps is kept.
  pub Ran-keeps {κ} :
      (P : Tables → Type κ) {body : Tables → Result (A × Tables)} {t : Tables} {r : Result A}
      {t' : Tables}
      → Ran body t r t'
      → ((a : A) (t'' : Tables) → body t ≡ ok (a, t'') → P t → P t'')
      → P t
      → P t'
  Ran-keeps P undone keeps p = p
  Ran-keeps P (done h) keeps p = keeps _ _ h p

  -- A success is the body's.
  Ran-ok :
      {body : Tables → Result (A × Tables)} {t t' : Tables} {r : Result A} (a : A)
      → Ran body t r t'
      → r ≡ ok a
      → body t ≡ ok (a, t')
  Ran-ok a undone h = absurd (let no_way : ⊥ = cc in no_way)
  Ran-ok {body} {t} {t'} a (done {a = b} e) h =
      let same : b ≡ a = ok-injective h in subst (λ x. body t ≡ ok (x, t')) same e

  pub txn-ok :
      (e : Engine) (body : Tables → Result (A × Tables)) (t : Tables) (a : A)
      → (txn e body t).0 ≡ ok a
      → body t ≡ ok (a, (txn e body t).1)
  txn-ok e body t a h = Ran-ok a (txn-Ran e body t) h

  pub command-ok :
      (e : Engine) (now : ℕ) (body : Tables → Result (A × Tables)) (j : RuntimeJournal) (a : A)
      → (command e now body j).0 ≡ ok a
      → body j.tables ≡ ok (a, (command e now body j).1.tables)
  command-ok e now body j a h = Ran-ok a (command-Ran e now body j) h

  -- A command that fails leaves the rows as they were.
  Ran-err :
      {body : Tables → Result (A × Tables)} {t t' : Tables} {r : Result A} (fault : Fault)
      → Ran body t r t'
      → r ≡ err fault
      → t' ≡ t
  Ran-err fault undone h = refl
  Ran-err fault (done e) h = absurd (let no_way : ⊥ = cc in no_way)

  pub command-err :
      (e : Engine) (now : ℕ) (body : Tables → Result (A × Tables)) (j : RuntimeJournal)
      (fault : Fault)
      → (command e now body j).0 ≡ err fault
      → (command e now body j).1.tables ≡ j.tables
  command-err e now body j fault h = Ran-err fault (command-Ran e now body j) h

  pub command-keeps :
      (P : Tables → Type 0) (e : Engine) (now : ℕ) (j : RuntimeJournal)
      (body : Tables → Result (A × Tables))
      → ((t : Tables) (a : A) (t' : Tables) → body t ≡ ok (a, t') → P t → P t')
      → P j.tables
      → P (command e now body j).1.tables
  command-keeps P e now j body keeps p = Ran-keeps P (command-Ran e now body j) (keeps j.tables) p

  pub txn-keeps :
      (P : Tables → Type 0) (e : Engine) (t : Tables) (body : Tables → Result (A × Tables))
      → ((t : Tables) (a : A) (t' : Tables) → body t ≡ ok (a, t') → P t → P t')
      → P t
      → P (txn e body t).1
  txn-keeps P e t body keeps p = Ran-keeps P (txn-Ran e body t) (keeps t) p

-- What is done where a check has failed, and where it has not.
abbrev pub unless_failed {ℓ κ} : {A : Type ℓ} {B : Type κ} → Result A → (Fault → B) → B → B
unless_failed (err e) failing passing = failing e
unless_failed (ok _) failing passing = passing

pub unless_failed-keeps {ℓ κ} :
    {A : Type ℓ} {B : Type κ} (P : B → Type 0) (r : Result A) (failing : Fault → B) (passing : B)
    → ((e : Fault) → P (failing e))
    → P passing
    → P (unless_failed r failing passing)
unless_failed-keeps P (err e) failing passing h k = h e
unless_failed-keeps P (ok _) failing passing h k = k

pub unless_failed-passed {ℓ κ υ} :
    {A : Type ℓ} {B : Type κ} {C : Type υ} (r : Result A) (failing : Fault → Result B × C)
    (passing : Result B × C) (b : B)
    → ((e : Fault) → (failing e).0 ≡ err e)
    → (unless_failed r failing passing).0 ≡ ok b
    → unless_failed r failing passing ≡ passing
unless_failed-passed (err e) failing passing b fails h =
    let failed_ = fails e in absurd (let no_way : ⊥ = cc in no_way)
unless_failed-passed (ok _) failing passing b fails h = refl
