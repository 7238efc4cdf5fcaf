-- ===== src/Journal.antt =====
-- The durable journal of journal/runtime_journal.cpp, with journal/schema.cpp and
-- journal/recovery.cpp: its tables as rows, its failures, and the state that the object keeps in
-- memory. A table with a primary key is an association list, the audit log a list of rows, the
-- newest first. The SQL engine is not in this repository: its statements are read by their
-- documented meaning, and an engine that does not begin or does not commit is an input.
pub mod Text
pub mod Audit
pub mod Command
pub mod Control
pub mod Decisions
pub mod Effects
pub mod Barriers
pub mod Recovery
pub mod Resolution
pub mod Opening
pub mod Reads
pub mod Writes
pub mod Walks
pub mod Frames
pub mod Changes
pub mod Spent
pub mod Settled
pub mod Lives
pub mod Generations
pub mod Founding
pub mod Resumed
pub mod Leases
pub mod Numbers
pub mod Chaining
pub mod Runs
pub mod Intact
use qiven_runtime.Base.{ℕ, ◌≡◌, refl, List, Option, none, some, Bytes, Bool, true, false}
use qiven_runtime.Base.Text.{codes}

-- The code of the failure (51 to 55) and its text.
pub record Fault : Type 0 where
  pub code : ℕ
  pub message : Bytes

pub data Result {ℓ} (A : Type ℓ) : Type ℓ where
  ok : A → Result A
  err : Fault → Result A

infixl 5 ◌>>=◌ ◌>>◌
abbrev pub ◌>>=◌ {ℓ κ} : {A : Type ℓ} {B : Type κ} → Result A → (A → Result B) → Result B
ok a >>= k = k a
err e >>= k = err e

abbrev pub ◌>>◌ {ℓ} : {A : Type ℓ} → Result (Unit {0}) → Result A → Result A
m >> k = m >>= λ _. k

-- A bind succeeds only as its parts do.
pub >>=-inv {ℓ κ} :
    {A : Type ℓ} {B : Type κ} (m : Result A) (k : A → Result B) {b : B}
    → (m >>= k) ≡ ok b
    → (a : A) × (m ≡ ok a) × (k a ≡ ok b)
>>=-inv (ok a) k h = (a, refl, h)
>>=-inv (err e) k h = cc

pub ok-injective {ℓ} : {A : Type ℓ} {a b : A} → ok a ≡ ok b → a ≡ b
ok-injective h = cc

abbrev pub guard : Bool → Fault → Result (Unit {0})
guard true e = ok tt
guard false e = err e

-- `read_state_by_i64` and its like: the row, or the failure.
abbrev pub found {ℓ} : {A : Type ℓ} → Option A → Fault → Result A
found none e = err e
found (some a) e = ok a

abbrev pub err_open : Bytes → Fault
err_open message = record { code = 51; message = message }

abbrev pub err_migration : Bytes → Fault
err_migration message = record { code = 52; message = message }

abbrev pub err_constraint : Bytes → Fault
err_constraint message = record { code = 53; message = message }

abbrev pub err_chain : Bytes → Fault
err_chain message = record { code = 54; message = message }

abbrev pub err_clock : Bytes → Fault
err_clock message = record { code = 55; message = message }

-- What a statement that breaks a UNIQUE or PRIMARY KEY constraint answers.
abbrev pub constraint_failed : Fault
constraint_failed = err_open (codes "journal-stmt-step: constraint failed")

-- The texts that the state columns of transactions and dispatches admit; a dispatch takes the last
-- six and `prepared`.
pub data TxState : Type 0 where
  observed judging redeliberate denied decided : TxState
  prepared dispatched succeeded failed indeterminate quarantined : TxState

abbrev pub state_text : TxState → Bytes
state_text observed = codes "observed"
state_text judging = codes "judging"
state_text redeliberate = codes "redeliberate"
state_text denied = codes "denied"
state_text decided = codes "decided"
state_text prepared = codes "prepared"
state_text dispatched = codes "dispatched"
state_text succeeded = codes "succeeded"
state_text failed = codes "failed"
state_text indeterminate = codes "indeterminate"
state_text quarantined = codes "quarantined"

pub data DecisionState : Type 0 where
  bound consumed stale : DecisionState

pub record GenerationRow : Type 0 where
  pub bundle_digest : Bytes
  pub profile_digest : Bytes
  pub build_id : Bytes
  pub activated_ms : ℕ
  -- 'active' or 'retired'
  pub is_active : Bool

pub record SessionRow : Type 0 where
  pub generation : ℕ
  pub actor : Option ℕ
  pub harness : Bytes
  pub opened_ms : ℕ

pub record TransactionRow : Type 0 where
  pub boot_epoch : ℕ
  pub causal_parent : Option ℕ
  pub correlation : Bytes
  pub request_digest : Bytes
  pub base_revision : Option Bytes
  pub state : TxState

pub record DecisionRow : Type 0 where
  pub token_hash : Bytes
  pub transaction : ℕ
  pub generation : ℕ
  pub binding_digest : Bytes
  pub expires_ms : ℕ
  pub state : DecisionState
  pub consumed_ms : Option ℕ

pub record LeaseRow : Type 0 where
  pub holder_install : Bytes
  pub boot_epoch : ℕ
  pub fencing_epoch : ℕ
  pub acquired_ms : ℕ
  pub expires_ms : ℕ

pub record DispatchRow : Type 0 where
  pub transaction : ℕ
  pub plan_digest : Bytes
  pub state : TxState
  pub started_ms : ℕ
  pub done_ms : Option ℕ

pub record OutcomeRow : Type 0 where
  pub status : TxState
  pub ref_observed : Option Bytes
  pub validator_digest : Option Bytes
  pub observed_ms : ℕ

pub record BarrierRow : Type 0 where
  pub reason : Bytes
  pub opened_ms : ℕ
  pub closed_ms : Option ℕ
  pub evidence : Bytes

pub record AuditRow : Type 0 where
  pub seq : ℕ
  pub prev_hash : Bytes
  pub event_hash : Bytes
  pub kind : Bytes
  pub payload : Bytes

pub record Tables : Type 0 where
  pub meta : List (Bytes × Bytes)
  pub generations : List (ℕ × GenerationRow)
  pub sessions : List (ℕ × SessionRow)
  pub transactions : List (ℕ × TransactionRow)
  pub decisions : List (Bytes × DecisionRow)
  pub leases : List (Bytes × LeaseRow)
  pub dispatches : List (Bytes × DispatchRow)
  pub outcomes : List (Bytes × OutcomeRow)
  pub barriers : List (Bytes × BarrierRow)
  pub audit : List AuditRow

-- What is durable, and what the object holds in memory.
pub record RuntimeJournal : Type 0 where
  pub tables : Tables
  pub install_id : Bytes
  pub boot_epoch : ℕ
  pub is_quarantined : Bool
  pub audit_append_failures : ℕ

-- How the engine takes one transaction. A statement that fails within it has the effect of a
-- commit that fails: the rows are as before, and the engine's failure is the answer.
pub record Engine : Type 0 where
  pub begins : Bool
  pub commits : Bool
  pub failure : Fault
