-- ===== src/Executor.antt =====
-- executor.cpp and executor.hpp: the bounded executor of resolver tasks. Each block under the lock
-- is one step; `workers` threads run the steps of `worker_loop` in any interleaving. Running a task
-- is the caller's business, so the pool counts it and hands it out.
pub mod Accounting
use qiven_runtime.Base.{
  ℕ, ◌+◌, ◌-◌, ◌≡◌, Bool, true, false, ◌&&◌, ◌||◌, List, [], ◌∷◌, ◌++◌, Option, none, some, length,
  leb, ltb, nat_beq, if◌then◌else◌,
}

pub record Executor {ℓ} (T : Type ℓ) : Type ℓ where
  pub capacity : ℕ
  pub workers : ℕ
  pub pending : List T
  pub running : ℕ
  pub is_shutdown : Bool
  pub max_concurrency : ℕ
  pub exceptions : ℕ

module _ {ℓ} {T : Type ℓ} where
  unfoldable pub make_executor : ℕ → ℕ → Option (Executor T)
  make_executor workers capacity =
      if nat_beq workers 0 || nat_beq capacity 0
      then none
      else some (record {
        capacity = capacity;
        workers = workers;
        pending = [];
        running = 0;
        is_shutdown = false;
        max_concurrency = 0;
        exceptions = 0;
      })

  unfoldable pub submit : Executor T → T → Executor T × Bool
  submit x task =
      if x.is_shutdown || leb x.capacity (length x.pending)
      then (x, false)
      else (record x { pending = x.pending ++ task ∷ [] }, true)

  take_first : Executor T → List T → Option (T × Executor T)
  take_first x [] = none
  take_first x (task ∷ rest) = some (task, record x { pending = rest; running = x.running + 1 })

  -- A worker takes the first task; then it raises the high-water mark.
  unfoldable pub begin_task : Executor T → Option (T × Executor T)
  unfolding take_first
  begin_task x = take_first x x.pending

  unfoldable pub note_concurrency : Executor T → Executor T
  note_concurrency x = record x {
    max_concurrency = if ltb x.max_concurrency x.running then x.running else x.max_concurrency;
  }

  -- The end of a task, which may have thrown.
  unfoldable pub finish_task : Executor T → Bool → Executor T
  finish_task x threw = record x {
    running = x.running - 1;
    exceptions = if threw then x.exceptions + 1 else x.exceptions;
  }

  unfoldable pub shutdown : Executor T → Executor T
  shutdown x = record x { is_shutdown = true }

  -- The condition that `wait_all` waits for.
  unfoldable pub is_idle : Executor T → Bool
  is_idle x = nat_beq (length x.pending) 0 && nat_beq x.running 0

-- The pool, with the tasks that have been accepted and started up to now, and the number finished.
pub record Run {ℓ} (T : Type ℓ) : Type ℓ where
  pub pool : Executor T
  pub submitted : List T
  pub started : List T
  pub finished : ℕ

module _ {ℓ} {T : Type ℓ} where
  pub data RunStep (r : Run T) : Run T → Type ℓ where
    submits :
        (task : T) (x : Executor T)
        → submit r.pool task ≡ (x, true)
        → RunStep r (record r { pool = x; submitted = r.submitted ++ task ∷ [] })
    refuses : (task : T) → (submit r.pool task).1 ≡ false → RunStep r r
    begins :
        (task : T) (x : Executor T)
        → begin_task r.pool ≡ some (task, x)
        → ltb r.pool.running r.pool.workers ≡ true
        → RunStep r (record r { pool = x; started = r.started ++ task ∷ [] })
    notes : RunStep r (record r { pool = note_concurrency r.pool })
    finishes :
        (threw : Bool)
        → ltb 0 r.pool.running ≡ true
        → RunStep r (record r { pool = finish_task r.pool threw; finished = r.finished + 1 })
    shuts_down : RunStep r (record r { pool = shutdown r.pool })

  pub data RunReach (r : Run T) : Run T → Type ℓ where
    here : RunReach r r
    next : {s u : Run T} → RunReach r s → RunStep s u → RunReach r u
