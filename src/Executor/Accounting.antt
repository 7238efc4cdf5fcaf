-- ===== src/Executor/Accounting.antt =====
-- No accepted task is lost, reordered or run twice, and the bounds hold.
use mathlib.Core.List.{append_assoc, append-nil}
use qiven_runtime.Base.{
  ℕ, ◌+◌, ◌≤◌, ◌<◌, ◌≡◌, refl, sym, ap, ◌∙◌, Bool, true, List, [], ◌∷◌, ◌++◌, some, arith, length,
  length-append, ltb, nat_beq,
}
use qiven_runtime.Executor.{
  Executor, Run, RunStep, submits, refuses, begins, notes, finishes, shuts_down, RunReach, here,
  next, make_executor, submit, begin_task, note_concurrency, finish_task, shutdown, is_idle,
}

module _ {ℓ} {T : Type ℓ} where
  pub record IsAccounted (r : Run T) : Type ℓ where
    -- What was accepted is what was started, and then what still waits, in order.
    pub in_order : r.submitted ≡ r.started ++ r.pool.pending
    -- What was started is running or has finished.
    pub all_counted : length r.started ≡ r.pool.running + r.finished
    pub within_workers : r.pool.running ≤ r.pool.workers
    pub within_capacity : length r.pool.pending ≤ r.pool.capacity
    pub marked : r.pool.max_concurrency ≤ r.pool.workers

  submit_inv :
      (x y : Executor T) (task : T)
      → submit x task ≡ (y, true)
      → (y ≡ record x { pending = x.pending ++ task ∷ [] }) × (length x.pending < x.capacity)
  unfolding submit
  submit_inv x y task h = (ground arith, ground arith)

  begin_inv :
      (x y : Executor T) (task : T)
      → begin_task x ≡ some (task, y)
      → (x.pending ≡ task ∷ y.pending)
        × (y.running ≡ x.running + 1)
        × (y.workers ≡ x.workers)
        × (y.capacity ≡ x.capacity)
        × (y.max_concurrency ≡ x.max_concurrency)
  unfolding begin_task
  begin_inv x y task h = (ground arith, ground arith, ground arith, ground arith, ground arith)

  notes_kept :
      (r : Run T) → IsAccounted r → IsAccounted (record r { pool = note_concurrency r.pool })
  unfolding note_concurrency
  notes_kept r h = record {
    in_order = h.in_order;
    all_counted = h.all_counted;
    within_workers = h.within_workers;
    within_capacity = h.within_capacity;
    marked = ground (arith, h.marked, h.within_workers);
  }

  finish_kept :
      (r : Run T) (threw : Bool)
      → ltb 0 r.pool.running ≡ true
      → IsAccounted r
      → IsAccounted (record r { pool = finish_task r.pool threw; finished = r.finished + 1 })
  unfolding finish_task
  finish_kept r threw e h = record {
    in_order = h.in_order;
    all_counted = ground (arith, h.all_counted);
    within_workers = ground (arith, h.within_workers);
    within_capacity = h.within_capacity;
    marked = h.marked;
  }

  RunStep-IsAccounted : {r s : Run T} → RunStep r s → IsAccounted r → IsAccounted s
  RunStep-IsAccounted {r} (submits task x e) h =
      let inv = submit_inv r.pool x task e in
      record {
        in_order = rw inv.0 (
            ap (λ (l : List T). l ++ task ∷ []) h.in_order
            ∙ append_assoc r.started r.pool.pending (task ∷ []));
        all_counted = rw inv.0 h.all_counted;
        within_workers = rw inv.0 h.within_workers;
        within_capacity = rw inv.0 (omega (arith, length-append r.pool.pending (task ∷ []), inv.1));
        marked = rw inv.0 h.marked;
      }
  RunStep-IsAccounted (refuses task e) h = h
  RunStep-IsAccounted {r} (begins task x e w) h =
      let inv = begin_inv r.pool x task e in
      record {
        in_order =
            h.in_order
            ∙ ap (◌++◌ r.started) inv.0
            ∙ sym (append_assoc r.started (task ∷ []) x.pending);
        all_counted = omega (arith, h.all_counted, inv.1, length-append r.started (task ∷ []));
        within_workers = ground (arith, inv.1, inv.2, h.within_workers);
        within_capacity = omega (arith, ap length inv.0, inv.3, h.within_capacity);
        marked = omega (arith, inv.2, inv.4, h.marked);
      }
  RunStep-IsAccounted {r} notes h = notes_kept r h
  RunStep-IsAccounted {r} (finishes threw e) h = finish_kept r threw e h
  RunStep-IsAccounted shuts_down h =
      unfold shutdown in
      record {
        in_order = h.in_order;
        all_counted = h.all_counted;
        within_workers = h.within_workers;
        within_capacity = h.within_capacity;
        marked = h.marked;
      }

  RunReach-IsAccounted : {r s : Run T} → IsAccounted r → RunReach r s → IsAccounted s
  RunReach-IsAccounted h here = h
  RunReach-IsAccounted h (next reach st) = RunStep-IsAccounted st (RunReach-IsAccounted h reach)

  abbrev pub fresh_run : Executor T → Run T
  fresh_run x = record { pool = x; submitted = []; started = []; finished = 0 }

  -- From an executor as it is constructed, however its threads interleave: the accepted tasks are
  -- the started ones, in order, and then those that wait; the started ones are running or have
  -- finished; and the queue, the workers and the high-water mark stay within their bounds.
  pub executor_accounts :
      (workers capacity : ℕ) (x : Executor T) (s : Run T)
      → make_executor workers capacity ≡ some x
      → RunReach (fresh_run x) s
      → IsAccounted s
  unfolding make_executor
  executor_accounts workers capacity x s e reach =
      RunReach-IsAccounted
        (record {
          in_order = ground arith;
          all_counted = ground arith;
          within_workers = ground arith;
          within_capacity = ground arith;
          marked = ground arith;
        })
        reach

  idle_parts : (x : Executor T) → is_idle x ≡ true → (x.pending ≡ []) × (x.running ≡ 0)
  unfolding is_idle
  idle_parts x h = (pending_nil x.pending (ground arith), ground arith)
    where
      pending_nil : (l : List T) → nat_beq (length l) 0 ≡ true → l ≡ []
      pending_nil [] k = refl
      pending_nil (a ∷ l) k = absurd (ground arith)

  -- When `wait_all` returns, every task that was ever accepted has been started, in order, and has
  -- finished.
  pub wait_all_lem :
      (workers capacity : ℕ) (x : Executor T) (s : Run T)
      → make_executor workers capacity ≡ some x
      → RunReach (fresh_run x) s
      → is_idle s.pool ≡ true
      → (s.started ≡ s.submitted) × (s.finished ≡ length s.submitted)
  wait_all_lem workers capacity x s e reach idle =
      let h = executor_accounts workers capacity x s e reach in
      let parts = idle_parts s.pool idle in
      let all_started : s.submitted ≡ s.started =
        h.in_order ∙ ap (◌++◌ s.started) parts.0 ∙ append-nil s.started in
      (sym all_started, omega (arith, h.all_counted, parts.1, ap length all_started))
