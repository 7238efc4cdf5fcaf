-- ===== src/Tests/ExecutorRuns.antt =====
-- A run of the executor: one task accepted, started and finished.
use qiven_runtime.Base.{ℕ, ◌≡◌, refl, true, false, [], ◌∷◌, some}
use qiven_runtime.Executor.{
  Executor, Run, RunReach, here, next, submits, begins, finishes, make_executor, submit, begin_task,
  finish_task, is_idle,
}
use qiven_runtime.Executor.Accounting.{IsAccounted, fresh_run, executor_accounts}

abbrev pool : Executor ℕ
pool = record {
  capacity = 2;
  workers = 1;
  pending = [];
  running = 0;
  is_shutdown = false;
  max_concurrency = 0;
  exceptions = 0;
}

made : make_executor 1 2 ≡ some pool
unfolding make_executor
made = refl

abbrev queued : Executor ℕ
queued = record pool { pending = 5 ∷ [] }

abbrev busy : Executor ℕ
busy = record pool { running = 1 }

takes : submit pool 5 ≡ (queued, true)
unfolding submit
takes = refl

starts : begin_task queued ≡ some (5, busy)
unfolding begin_task
starts = refl

abbrev finished_run : Run ℕ
finished_run = record {
  pool = finish_task busy false;
  submitted = 5 ∷ [];
  started = 5 ∷ [];
  finished = 1;
}

run : RunReach (fresh_run pool) finished_run
run =
    next (next (next here (submits 5 queued takes)) (begins 5 busy starts refl))
      (finishes false refl)

idle : is_idle finished_run.pool ≡ true
unfolding is_idle finish_task
idle = refl

executor_accounts_example : IsAccounted finished_run
executor_accounts_example = executor_accounts 1 2 pool finished_run made run
