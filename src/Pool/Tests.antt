-- ===== src/Pool/Tests.antt =====
-- The pool at a concrete run, and the theorems about it applied to it.
use moon_in_water.Prelude.{◌+◌, ◌≤◌, ◌≡◌, ◌⊎◌, refl, true, some, List, [], ◌∷◌, arith}
use moon_in_water.Pool.{
  Pool, PoolAct, put_counts, create_works, write_works, read_task, task_done, read_timeout,
  put_task, idle_worker, pool_act, pool_acts, process_pool_start, ppool,
}
use moon_in_water.Pool.Balance.{pool_acts-serve}

-- Two tasks for a pool of one first worker and at most three; the first task ends, a worker waits.
abbrev day : List PoolAct
day =
    put_counts ∷ write_works ∷ put_counts ∷ create_works ∷ read_task ∷ write_works ∷ read_task
    ∷ task_done ∷ read_timeout ∷ []

abbrev evening : Pool
evening = record {
  process_max = 3;
  idle_max = 1;
  process_num = 2;
  task_num = 1;
  starting = 0;
  writing = 0;
  queued = 0;
  workers = 2;
  busy = 1;
}

day_run : pool_acts day (process_pool_start (true ∷ []) (ppool 3 1)) ≡ some evening
unfolding pool_acts pool_act put_task idle_worker process_pool_start
day_run = refl

pool_acts-serve_example :
    (evening.task_num ≤ evening.workers + evening.starting)
    ⊎ (evening.workers + evening.starting ≡ 3)
pool_acts-serve_example =
    pool_acts-serve 3 1 (true ∷ []) day evening (omega arith) (ground arith) day_run
