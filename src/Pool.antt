-- ===== src/Pool.antt =====
-- moon_code/network/src/moon_pthread_pool.c: the counts of the pool, and what its threads do between two calls.
pub mod Balance
mod Tests
use moon_in_water.Prelude.{
  ℕ, zero, suc, ◌+◌, ◌-◌, Bool, true, false, Option, none, some, List, [], ◌∷◌, ltb, ◌==◌,
  if◌then◌else◌, ◌&&◌,
}

-- `process_pool_s`, and where its threads stand: callers of `_put_task` that start a thread, or are
-- about to write to the ring; tasks in the ring; workers, and those that run a task.
pub record Pool : Type 0 where
  pub process_max : ℕ
  pub idle_max : ℕ
  pub process_num : ℕ
  pub task_num : ℕ
  pub starting : ℕ
  pub writing : ℕ
  pub queued : ℕ
  pub workers : ℕ
  pub busy : ℕ

-- One section under the mutex, or one call that another thread can see.
pub data PoolAct : Type 0 where
  put_counts : PoolAct
  create_works : PoolAct
  create_fails : PoolAct
  write_works : PoolAct
  write_fails : PoolAct
  read_task : PoolAct
  task_done : PoolAct
  read_timeout : PoolAct
  read_error : PoolAct

-- The first section of `_put_task`.
unfoldable pub put_task : Pool → Pool
put_task s =
    let task_num = s.task_num + 1 in
    if ltb s.process_num task_num && ltb s.process_num s.process_max
    then record s {
      task_num = task_num;
      process_num = s.process_num + 1;
      starting = s.starting + 1;
    }
    else record s { task_num = task_num; writing = s.writing + 1 }

-- The `case 0` of `process_func`: the worker ends if there are more than enough.
unfoldable pub idle_worker : Pool → Pool
idle_worker s =
    if ltb (s.task_num + s.idle_max) s.process_num
    then record s { process_num = s.process_num - 1; workers = s.workers - 1 }
    else s

abbrev pub only_if : Bool → Pool → Option Pool
only_if b s = if b then some s else none

-- `none` if no thread stands where the act begins.
unfoldable pub pool_act : PoolAct → Pool → Option Pool
pool_act put_counts s = some (put_task s)
pool_act create_works s =
    only_if (ltb 0 s.starting)
      (record s { starting = s.starting - 1; workers = s.workers + 1; writing = s.writing + 1 })
pool_act create_fails s = only_if (ltb 0 s.starting) (record s {
  starting = s.starting - 1;
  process_num = s.process_num - 1;
  writing = s.writing + 1;
})
pool_act write_works s =
    only_if (ltb 0 s.writing) (record s { writing = s.writing - 1; queued = s.queued + 1 })
pool_act write_fails s =
    only_if (ltb 0 s.writing) (record s { writing = s.writing - 1; task_num = s.task_num - 1 })
pool_act read_task s =
    only_if (ltb 0 s.queued && ltb s.busy s.workers)
      (record s { queued = s.queued - 1; busy = s.busy + 1 })
pool_act task_done s =
    only_if (ltb 0 s.busy) (record s { busy = s.busy - 1; task_num = s.task_num - 1 })
pool_act read_timeout s = only_if (ltb s.busy s.workers) (idle_worker s)
pool_act read_error s =
    only_if (ltb s.busy s.workers)
      (record s { workers = s.workers - 1; process_num = s.process_num - 1 })

abbrev pub then_pool : (Pool → Option Pool) → Option Pool → Option Pool
then_pool f none = none
then_pool f (some s) = f s

unfoldable pub pool_acts : List PoolAct → Pool → Option Pool
pool_acts [] s = some s
pool_acts (a ∷ later) s = then_pool (pool_acts later) (pool_act a s)

-- The loop of `process_pool_start`, by which of its calls of `pthread_create` work.
unfoldable pub process_pool_start : List Bool → Pool → Pool
process_pool_start [] s = s
process_pool_start (works ∷ later) s =
    process_pool_start later
      (if works then record s { process_num = s.process_num + 1; workers = s.workers + 1 } else s)

-- The pool as it is declared.
abbrev pub ppool : ℕ → ℕ → Pool
ppool process_max idle_max = record {
  process_max = process_max;
  idle_max = idle_max;
  process_num = 0;
  task_num = 0;
  starting = 0;
  writing = 0;
  queued = 0;
  workers = 0;
  busy = 0;
}
