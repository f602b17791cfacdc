-- ===== src/Pool/Balance.antt =====
-- The counts of the pool, moon_code/network/src/moon_pthread_pool.c, under the acts of its
-- threads.
use moon_in_water.Prelude.{
  ℕ, ◌+◌, ◌≤◌, ◌≡◌, ◌⊎◌, refl, Bool, true, false, Option, none, some, List, [], ◌∷◌, arith, length,
  min,
}
use moon_in_water.Pool.{
  Pool, PoolAct, put_counts, create_works, create_fails, write_works, write_fails, read_task,
  task_done, read_timeout, read_error, put_task, idle_worker, pool_act, then_pool, pool_acts,
  process_pool_start, ppool,
}

-- `process_num` counts the workers and those that are being created, `task_num` the tasks in the ring,
-- those that run and those that are being put.
pub record IsBalanced (most : ℕ) (s : Pool) : Type 0 where
  pub limit : s.process_max ≡ most
  pub threads : s.process_num ≡ s.workers + s.starting
  pub tasks : s.task_num ≡ s.queued + s.busy + s.starting + s.writing
  pub running : s.busy ≤ s.workers
  pub bounded : s.process_num ≤ most

-- There is a thread for each task, or as many threads as there may be.
abbrev pub IsServed : Pool → Type 0
IsServed s = min s.task_num s.process_max ≤ s.process_num

-- A property of the pool after acts that are possible.
abbrev pub Holds : (Pool → Type 0) → Option Pool → Type 0
Holds P none = Unit
Holds P (some s) = P s

-- No call of `pthread_create` and no read of the ring fails.
abbrev pub is_smooth : PoolAct → Bool
is_smooth create_fails = false
is_smooth read_error = false
is_smooth _ = true

pool_act-IsBalanced :
    (most : ℕ) (a : PoolAct) (s : Pool) → IsBalanced most s → Holds (IsBalanced most) (pool_act a s)
unfolding pool_act put_task idle_worker
pool_act-IsBalanced most put_counts s c = ground arith
pool_act-IsBalanced most create_works s c = ground arith
pool_act-IsBalanced most create_fails s c = ground arith
pool_act-IsBalanced most write_works s c = ground arith
pool_act-IsBalanced most write_fails s c = ground arith
pool_act-IsBalanced most read_task s c = ground arith
pool_act-IsBalanced most task_done s c = ground arith
pool_act-IsBalanced most read_timeout s c = ground arith
pool_act-IsBalanced most read_error s c = ground arith

pool_act-IsServed :
    (a : PoolAct) (s : Pool) → is_smooth a ≡ true → IsServed s → Holds IsServed (pool_act a s)
unfolding pool_act put_task idle_worker
pool_act-IsServed put_counts s e c = ground arith
pool_act-IsServed create_works s e c = ground arith
pool_act-IsServed create_fails s e c = absurd (cc)
pool_act-IsServed write_works s e c = ground arith
pool_act-IsServed write_fails s e c = ground arith
pool_act-IsServed read_task s e c = ground arith
pool_act-IsServed task_done s e c = ground arith
pool_act-IsServed read_timeout s e c = ground arith
pool_act-IsServed read_error s e c = absurd (cc)

then_pool-Holds :
    (P Q : Pool → Type 0) (f : Pool → Option Pool) (o : Option Pool)
    → ((s : Pool) → P s → Holds Q (f s))
    → Holds P o
    → Holds Q (then_pool f o)
then_pool-Holds P Q f none k h = tt
then_pool-Holds P Q f (some s) k h = k s h

-- All acts of a list pass a test.
abbrev pub AllActs : (PoolAct → Bool) → List PoolAct → Type 0
AllActs p [] = Unit
AllActs p (a ∷ xs) = (p a ≡ true) × AllActs p xs

pool_acts-IsBalanced :
    (most : ℕ) (xs : List PoolAct) (s : Pool)
    → IsBalanced most s
    → Holds (IsBalanced most) (pool_acts xs s)
unfolding pool_acts
pool_acts-IsBalanced most [] s c = c
pool_acts-IsBalanced most (a ∷ xs) s c =
    then_pool-Holds (IsBalanced most) (IsBalanced most) (pool_acts xs) (pool_act a s)
      (λ t k. pool_acts-IsBalanced most xs t k) (pool_act-IsBalanced most a s c)

pool_acts-IsServed :
    (xs : List PoolAct) (s : Pool)
    → AllActs is_smooth xs
    → IsServed s
    → Holds IsServed (pool_acts xs s)
unfolding pool_acts
pool_acts-IsServed [] s e c = c
pool_acts-IsServed (a ∷ xs) s e c =
    then_pool-Holds IsServed IsServed (pool_acts xs) (pool_act a s)
      (λ t k. pool_acts-IsServed xs t e.1 k) (pool_act-IsServed a s e.0 c)

-- The workers that `process_pool_start` has created.
start-IsBalanced :
    (most : ℕ) (oks : List Bool) (s : Pool)
    → IsBalanced most s
    → s.process_num + length oks ≤ most
    → IsBalanced most (process_pool_start oks s)
      × ((process_pool_start oks s).task_num ≡ s.task_num)
unfolding process_pool_start
start-IsBalanced most [] s c h = (c, refl)
start-IsBalanced most (true ∷ oks) s c h =
    start-IsBalanced most oks
      (record s { process_num = s.process_num + 1; workers = s.workers + 1 }) (ground arith)
      (omega arith)
start-IsBalanced most (false ∷ oks) s c h = start-IsBalanced most oks s c (omega arith)

ppool-IsBalanced : (most idle : ℕ) → IsBalanced most (ppool most idle)
ppool-IsBalanced most idle = ground arith

-- From the start of the pool, with no more first workers than it may have, and after any acts of any
-- threads, failures included: `process_num` counts the workers and those that are being created, and
-- is at most `process_max`; `task_num` counts the tasks in the ring, those that run and those that
-- are being put; and no more tasks run than there are workers.
pub pool_acts-counts :
    (most idle : ℕ) (oks : List Bool) (xs : List PoolAct) (s : Pool)
    → length oks ≤ most
    → pool_acts xs (process_pool_start oks (ppool most idle)) ≡ some s
    → (s.process_num ≡ s.workers + s.starting)
      × (s.task_num ≡ s.queued + s.busy + s.starting + s.writing)
      × (s.busy ≤ s.workers)
      × (s.process_num ≤ most)
pool_acts-counts most idle oks xs s few e =
    let started =
      start-IsBalanced most oks (ppool most idle) (ppool-IsBalanced most idle) (omega arith) in
    let c = pool_acts-IsBalanced most xs (process_pool_start oks (ppool most idle)) started.0 in
    let now : IsBalanced most s = rw e at c in (now.threads, now.tasks, now.running, now.bounded)

-- As long as no thread creation and no read of the ring fails, there is a thread for each task, or
-- there are `process_max` threads: no worker ends that a task needs.
pub pool_acts-serve :
    (most idle : ℕ) (oks : List Bool) (xs : List PoolAct) (s : Pool)
    → length oks ≤ most
    → AllActs is_smooth xs
    → pool_acts xs (process_pool_start oks (ppool most idle)) ≡ some s
    → (s.task_num ≤ s.workers + s.starting) ⊎ (s.workers + s.starting ≡ most)
pool_acts-serve most idle oks xs s few smooth e =
    let started =
      start-IsBalanced most oks (ppool most idle) (ppool-IsBalanced most idle) (omega arith) in
    let first : IsServed (process_pool_start oks (ppool most idle)) = omega (arith, started.1) in
    let served : IsServed s =
      rw e at (pool_acts-IsServed xs (process_pool_start oks (ppool most idle)) smooth first) in
    let now : IsBalanced most s =
      rw e at (pool_acts-IsBalanced most xs (process_pool_start oks (ppool most idle)) started.0) in
    ground arith
