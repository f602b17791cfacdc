-- ===== src/Timer/Deletion.antt =====
-- The end of one timer of moon_code/network/src/moon_timer.c.
use moon_in_water.Prelude.{
  suc, ◌≡◌, refl, Bool, true, false, Option, none, some, List, [], ◌∷◌, if◌then◌else◌, ◌&&◌, not, ℤ,
  pos, ◌-ℤ◌, arith,
}
use moon_in_water.Timer.{
  Timer, timer_leave_avl, timer_join_avl, timer_new, timer_del, timer_set, timer_stop,
  timer_restart, task_takes, task_fails, task_puts_back, TimerAct, dels, sets, stops, restarts,
  takes, fails, puts_back, timer_act, then_timer, timer_acts,
}

-- A timer is closed when it is deleted and not being processed; one that is in the tree is neither, nor
-- stopped.
pub record IsClosing (t : Timer) : Type 0 where
  pub once : t.closes ≡ (if t.deleted && not t.processing then 1 else 0)
  pub tree : t.in_tree ≡ true → (t.deleted ≡ false) × (t.processing ≡ false) × (t.stopped ≡ false)

-- A property of the timer after acts that are possible.
abbrev pub Holds : (Timer → Type 0) → Option Timer → Type 0
Holds P none = Unit
Holds P (some t) = P t

timer_act-IsClosing : (a : TimerAct) (t : Timer) → IsClosing t → Holds IsClosing (timer_act a t)
unfolding timer_act timer_del timer_leave_avl timer_join_avl timer_set timer_stop timer_restart
    task_takes task_fails task_puts_back
timer_act-IsClosing dels t c = ground arith
timer_act-IsClosing (sets n) t c = ground arith
timer_act-IsClosing stops t c = ground arith
timer_act-IsClosing restarts t c = ground arith
timer_act-IsClosing takes t c = ground arith
timer_act-IsClosing fails t c = ground arith
timer_act-IsClosing puts_back t c = ground arith

then_timer-Holds :
    (P : Timer → Type 0) (f : Timer → Option Timer) (o : Option Timer)
    → ((t : Timer) → P t → Holds P (f t))
    → Holds P o
    → Holds P (then_timer f o)
then_timer-Holds P f none k h = tt
then_timer-Holds P f (some t) k h = k t h

-- What every act keeps, each list of acts that pass a test keeps.
abbrev pub AllActs : (TimerAct → Bool) → List TimerAct → Type 0
AllActs p [] = Unit
AllActs p (a ∷ xs) = (p a ≡ true) × AllActs p xs

pub timer_acts-Holds :
    (P : Timer → Type 0) (p : TimerAct → Bool)
    → ((a : TimerAct) (t : Timer) → p a ≡ true → P t → Holds P (timer_act a t))
    → (xs : List TimerAct) (t : Timer) → AllActs p xs
    → P t
    → Holds P (timer_acts xs t)
unfolding timer_acts
timer_acts-Holds P p k [] t h c = c
timer_acts-Holds P p k (a ∷ xs) t h c =
    then_timer-Holds P (timer_acts xs) (timer_act a t) (λ u d. timer_acts-Holds P p k xs u h.1 d)
      (k a t h.0 c)

all_pass : (xs : List TimerAct) → AllActs (λ a. true) xs
all_pass [] = tt
all_pass (a ∷ xs) = (refl, all_pass xs)

timer_new-IsClosing : (n : ℤ) → IsClosing (timer_new n)
unfolding timer_new timer_join_avl
timer_new-IsClosing n = ground arith

-- From a new timer of any count, after any of its operations and of the steps of the timer thread, in
-- any order: the timer has closed its end of the pipe and dropped its reference once if it is deleted
-- and not being processed, and else not at all; and no timer of the tree is deleted, stopped or being
-- processed.
pub timer_acts-close_once :
    (n : ℤ) (xs : List TimerAct) (t : Timer)
    → timer_acts xs (timer_new n) ≡ some t
    → (t.closes ≡ (if t.deleted && not t.processing then 1 else 0))
      × (t.in_tree ≡ true → (t.deleted ≡ false) × (t.processing ≡ false) × (t.stopped ≡ false))
timer_acts-close_once n xs t e =
    let c =
      timer_acts-Holds IsClosing (λ a. true) (λ a u h k. timer_act-IsClosing a u k) xs (timer_new n)
        (all_pass xs) (timer_new-IsClosing n) in
    let now : IsClosing t = rw e at c in (now.once, now.tree)

-- A timer of the tree with one time left, that is not stopped or deleted: when it has been processed and
-- is then deleted, `avl_del2` is called on it while it does not stand in the tree.
pub timer_del_run_out :
    (t : Timer)
    → t.in_tree ≡ true
    → t.stopped ≡ false
    → t.deleted ≡ false
    → t.repeat_num ≡ pos 1
    → (u : Timer) × (timer_acts (takes ∷ puts_back ∷ dels ∷ []) t ≡ some u) × (u.stray_del ≡ true)
unfolding timer_acts timer_act task_takes task_puts_back timer_del timer_leave_avl ◌-ℤ◌
timer_del_run_out t i s d e = (
  record t {
    processing = false;
    stopped = true;
    deleted = true;
    repeat_num = pos 0;
    in_tree = false;
    stray_del = true;
    closes = suc t.closes;
  },
  ground arith,
  refl,
)
