-- ===== src/Timer/Endless.antt =====
-- A timer of moon_code/network/src/moon_timer.c whose count does not run out.
use moon_in_water.Prelude.{
  ℕ, ◌≡◌, Bool, true, false, some, List, ◌&&◌, not, pos, negsuc, ltb_ℤ, arith,
}
use moon_in_water.Timer.{
  Timer, timer_leave_avl, timer_join_avl, timer_new, timer_del, timer_set, timer_stop,
  timer_restart, task_takes, task_fails, task_puts_back, TimerAct, dels, sets, stops, restarts,
  takes, fails, puts_back, timer_act, timer_acts,
}
use moon_in_water.Timer.Deletion.{Holds, AllActs, timer_acts-Holds}

-- The count stays below 0.
abbrev pub is_endless : TimerAct → Bool
is_endless (sets n) = ltb_ℤ n (pos 0)
is_endless _ = true

-- The timer stands in the tree unless it is stopped or being processed.
pub record IsPlaced (t : Timer) : Type 0 where
  pub endless : ltb_ℤ t.repeat_num (pos 0) ≡ true
  pub place : t.in_tree ≡ (not t.stopped && not t.processing)
  pub kept : t.stray_del ≡ false
  pub ended : t.deleted ≡ true → t.processing ≡ false → t.stopped ≡ true

timer_act-IsPlaced :
    (a : TimerAct) (t : Timer) → is_endless a ≡ true → IsPlaced t → Holds IsPlaced (timer_act a t)
unfolding timer_act timer_del timer_leave_avl timer_join_avl timer_set timer_stop timer_restart
    task_takes task_fails task_puts_back
timer_act-IsPlaced dels t e c = ground arith
timer_act-IsPlaced (sets n) t e c = ground arith
timer_act-IsPlaced stops t e c = ground arith
timer_act-IsPlaced restarts t e c = ground arith
timer_act-IsPlaced takes t e c = ground arith
timer_act-IsPlaced fails t e c = ground arith
timer_act-IsPlaced puts_back t e c = ground arith

timer_new-IsPlaced : (n : ℕ) → IsPlaced (timer_new (negsuc n))
unfolding timer_new timer_join_avl
timer_new-IsPlaced n = ground arith

-- From a new timer of a count below 0, after any of its operations and of the steps of the timer
-- thread, in any order, no count of 0 or more being set: the timer stands in the tree exactly when it
-- is neither stopped nor being processed, and `avl_del2` has not been called on it while it was not there.
pub timer_acts-placed :
    (n : ℕ) (xs : List TimerAct) (t : Timer)
    → AllActs is_endless xs
    → timer_acts xs (timer_new (negsuc n)) ≡ some t
    → (t.in_tree ≡ (not t.stopped && not t.processing)) × (t.stray_del ≡ false)
timer_acts-placed n xs t h e =
    let c =
      timer_acts-Holds IsPlaced is_endless timer_act-IsPlaced xs (timer_new (negsuc n)) h
        (timer_new-IsPlaced n) in
    let now : IsPlaced t = rw e at c in (now.place, now.kept)
