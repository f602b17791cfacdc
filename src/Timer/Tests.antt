-- ===== src/Timer/Tests.antt =====
-- A timer at concrete runs, and the theorems about it applied to them.
use moon_in_water.Prelude.{
  ◌≡◌, refl, true, false, some, List, [], ◌∷◌, if◌then◌else◌, ◌&&◌, not, negsuc,
}
use moon_in_water.Timer.{
  Timer, timer_leave_avl, timer_join_avl, timer_new, timer_del, timer_stop, timer_restart,
  task_takes, task_puts_back, TimerAct, dels, stops, restarts, takes, puts_back, timer_act,
  timer_acts,
}
use moon_in_water.Timer.Deletion.{timer_acts-close_once}
use moon_in_water.Timer.Endless.{timer_acts-placed}

-- Stopped and started again, then deleted while it is being processed.
abbrev life : List TimerAct
life = stops ∷ restarts ∷ takes ∷ puts_back ∷ takes ∷ dels ∷ puts_back ∷ []

abbrev dead : Timer
dead = record {
  processing = false;
  stopped = true;
  deleted = true;
  repeat_num = negsuc 0;
  in_tree = false;
  stray_del = false;
  closes = 1;
}

life_run : timer_acts life (timer_new (negsuc 0)) ≡ some dead
unfolding timer_acts timer_act timer_new timer_join_avl timer_leave_avl timer_stop timer_restart
    task_takes task_puts_back timer_del
life_run = refl

timer_acts-close_once_example :
    (dead.closes ≡ (if dead.deleted && not dead.processing then 1 else 0))
    × (dead.in_tree ≡ true
        → (dead.deleted ≡ false) × (dead.processing ≡ false) × (dead.stopped ≡ false))
timer_acts-close_once_example = timer_acts-close_once (negsuc 0) life dead life_run

timer_acts-placed_example :
    (dead.in_tree ≡ (not dead.stopped && not dead.processing)) × (dead.stray_del ≡ false)
timer_acts-placed_example =
    timer_acts-placed 0 life dead (refl, (refl, (refl, (refl, (refl, (refl, (refl, tt)))))))
      life_run
