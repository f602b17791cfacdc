-- ===== src/Timer.antt =====
-- moon_code/network/src/moon_timer.c: what the operations and the timer thread do with one timer. Its place in
-- the tree of all timers is a Boolean; the ids and the other timers are left out.
pub mod Deletion
pub mod Endless
mod Tests
use moon_in_water.Prelude.{
  ℕ, suc, Bool, true, false, Option, none, some, List, [], ◌∷◌, if◌then◌else◌, ◌&&◌, ◌||◌, not, ℤ,
  pos, negsuc, ◌-ℤ◌, leb_ℤ, eqb_ℤ,
}

-- `timer_inter_s`: the three bits of its status and the count of its description; whether it stands in
-- the tree; whether `avl_del2` has been called on it while it did not; and how often the timer has
-- closed its end of the pipe and dropped its reference.
pub record Timer : Type 0 where
  pub processing : Bool
  pub stopped : Bool
  pub deleted : Bool
  pub repeat_num : ℤ
  pub in_tree : Bool
  pub stray_del : Bool
  pub closes : ℕ

unfoldable pub timer_leave_avl : Timer → Timer
timer_leave_avl t =
    if t.stopped
    then t
    else record t { stopped = true; in_tree = false; stray_del = t.stray_del || not t.in_tree }

unfoldable pub timer_join_avl : Timer → Timer
timer_join_avl t = record t { stopped = false; in_tree = true }

-- A new timer, of a count that its caller gives and a time that is not 0.
unfoldable pub timer_new : ℤ → Timer
unfolding timer_join_avl
timer_new repeat_num =
    let t : Timer = record {
      processing = false;
      stopped = false;
      deleted = false;
      repeat_num = repeat_num;
      in_tree = false;
      stray_del = false;
      closes = 0;
    } in
    if eqb_ℤ repeat_num (pos 0) then record t { stopped = true } else timer_join_avl t

unfoldable pub timer_del : Timer → Timer
unfolding timer_leave_avl
timer_del t =
    if t.deleted || t.processing
    then record t { deleted = true }
    else let u = timer_leave_avl t in record u { deleted = true; closes = suc u.closes }

-- The timer and what is returned; `repeat_num` is that of the new description, whose time is not 0.
unfoldable pub timer_set : ℤ → Timer → Timer × ℤ
unfolding timer_leave_avl timer_join_avl
timer_set repeat_num t =
    if eqb_ℤ repeat_num (pos 0) || t.deleted
    then (t, negsuc 0)
    else let u = record t { repeat_num = repeat_num } in
      let v = if u.processing then u else timer_join_avl (timer_leave_avl u) in
      (record v { stopped = false }, pos 0)

unfoldable pub timer_stop : Timer → Timer
unfolding timer_leave_avl
timer_stop t =
    let u = if t.deleted || t.processing then t else timer_leave_avl t in
    record u { stopped = true }

unfoldable pub timer_restart : Timer → Timer × ℤ
unfolding timer_join_avl
timer_restart t =
    if not t.deleted && t.stopped && not (eqb_ℤ t.repeat_num (pos 0))
    then (let u = if t.processing then t else timer_join_avl t in
        (record u { stopped = false }, pos 0))
    else (t, negsuc 0)

-- The timer thread takes a timer of the tree whose time is up.
unfoldable pub task_takes : Timer → Option Timer
task_takes t =
    if t.in_tree
    then some (record t {
      in_tree = false;
      processing = true;
      repeat_num = if leb_ℤ (pos 0) t.repeat_num then t.repeat_num -ℤ pos 1 else t.repeat_num;
    })
    else none

-- Its call of the other end fails. The source sets the bit without the mutex; here it is one step.
unfoldable pub task_fails : Timer → Option Timer
task_fails t = if t.processing then some (record t { deleted = true }) else none

-- It puts the timer back, or closes it, or leaves it.
unfoldable pub task_puts_back : Timer → Option Timer
task_puts_back t =
    let u = record t { processing = false } in
    if t.processing
    then some (
        if not (u.deleted || u.stopped) && not (eqb_ℤ u.repeat_num (pos 0))
        then record u { in_tree = true }
        else if u.deleted
        then record u { stopped = true; closes = suc u.closes }
        else u)
    else none

-- One section under the mutex.
pub data TimerAct : Type 0 where
  dels : TimerAct
  sets : ℤ → TimerAct
  stops : TimerAct
  restarts : TimerAct
  takes : TimerAct
  fails : TimerAct
  puts_back : TimerAct

unfoldable pub timer_act : TimerAct → Timer → Option Timer
timer_act dels t = some (timer_del t)
timer_act (sets n) t = some (timer_set n t).0
timer_act stops t = some (timer_stop t)
timer_act restarts t = some (timer_restart t).0
timer_act takes t = task_takes t
timer_act fails t = task_fails t
timer_act puts_back t = task_puts_back t

abbrev pub then_timer : (Timer → Option Timer) → Option Timer → Option Timer
then_timer f none = none
then_timer f (some t) = f t

unfoldable pub timer_acts : List TimerAct → Timer → Option Timer
timer_acts [] t = some t
timer_acts (a ∷ later) t = then_timer (timer_acts later) (timer_act a t)
