-- ===== src/Pipe.antt =====
-- moon_code/common/src/moon_pipe.c: the status word of a pipe, which counts the users of its two points above
-- four bits: ready, closed by point 0, closed by point 1, allocated.
pub mod Threads
pub mod Once
mod Tests
use moon_in_water.Prelude.{
  ℕ, ◌+◌, ◌-◌, ◌*◌, ◌/◌, ◌%◌, Bool, true, false, Option, none, some, ◌==◌, if◌then◌else◌, ◌&&◌, not,
  ℤ, pos, ltb_ℤ, to_int, add32, sub32,
}

abbrev pub pipe_useing_ref_unit : ℕ
pipe_useing_ref_unit = 16

-- One of the two points, by its index.
pub data Point : Type 0 where
  point0 : Point
  point1 : Point

-- `PIPE_POINT0_CLOSED << index`
abbrev pub closed_bit : Point → ℕ
closed_bit point0 = 2
closed_bit point1 = 4

-- The point that `GET_OTHER_POINT` leads to.
abbrev pub get_other_point : Point → Point
get_other_point point0 = point1
get_other_point point1 = point0

-- `status & PIPE_CLOSED_MASK`
abbrev pub closed_of : ℕ → ℕ
closed_of word = 2 * (word / 2 % 4)

abbrev pub alloc_of : ℕ → ℕ
alloc_of word = word / 8 % 2

-- The end of a pipe: the point whose listener is told, if any; both points' references are dropped.
pub data Ending : Type 0 where
  tells : Option Point → Ending

-- A turn of one of the loops around `__sync_bool_compare_and_swap`.
pub data Turn : Type 0 where
  ended : Turn
  retry : Turn
  stored : ℕ → Option Ending → Turn

-- A turn of `pipe_useing_ref_inc` that has read `tmp`, when the word is `now`: it returns -1 if `ended`.
unfoldable pub inc_turn : ℕ → ℕ → Turn
inc_turn tmp now =
    if not (closed_of tmp == 0)
    then ended
    else if tmp == now
    then stored (add32 tmp pipe_useing_ref_unit) none
    else retry

-- The new word of `pipe_useing_ref_dec` at the point `p`, and the end of the pipe if it comes.
unfoldable pub pipe_useing_ref_dec : Point → ℕ → ℕ × Option Ending
pipe_useing_ref_dec p now =
    let tmp = sub32 now pipe_useing_ref_unit in
    (
      tmp,
      if ltb_ℤ (to_int tmp) (pos 0)
          then none
          else if ltb_ℤ (to_int tmp) (pos pipe_useing_ref_unit) && not (closed_of tmp == 0)
          then if closed_of tmp == closed_bit p
            then some (tells (some (get_other_point p)))
            else if closed_of tmp == closed_bit (get_other_point p)
            then some (tells (some p))
            else some (tells none)
          else none,
    )

-- A turn of `pipe_close` at the point `p`. The bit that it sets is clear in a word it stores.
unfoldable pub close_turn : Point → ℕ → ℕ → Turn
close_turn p tmp now =
    if not (closed_of tmp == 0)
    then ended
    else if tmp == now
    then stored (tmp + closed_bit p) (
        if ltb_ℤ (to_int tmp) (pos pipe_useing_ref_unit)
        then some (tells (some (get_other_point p)))
        else none)
    else retry

-- A turn of the loop in `pipe_init_done` that sets PIPE_STATUS_READY.
unfoldable pub ready_turn : ℕ → ℕ → Turn
ready_turn tmp now = if tmp == now then stored (tmp - tmp % 2 + 1) none else retry
