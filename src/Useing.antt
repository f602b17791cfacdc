-- ===== src/Useing.antt =====
-- moon_code/common/src/moon_common.h: `useing_ref_inc`, `useing_ref_dec` and `set_status_closed`. One word of 32
-- bits holds a status in its low four bits and a count of users above them.
pub mod Threads
pub mod Once
mod Tests
use moon_in_water.Prelude.{
  ℕ, ◌+◌, ◌-◌, ◌^◌, ◌%◌, Bool, true, false, ◌==◌, if◌then◌else◌, not, ◌||◌, ◌&&◌, ℤ, pos, ltb_ℤ,
  to_int, add32, sub32,
}

abbrev pub status_closed : ℕ
status_closed = 15

abbrev pub useing_ref_unit : ℕ
useing_ref_unit = 16

-- `tmp & STATUS_MASK`, the mask being the low four bits.
abbrev pub status_of : ℕ → ℕ
status_of word = word % 16

-- `( tmp & ~STATUS_MASK ) | STATUS_CLOSED`
abbrev pub with_closed : ℕ → ℕ
with_closed word = word - status_of word + status_closed

-- One turn of a loop around `__sync_bool_compare_and_swap`: the loop ends without a store, or the word
-- was no longer `tmp` and the loop goes on, or the new word is stored (and `close_fun` is called).
pub data Turn : Type 0 where
  ended : Turn
  retry : Turn
  stored : ℕ → Bool → Turn

-- A turn of `useing_ref_inc` that has read `tmp`, when the word is `now`: it returns -1 if `ended`.
unfoldable pub inc_turn : ℕ → ℕ → Turn
inc_turn tmp now =
    if status_of tmp == status_closed
    then ended
    else if tmp == now
    then stored (add32 tmp useing_ref_unit) false
    else retry

-- The new word of `useing_ref_dec`, and whether `close_fun` is called.
unfoldable pub useing_ref_dec : ℕ → ℕ × Bool
useing_ref_dec now =
    let tmp = sub32 now useing_ref_unit in
    (tmp, if ltb_ℤ (to_int tmp) (pos 0) then false else tmp == status_closed)

-- A turn of `set_status_closed` that has read `tmp`.
unfoldable pub close_turn : ℕ → ℕ → Turn
close_turn tmp now =
    if status_of tmp == status_closed
    then ended
    else if tmp == now
    then stored (with_closed tmp) (ltb_ℤ (to_int tmp) (pos useing_ref_unit))
    else retry
