-- ===== src/Useing/Tests.antt =====
-- The status word at concrete inputs, and the theorems about it applied to them.
use moon_in_water.Prelude.{
  ◌≡◌, ◌≢◌, ◌⊎◌, ◌<◌, ◌+◌, ◌*◌, ◌%◌, refl, some, List, [], ◌∷◌, arith, add32, sub32, to_int,
}
use moon_in_water.Useing.{inc_turn, useing_ref_dec, close_turn}
use moon_in_water.Useing.Threads.{Shared, Act, inc, dec, close, act, acts, unused}
use moon_in_water.Useing.Once.{acts-close_once}

-- Two users; a close whose first turn has read an old word; the users leave.
abbrev both : List Act
both = inc 3 ∷ inc 19 ∷ close 3 ∷ close 35 ∷ inc 47 ∷ dec ∷ dec ∷ []

abbrev done : Shared
done = record { word = 15; held = 0; calls = 1 }

both_run : acts both (unused 3) ≡ some done
unfolding acts act inc_turn close_turn useing_ref_dec add32 sub32 to_int
both_run = refl

acts-close_once_example :
    ((done.word % 16 ≡ 15) × (done.held ≡ 0) × (done.calls ≡ 1))
    ⊎ (((done.word % 16 ≢ 15) ⊎ (0 < done.held))
        × (done.calls ≡ 0)
        × (done.word ≡ 16 * done.held + done.word % 16))
acts-close_once_example = acts-close_once 3 both done (omega arith) (omega arith) both_run
