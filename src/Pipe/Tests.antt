-- ===== src/Pipe/Tests.antt =====
-- A pipe at concrete inputs, and the theorems about it applied to them.
use moon_in_water.Prelude.{
  ◌≡◌, ◌⊎◌, ◌<◌, refl, some, List, [], ◌∷◌, arith, true, false, add32, sub32, to_int,
}
use moon_in_water.Pipe.{
  Point, point0, point1, tells, closed_of, closed_bit, get_other_point, inc_turn,
  pipe_useing_ref_dec, close_turn, ready_turn,
}
use moon_in_water.Pipe.Threads.{Shared, Act, inc, dec, close, ready, act, acts, unused}
use moon_in_water.Pipe.Once.{acts-told_once}

-- A new pipe is used while it is set up; point 1 closes it with an old word, then with the right one,
-- and the use ends at point 0.
abbrev short_life : List Act
short_life =
    inc 8
    ∷ ready 24
    ∷ close point1 8
    ∷ close point1 24
    ∷ close point1 25
    ∷ close point0 29
    ∷ dec point0
    ∷ []

abbrev over : Shared
over = record { word = 13; held = 0; endings = tells (some point0) ∷ [] }

short_life_run : acts short_life (unused false true) ≡ some over
unfolding acts act inc_turn close_turn ready_turn pipe_useing_ref_dec add32 sub32 to_int
short_life_run = refl

acts-told_once_example :
    (((closed_of over.word ≡ 0) ⊎ (0 < over.held)) × (over.endings ≡ []))
    ⊎ ((p : Point) × (closed_of over.word ≡ closed_bit p)
        × (over.held ≡ 0)
        × (over.endings ≡ tells (some (get_other_point p)) ∷ []))
acts-told_once_example = acts-told_once false true short_life over (omega arith) short_life_run
