-- ===== src/Pipe/Threads.antt =====
-- Threads that share a pipe, each of their atomic accesses to its status word a step.
use moon_in_water.Prelude.{
  ℕ, suc, ◌+◌, ◌-◌, Bool, Option, none, some, List, [], ◌∷◌, if◌then◌else◌, ◌==◌,
}
use moon_in_water.Pipe.{
  Point, Ending, Turn, ended, retry, stored, inc_turn, pipe_useing_ref_dec, close_turn, ready_turn,
}

-- The word, the uses that have begun and not ended, and the ends of the pipe so far, the last first.
pub record Shared : Type 0 where
  pub word : ℕ
  pub held : ℕ
  pub endings : List Ending

-- A turn of one of the loops, with the word read before, which may be old; or the end of a use.
pub data Act : Type 0 where
  inc : ℕ → Act
  dec : Point → Act
  close : Point → ℕ → Act
  ready : ℕ → Act

abbrev pub noted : Option Ending → List Ending → List Ending
noted none es = es
noted (some e) es = e ∷ es

abbrev pub take_turn : ℕ → Shared → Turn → Shared
take_turn held s ended = s
take_turn held s retry = s
take_turn held s (stored word e) = record { word = word; held = held; endings = noted e s.endings }

unfoldable pub act : Act → Shared → Option Shared
act (inc tmp) s = some (take_turn (suc s.held) s (inc_turn tmp s.word))
act (close p tmp) s = some (take_turn s.held s (close_turn p tmp s.word))
act (ready tmp) s = some (take_turn s.held s (ready_turn tmp s.word))
act (dec p) s =
    let (word, e) = pipe_useing_ref_dec p s.word in
    if s.held == 0
    then none
    else some (record { word = word; held = s.held - 1; endings = noted e s.endings })

abbrev pub then_acts : (Shared → Option Shared) → Option Shared → Option Shared
then_acts f none = none
then_acts f (some s) = f s

unfoldable pub acts : List Act → Shared → Option Shared
acts [] s = some s
acts (a ∷ later) s = then_acts (acts later) (act a s)

-- A pipe that nobody uses or has closed, with its two other bits.
abbrev pub unused : Bool → Bool → Shared
unused is_ready is_alloc = record {
  word = (if is_ready then 1 else 0) + (if is_alloc then 8 else 0);
  held = 0;
  endings = [];
}
