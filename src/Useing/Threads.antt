-- ===== src/Useing/Threads.antt =====
-- Threads that share one such word, each of their atomic accesses a step.
use moon_in_water.Prelude.{
  ℕ, suc, ◌-◌, Bool, Option, none, some, List, [], ◌∷◌, if◌then◌else◌, ◌==◌,
}
use moon_in_water.Useing.{Turn, ended, retry, stored, inc_turn, useing_ref_dec, close_turn}

-- The word, the references that have been taken and not given back, and the calls of `close_fun`.
pub record Shared : Type 0 where
  pub word : ℕ
  pub held : ℕ
  pub calls : ℕ

-- A turn of one of the two loops, with the word read before, which may be old; or a decrement, by a
-- thread that holds a reference.
pub data Act : Type 0 where
  inc : ℕ → Act
  dec : Act
  close : ℕ → Act

abbrev pub counted : Bool → ℕ → ℕ
counted called calls = if called then suc calls else calls

abbrev pub take_turn : ℕ → Shared → Turn → Shared
take_turn held s ended = s
take_turn held s retry = s
take_turn held s (stored word called) = record {
  word = word;
  held = held;
  calls = counted called s.calls;
}

unfoldable pub act : Act → Shared → Option Shared
act (inc tmp) s = some (take_turn (suc s.held) s (inc_turn tmp s.word))
act (close tmp) s = some (take_turn s.held s (close_turn tmp s.word))
act dec s =
    let (word, called) = useing_ref_dec s.word in
    if s.held == 0
    then none
    else some (record { word = word; held = s.held - 1; calls = counted called s.calls })

abbrev pub then_acts : (Shared → Option Shared) → Option Shared → Option Shared
then_acts f none = none
then_acts f (some s) = f s

unfoldable pub acts : List Act → Shared → Option Shared
acts [] s = some s
acts (a ∷ later) s = then_acts (acts later) (act a s)

-- A word of status `status` that nobody uses.
abbrev pub unused : ℕ → Shared
unused status = record { word = status; held = 0; calls = 0 }
