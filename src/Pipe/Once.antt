-- ===== src/Pipe/Once.antt =====
-- The end of a pipe, moon_code/common/src/moon_pipe.c, under the acts of its users.
use moon_in_water.Prelude.{
  ℕ, suc, ◌+◌, ◌^◌, ◌%◌, ◌*◌, ◌<◌, ◌≤◌, ◌≡◌, ◌≢◌, ◌⊎◌, subst, inl, inr, Bool, true, false, Option,
  none, some, List, [], ◌∷◌, if◌then◌else◌, ◌==◌, arith, length, ltb, add32, sub32, to_int,
}
use moon_in_water.Pipe.{
  Point, point0, point1, Ending, tells, inc_turn, pipe_useing_ref_dec, close_turn, ready_turn,
  closed_of, closed_bit, get_other_point,
}
use moon_in_water.Pipe.Threads.{Shared, Act, inc, dec, close, ready, act, acts, then_acts, unused}

-- The ends of a pipe whose word is closed as `closed` says, with `held` uses.
abbrev pub told : ℕ → ℕ → List Ending
told closed held =
    if closed == 0
    then []
    else if ltb 0 held
    then []
    else if closed == 2
    then tells (some point1) ∷ []
    else tells (some point0) ∷ []

pub record IsCounted (n : ℕ) (s : Shared) : Type 0 where
  pub parts : s.word ≡ 16 * s.held + s.word % 16
  pub few : s.held ≤ n
  pub one_side : s.word % 8 < 6
  pub endings : s.endings ≡ told (closed_of s.word) s.held

-- After an act that is possible.
abbrev Counts : ℕ → Option Shared → Type 0
Counts n none = Unit
Counts n (some s) = IsCounted n s

act-Counts :
    (n : ℕ) (a : Act) (s : Shared) → n + 2 < 2 ^ 27 → IsCounted n s → Counts (suc n) (act a s)
unfolding act inc_turn pipe_useing_ref_dec close_turn ready_turn add32 sub32 to_int
act-Counts n (inc tmp) s h c = ground arith
act-Counts n (dec point0) s h c = ground arith
act-Counts n (dec point1) s h c = ground arith
act-Counts n (close point0 tmp) s h c = ground arith
act-Counts n (close point1 tmp) s h c = ground arith
act-Counts n (ready tmp) s h c = ground arith

then_acts-Counts :
    (m n : ℕ) (f : Shared → Option Shared) (o : Option Shared)
    → ((t : Shared) → IsCounted m t → Counts n (f t))
    → Counts m o
    → Counts n (then_acts f o)
then_acts-Counts m n f none k c = tt
then_acts-Counts m n f (some t) k c = k t c

acts-Counts :
    (xs : List Act) (n m : ℕ) (s : Shared)
    → n + length xs ≡ m
    → m + 2 < 2 ^ 27
    → IsCounted n s
    → Counts m (acts xs s)
unfolding acts
acts-Counts [] n m s e h c = subst (λ k. IsCounted k s) (omega (arith, e)) c
acts-Counts (a ∷ xs) n m s e h c =
    then_acts-Counts (suc n) m (acts xs) (act a s)
      (λ t k. acts-Counts xs (suc n) m t (omega (arith, e)) h k)
      (act-Counts n a s (omega (arith, e, h)) c)

unused-IsCounted : (r w : Bool) → IsCounted 0 (unused r w)
unused-IsCounted true true = ground arith
unused-IsCounted true false = ground arith
unused-IsCounted false true = ground arith
unused-IsCounted false false = ground arith

-- Nobody is told yet, or one of the two ends has come.
which_end :
    (n : ℕ) (s : Shared)
    → IsCounted n s
    → (((closed_of s.word ≡ 0) ⊎ (0 < s.held)) × (s.endings ≡ []))
      ⊎ (((closed_of s.word ≡ 2) × (s.held ≡ 0) × (s.endings ≡ tells (some point1) ∷ []))
          ⊎ ((closed_of s.word ≡ 4) × (s.held ≡ 0) × (s.endings ≡ tells (some point0) ∷ [])))
which_end n s c = ground arith

-- From a pipe that nobody uses or has closed, after any acts of any threads, fewer than 2^27 - 2: while
-- no point has closed it or a use goes on, nobody has been told of an end; else the end has come
-- once, and the listener told is that of the point opposite to the one that closed.
pub acts-told_once :
    (r w : Bool) (xs : List Act) (s : Shared)
    → length xs + 2 < 2 ^ 27
    → acts xs (unused r w) ≡ some s
    → (((closed_of s.word ≡ 0) ⊎ (0 < s.held)) × (s.endings ≡ []))
      ⊎ ((p : Point) × (closed_of s.word ≡ closed_bit p)
          × (s.held ≡ 0)
          × (s.endings ≡ tells (some (get_other_point p)) ∷ []))
acts-told_once r w xs s short e =
    let c = acts-Counts xs 0 (length xs) (unused r w) (omega arith) short (unused-IsCounted r w) in
    let now : IsCounted (length xs) s = rw e at c in
    elim (which_end (length xs) s now) [
      | inl going ↦ inl going
      | inr (inl (e0, h, told0)) ↦ inr (point0, e0, h, told0)
      | inr (inr (e1, h, told1)) ↦ inr (point1, e1, h, told1)
    ]

-- Once the end has come nobody uses the pipe, and no turn of a loop begins a use, closes it or tells
-- of an end again, whatever the turn had read before.
pub acts-over_for_good :
    (r w : Bool) (xs : List Act) (s : Shared) (tmp : ℕ) (p : Point)
    → length xs + 2 < 2 ^ 27
    → acts xs (unused r w) ≡ some s
    → s.endings ≢ []
    → (act (inc tmp) s ≡ some s) × (act (close p tmp) s ≡ some s) × (act (dec p) s ≡ none)
unfolding act inc_turn close_turn
acts-over_for_good r w xs s tmp p short e over =
    let c = acts-Counts xs 0 (length xs) (unused r w) (omega arith) short (unused-IsCounted r w) in
    let now : IsCounted (length xs) s = rw e at c in ground arith
