-- ===== src/Useing/Once.antt =====
-- The call of `close_fun` by `useing_ref_dec` and `set_status_closed`,
-- moon_code/common/src/moon_common.h.
use moon_in_water.Prelude.{
  ℕ, suc, ◌+◌, ◌^◌, ◌%◌, ◌*◌, ◌<◌, ◌≤◌, ◌≡◌, ◌≢◌, Option, none, some, List, [], ◌∷◌, arith, length,
  subst, ◌⊎◌, add32, sub32, to_int,
}
use moon_in_water.Useing.{inc_turn, useing_ref_dec, close_turn}
use moon_in_water.Useing.Threads.{Shared, Act, inc, dec, close, act, acts, then_acts, unused}

-- The word counts the references, of which there are at most `n`; `close_fun` has been called once if
-- the word is closed without references, and else not.
pub record IsCounted (n : ℕ) (s : Shared) : Type 0 where
  pub parts : s.word ≡ 16 * s.held + s.word % 16
  pub few : s.held ≤ n
  pub last : s.word ≡ 15 → s.calls ≡ 1
  pub before : s.word ≢ 15 → s.calls ≡ 0

-- After an act that is possible.
abbrev Counts : ℕ → Option Shared → Type 0
Counts n none = Unit
Counts n (some s) = IsCounted n s

act-Counts :
    (n : ℕ) (a : Act) (s : Shared) → n + 2 < 2 ^ 27 → IsCounted n s → Counts (suc n) (act a s)
unfolding act inc_turn useing_ref_dec close_turn add32 sub32 to_int
act-Counts n (inc tmp) s h c = ground arith
act-Counts n dec s h c = ground arith
act-Counts n (close tmp) s h c = ground arith

then_acts-Counts :
    (m n : ℕ) (f : Shared → Option Shared) (o : Option Shared)
    → ((t : Shared) → IsCounted m t → Counts n (f t))
    → Counts m o
    → Counts n (then_acts f o)
then_acts-Counts m n f none k c = tt
then_acts-Counts m n f (some t) k c = k t c

acts-Counts :
    (xs : List Act) (n m : ℕ) (s : Shared)
    → n + length xs ≡ m
    → m + 2 < 2 ^ 27
    → IsCounted n s
    → Counts m (acts xs s)
unfolding acts
acts-Counts [] n m s e h c = subst (λ k. IsCounted k s) (omega (arith, e)) c
acts-Counts (a ∷ xs) n m s e h c =
    then_acts-Counts (suc n) m (acts xs) (act a s)
      (λ t k. acts-Counts xs (suc n) m t (omega (arith, e)) h k)
      (act-Counts n a s (omega (arith, e, h)) c)

unused-IsCounted : (status : ℕ) → status < 15 → IsCounted 0 (unused status)
unused-IsCounted status h = ground arith

-- From an unused word of a status other than closed, after any acts, fewer than 2^27 - 2: `close_fun`
-- has been called once if the word is closed and no reference is held, and else not at all; and the
-- word counts the references.
pub acts-close_once :
    (status : ℕ) (xs : List Act) (s : Shared)
    → status < 15
    → length xs + 2 < 2 ^ 27
    → acts xs (unused status) ≡ some s
    → ((s.word % 16 ≡ 15) × (s.held ≡ 0) × (s.calls ≡ 1))
      ⊎ (((s.word % 16 ≢ 15) ⊎ (0 < s.held)) × (s.calls ≡ 0) × (s.word ≡ 16 * s.held + s.word % 16))
acts-close_once status xs s not_closed short e =
    let c =
      acts-Counts xs 0 (length xs) (unused status) (omega arith) short
        (unused-IsCounted status not_closed) in
    let now : IsCounted (length xs) s = rw e at c in ground arith

-- Once `close_fun` has been called nobody holds a reference, and no turn of either loop changes the
-- word or calls it again, whatever the turn had read before.
pub acts-closed_for_good :
    (status : ℕ) (xs : List Act) (s : Shared) (tmp : ℕ)
    → status < 15
    → length xs + 2 < 2 ^ 27
    → acts xs (unused status) ≡ some s
    → s.calls ≡ 1
    → (act (inc tmp) s ≡ some s) × (act (close tmp) s ≡ some s) × (act dec s ≡ none)
unfolding act inc_turn close_turn
acts-closed_for_good status xs s tmp not_closed short e called =
    let c =
      acts-Counts xs 0 (length xs) (unused status) (omega arith) short
        (unused-IsCounted status not_closed) in
    let now : IsCounted (length xs) s = rw e at c in ground arith
