-- ===== src/Nums/Short.antt =====
-- `get_from_moon_num` of moon_code/sync/src/moon_runtime.c on fewer bytes than were written.
use moon_in_water.Prelude.{
  ℕ, zero, suc, ◌^◌, ◌<◌, ◌≤◌, ◌≡◌, refl, sym, subst, ◌∙◌, arith, List, [], ◌∷◌, ◌++◌, none, some,
  length, length-take, take,
}
use moon_in_water.Wire.{Host, low_first}
use moon_in_water.Nums.{
  elem_value, convert_to_moon_num, get_elem16, get_elem32, third_elem, second_elem, first_elem,
  get_from_moon_num,
}
use moon_in_water.Nums.RoundTrip.{two, four, eight, layout, first_more, second_more}

-- Too few bytes for the first element, for the second, and for the third.
first_short : (h : Host) (bytes : List ℕ) → length bytes < 2 → get_from_moon_num h bytes ≡ none
unfolding get_from_moon_num first_elem get_elem16
first_short h [] k = refl
first_short h (a ∷ []) k = refl
first_short h (a ∷ b ∷ bytes) k = absurd (omega arith)

second_short :
    (h : Host) (num bits : ℕ) (bytes : List ℕ)
    → length bytes < 2
    → second_elem h (get_elem16 h num bits bytes) ≡ none
unfolding second_elem get_elem16
second_short h num bits [] k = refl
second_short h num bits (a ∷ []) k = refl
second_short h num bits (a ∷ b ∷ bytes) k = absurd (omega arith)

third_short :
    (h : Host) (num bits : ℕ) (bytes : List ℕ)
    → length bytes < 4
    → third_elem (get_elem32 h num bits bytes) ≡ none
unfolding third_elem get_elem32
third_short h num bits [] k = refl
third_short h num bits (a ∷ []) k = refl
third_short h num bits (a ∷ b ∷ []) k = refl
third_short h num bits (a ∷ b ∷ c ∷ []) k = refl
third_short h num bits (a ∷ b ∷ c ∷ d ∷ bytes) k = absurd (omega arith)

four_short :
    (h : Host) (num n : ℕ) (bytes : List ℕ)
    → 2 ^ 15 ≤ num
    → n < 4
    → get_from_moon_num h (take n (low_first 2 (elem_value 15 num 0) ++ bytes)) ≡ none
unfolding low_first
four_short h num zero bytes k l = first_short h _ (omega arith)
four_short h num (suc zero) bytes k l = first_short h _ (omega arith)
four_short h num (suc (suc n)) bytes k l =
    unfold low_first in
    first_more h num (take n bytes) k ∙ second_short h _ 15 _ (omega (arith, length-take n bytes))

eight_short :
    (h : Host) (num n : ℕ) (bytes : List ℕ)
    → 2 ^ 30 ≤ num
    → num < 2 ^ 62
    → n < 8
    → get_from_moon_num h (
        take n (low_first 2 (elem_value 15 num 0) ++ (low_first 2 (elem_value 15 num 15) ++ bytes)))
      ≡ none
unfolding low_first
eight_short h num zero bytes k m l = first_short h _ (omega arith)
eight_short h num (suc zero) bytes k m l = first_short h _ (omega arith)
eight_short h num (suc (suc zero)) bytes k m l =
    four_short h num 2 (low_first 2 (elem_value 15 num 15) ++ bytes) (omega arith) (omega arith)
eight_short h num (suc (suc (suc zero))) bytes k m l =
    four_short h num 3 (low_first 2 (elem_value 15 num 15) ++ bytes) (omega arith) (omega arith)
eight_short h num (suc (suc (suc (suc n)))) bytes k m l =
    unfold low_first in
    first_more h num _ (omega arith)
    ∙ unfold low_first in
      second_more h num (take n bytes) k m
      ∙ third_short h _ 30 _ (omega (arith, length-take n bytes))

-- No proper prefix of the bytes is a number to a reader.
abbrev IsShort : Host → List ℕ → Type 0
IsShort h bytes = (n : ℕ) → n < length bytes → get_from_moon_num h (take n bytes) ≡ none

IsShort-some : (h : Host) (xs ys : List ℕ) → some xs ≡ some ys → IsShort h xs → IsShort h ys
IsShort-some h xs ys e p = let w : xs ≡ ys = cc in subst (IsShort h) w p

-- On a proper prefix of what was written for a number the reader reports an error, on every host.
pub get_from_short :
    (h h' : Host) (num n : ℕ) (bytes : List ℕ)
    → num < 2 ^ 62
    → convert_to_moon_num h num ≡ some bytes
    → n < length bytes
    → get_from_moon_num h' (take n bytes) ≡ none
unfolding low_first
get_from_short h h' num n bytes k e = elim (layout h num k) [
  | two a d ↦
      IsShort-some h' _ bytes (sym d ∙ e)
        (λ i l. first_short h' _ (omega (arith, length-take i (low_first 2 (elem_value 15 num 0)))))
        n
  | four a b d ↦ IsShort-some h' _ bytes (sym d ∙ e) (λ i l. four_short h' num i _ a l) n
  | eight a b d ↦ IsShort-some h' _ bytes (sym d ∙ e) (λ i l. eight_short h' num i _ a b l) n
]
