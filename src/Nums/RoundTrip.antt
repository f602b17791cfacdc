-- ===== src/Nums/RoundTrip.antt =====
-- `get_from_moon_num` on what `convert_to_moon_num` wrote, moon_code/sync/src/moon_runtime.c.
use moon_in_water.Prelude.{
  ℕ, ◌%◌, ◌^◌, ◌<◌, ◌≤◌, ◌≡◌, inl, inr, ap, ◌∙◌, arith, List, ◌++◌, leb, none, some, length,
  Bool-cases, leb→le,
}
use moon_in_water.Wire.{Host, low_first}
use moon_in_water.Nums.{
  elem_value, elem_big, convert_to_moon_num, last_elem, more_elems, get_value, get_elem16,
  get_elem32, third_elem, second_elem, first_elem, get_from_moon_num, moon_num_len,
}
use moon_in_water.Nums.Elems.{
  convert_elem16_lem, convert_elem32_lem, get_elem16-low_first, get_elem32-low_first,
  elem_value16-lt, elem_value32-lt,
}

-- The three layouts.
pub data Layout (h : Host) (num : ℕ) : Type 0 where
  two :
      num < 2 ^ 15
      → convert_to_moon_num h num ≡ some (low_first 2 (elem_value 15 num 0))
      → Layout h num
  four :
      2 ^ 15 ≤ num
      → num < 2 ^ 30
      → convert_to_moon_num h num
        ≡ some (low_first 2 (elem_value 15 num 0) ++ low_first 2 (elem_value 15 num 15))
      → Layout h num
  eight :
      2 ^ 30 ≤ num
      → num < 2 ^ 62
      → convert_to_moon_num h num
        ≡ some (
            low_first 2 (elem_value 15 num 0)
            ++ (low_first 2 (elem_value 15 num 15) ++ low_first 4 (elem_value 31 num 30)))
      → Layout h num

pub layout : (h : Host) (num : ℕ) → num < 2 ^ 62 → Layout h num
unfolding convert_to_moon_num elem_big
layout h num k = elim (Bool-cases (leb (2 ^ 15) num)) [
  | inl big ↦ elim (Bool-cases (leb (2 ^ 30) num)) [
    | inl large ↦ eight (leb→le _ _ large) k (
        ground (
          arith,
          convert_elem16_lem h num 0,
          convert_elem16_lem h num 15,
          convert_elem32_lem h num 30,
        ))
    | inr small ↦
        four (leb→le _ _ big) (ground arith)
          (ground (arith, convert_elem16_lem h num 0, convert_elem16_lem h num 15))
  ]
  | inr small ↦ two (ground arith) (ground (arith, convert_elem16_lem h num 0))
]

-- What a reader makes of each element.
pub get_first_last :
    (num : ℕ) (rest : List ℕ)
    → num < 2 ^ 15
    → get_value 15 0 0 (elem_value 15 num 0) rest ≡ last_elem num rest
unfolding get_value elem_value
get_first_last num rest k = ground arith

pub get_first_more :
    (num : ℕ) (rest : List ℕ)
    → 2 ^ 15 ≤ num
    → get_value 15 0 0 (elem_value 15 num 0) rest ≡ more_elems (num % 2 ^ 15) 15 rest
unfolding get_value elem_value
get_first_more num rest k = ground arith

pub get_second_last :
    (num : ℕ) (rest : List ℕ)
    → 2 ^ 15 ≤ num
    → num < 2 ^ 30
    → get_value 15 (num % 2 ^ 15) 15 (elem_value 15 num 15) rest ≡ last_elem num rest
unfolding get_value elem_value
get_second_last num rest k l = ground arith

pub get_second_more :
    (num : ℕ) (rest : List ℕ)
    → 2 ^ 30 ≤ num
    → num < 2 ^ 62
    → get_value 15 (num % 2 ^ 15) 15 (elem_value 15 num 15) rest ≡ more_elems (num % 2 ^ 30) 30 rest
unfolding get_value elem_value
get_second_more num rest k l = ground arith

pub get_third :
    (num : ℕ) (rest : List ℕ)
    → 2 ^ 30 ≤ num
    → num < 2 ^ 62
    → third_elem (get_value 31 (num % 2 ^ 30) 30 (elem_value 31 num 30) rest) ≡ some (num, rest)
unfolding get_value elem_value third_elem
get_third num rest k l = ground arith

-- The first element, the second and the third of what was written, by any reader.
pub first_last :
    (h : Host) (num : ℕ) (rest : List ℕ)
    → num < 2 ^ 15
    → get_from_moon_num h (low_first 2 (elem_value 15 num 0) ++ rest) ≡ some (num, rest)
unfolding get_from_moon_num first_elem
first_last h num rest k =
    ap (first_elem h)
      (get_elem16-low_first h 0 0 _ rest (elem_value16-lt num 0) ∙ get_first_last num rest k)

pub first_more :
    (h : Host) (num : ℕ) (rest : List ℕ)
    → 2 ^ 15 ≤ num
    → get_from_moon_num h (low_first 2 (elem_value 15 num 0) ++ rest)
      ≡ second_elem h (get_elem16 h (num % 2 ^ 15) 15 rest)
unfolding get_from_moon_num first_elem
first_more h num rest k =
    ap (first_elem h)
      (get_elem16-low_first h 0 0 _ rest (elem_value16-lt num 0) ∙ get_first_more num rest k)

pub second_last :
    (h : Host) (num : ℕ) (rest : List ℕ)
    → 2 ^ 15 ≤ num
    → num < 2 ^ 30
    → second_elem h (get_elem16 h (num % 2 ^ 15) 15 (low_first 2 (elem_value 15 num 15) ++ rest))
      ≡ some (num, rest)
unfolding second_elem
second_last h num rest k l =
    ap (second_elem h)
      (get_elem16-low_first h _ 15 _ rest (elem_value16-lt num 15) ∙ get_second_last num rest k l)

pub second_more :
    (h : Host) (num : ℕ) (rest : List ℕ)
    → 2 ^ 30 ≤ num
    → num < 2 ^ 62
    → second_elem h (get_elem16 h (num % 2 ^ 15) 15 (low_first 2 (elem_value 15 num 15) ++ rest))
      ≡ third_elem (get_elem32 h (num % 2 ^ 30) 30 rest)
unfolding second_elem
second_more h num rest k l =
    ap (second_elem h)
      (get_elem16-low_first h _ 15 _ rest (elem_value16-lt num 15) ∙ get_second_more num rest k l)

third_last :
    (h : Host) (num : ℕ) (rest : List ℕ)
    → 2 ^ 30 ≤ num
    → num < 2 ^ 62
    → third_elem (get_elem32 h (num % 2 ^ 30) 30 (low_first 4 (elem_value 31 num 30) ++ rest))
      ≡ some (num, rest)
third_last h num rest k l =
    ap third_elem (get_elem32-low_first h _ 30 _ rest (elem_value32-lt num 30))
    ∙ get_third num rest k l

abbrev ReadsBack : ℕ → List ℕ → Type 0
ReadsBack num bytes =
    (h : Host) (rest : List ℕ) → get_from_moon_num h (bytes ++ rest) ≡ some (num, rest)

-- Every number below 2^62 is written, in as many bytes as `moon_num_len` says, and a host of either
-- order reads it back from them, whatever bytes follow.
pub get_from-convert_to :
    (h : Host) (num : ℕ)
    → num < 2 ^ 62
    → (bytes : List ℕ) × (convert_to_moon_num h num ≡ some bytes)
      × (length bytes ≡ moon_num_len num)
      × ((h' : Host) (rest : List ℕ) → get_from_moon_num h' (bytes ++ rest) ≡ some (num, rest))
unfolding moon_num_len low_first
get_from-convert_to h num k = elim (layout h num k) [
  | two a e ↦ (_, e, ground arith, λ h' rest. first_last h' num rest a)
  | four a b e ↦
      (_, e, ground arith, λ h' rest. first_more h' num _ a ∙ second_last h' num rest a b)
  | eight a b e ↦ (
    _,
    e,
    ground arith,
    λ h' rest.
        first_more h' num _ (omega arith) ∙ second_more h' num _ a b ∙ third_last h' num rest a b,
  )
]

-- A number from 2^62 on is refused.
pub convert_to-large : (h : Host) (num : ℕ) → 2 ^ 62 ≤ num → convert_to_moon_num h num ≡ none
unfolding convert_to_moon_num
convert_to-large h num k = ground arith
