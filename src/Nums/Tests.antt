-- ===== src/Nums/Tests.antt =====
-- The numbers of moon_code/sync/src/moon_runtime.c at concrete inputs, and the theorems about them applied.
use moon_in_water.Prelude.{ℕ, ◌^◌, ◌≡◌, refl, List, [], ◌∷◌, ◌++◌, some, length, arith}
use moon_in_water.Wire.{Host, little_endian, big_endian, store, load, convert_uint16}
use moon_in_water.Nums.{convert_to_moon_num, get_from_moon_num, moon_num_len}
use moon_in_water.Nums.RoundTrip.{get_from-convert_to}

-- 2^15 + 5.
convert_to_moon_num_run : convert_to_moon_num big_endian 32773 ≡ some (5 ∷ 128 ∷ 1 ∷ 0 ∷ [])
unfolding convert_to_moon_num store convert_uint16
convert_to_moon_num_run = refl

get_from_moon_num_run :
    get_from_moon_num little_endian (5 ∷ 128 ∷ 1 ∷ 0 ∷ 9 ∷ []) ≡ some (32773, 9 ∷ [])
unfolding get_from_moon_num load convert_uint16
get_from_moon_num_run = refl

get_from-convert_to_example :
    (bytes : List ℕ) × (convert_to_moon_num big_endian (2 ^ 40) ≡ some bytes)
    × (length bytes ≡ moon_num_len (2 ^ 40))
    × ((h' : Host) (rest : List ℕ) → get_from_moon_num h' (bytes ++ rest) ≡ some (2 ^ 40, rest))
get_from-convert_to_example = get_from-convert_to big_endian (2 ^ 40) (omega arith)
