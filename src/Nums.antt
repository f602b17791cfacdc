-- ===== src/Nums.antt =====
-- The numbers of variable length: `_CONVERT_ELEM`, `convert_to_moon_num`, `_GET_ELEM`,
-- `get_from_moon_num` and `moon_num_len` of moon_code/sync/src/moon_runtime.c. Bytes are written at
-- the pointer that the caller passes; here they are the list that is returned. What is read is the
-- list of the `*p_len` bytes that are left.
mod Elems
pub mod RoundTrip
pub mod Short
mod Tests
use moon_in_water.Prelude.{
  ℕ, zero, suc, ◌+◌, ◌*◌, ◌-◌, ◌/◌, ◌%◌, ◌^◌, ltb, leb, ◌==◌, if◌then◌else◌, List, [], ◌∷◌, ◌++◌,
  Bool, true, false, not, Option, none, some,
}
use moon_in_water.Wire.{Host, store, load, convert_uint16, convert_uint32}

abbrev pub u64 : ℕ
u64 = 2 ^ 64

-- An element of a C type with `digits` value bits and a top bit that says whether more follows: what
-- is stored before its conversion, and whether the number is too big for it.
unfoldable pub elem_value : ℕ → ℕ → ℕ → ℕ
elem_value digits num bits =
    num / 2 ^ bits % 2 ^ digits + (if leb (2 ^ (digits + bits)) num then 2 ^ digits else 0)

unfoldable pub elem_big : ℕ → ℕ → ℕ → Bool
elem_big digits num bits = leb (2 ^ (digits + bits)) num

-- `_CONVERT_ELEM` with `uint16_t` and with `uint32_t`: the bytes that it leaves.
unfoldable pub convert_elem16 : Host → ℕ → ℕ → List ℕ
unfolding elem_value
convert_elem16 h num bits = store h 2 (convert_uint16 h (elem_value 15 num bits))

unfoldable pub convert_elem32 : Host → ℕ → ℕ → List ℕ
unfolding elem_value
convert_elem32 h num bits = store h 4 (convert_uint32 h (elem_value 31 num bits))

-- The length that the code adds to `*p_len` is that of the list.
unfoldable pub convert_to_moon_num : Host → ℕ → Option (List ℕ)
unfolding convert_elem16 convert_elem32 elem_big
convert_to_moon_num h num =
    if leb (2 ^ 62) num
    then none
    else (if not (elem_big 15 num 0)
        then some (convert_elem16 h num 0)
        else (if not (elem_big 15 num 15)
            then some (convert_elem16 h num 0 ++ convert_elem16 h num 15)
            else some
                (convert_elem16 h num 0 ++ (convert_elem16 h num 15 ++ convert_elem32 h num 30))))

-- What `_GET_ELEM` returns: -1, 0 or 1, with the number, the bits read and the bytes left.
pub data Got : Type 0 where
  too_short : Got
  last_elem : ℕ → List ℕ → Got
  more_elems : ℕ → ℕ → List ℕ → Got

-- Its body on the value that was loaded and converted.
unfoldable pub get_value : ℕ → ℕ → ℕ → ℕ → List ℕ → Got
get_value digits num bits tmp rest =
    let num' = (num + tmp % 2 ^ digits * 2 ^ bits) % u64 in
    if ltb 0 (tmp / 2 ^ digits % 2)
    then more_elems num' (bits + digits) rest
    else last_elem num' rest

unfoldable pub get_elem16 : Host → ℕ → ℕ → List ℕ → Got
unfolding get_value
get_elem16 h num bits (a ∷ b ∷ rest) =
    get_value 15 num bits (convert_uint16 h (load h (a ∷ b ∷ []))) rest
get_elem16 h num bits short = too_short

unfoldable pub get_elem32 : Host → ℕ → ℕ → List ℕ → Got
unfolding get_value
get_elem32 h num bits (a ∷ b ∷ c ∷ d ∷ rest) =
    get_value 31 num bits (convert_uint32 h (load h (a ∷ b ∷ c ∷ d ∷ []))) rest
get_elem32 h num bits short = too_short

-- The third element, the second and the first. `none` is the result -1.
unfoldable pub third_elem : Got → Option (ℕ × List ℕ)
third_elem too_short = none
third_elem (last_elem num rest) = some (num, rest)
third_elem (more_elems num bits rest) = some ((num + 2 ^ bits) % u64, rest)

unfoldable pub second_elem : Host → Got → Option (ℕ × List ℕ)
unfolding third_elem get_elem32
second_elem h too_short = none
second_elem h (last_elem num rest) = some (num, rest)
second_elem h (more_elems num bits rest) = third_elem (get_elem32 h num bits rest)

unfoldable pub first_elem : Host → Got → Option (ℕ × List ℕ)
unfolding second_elem get_elem16
first_elem h too_short = none
first_elem h (last_elem num rest) = some (num, rest)
first_elem h (more_elems num bits rest) = second_elem h (get_elem16 h num bits rest)

-- The number that starts the bytes, and the bytes after it.
unfoldable pub get_from_moon_num : Host → List ℕ → Option (ℕ × List ℕ)
unfolding first_elem get_elem16
get_from_moon_num h bytes = first_elem h (get_elem16 h 0 0 bytes)

-- The length that the code's own test expects.
unfoldable pub moon_num_len : ℕ → ℕ
moon_num_len num = if ltb num (2 ^ 15) then 2 else (if ltb num (2 ^ 30) then 4 else 8)
