-- ===== src/Wire.antt =====
-- The byte order on the wire: `is_little`, `_CONVERT_NUM` and `convert_uint16_t`, `convert_uint32_t`,
-- `convert_uint64_t` of moon_code/common/src/moon_common.h.
pub mod Order
mod Tests
use moon_in_water.Prelude.{
  ℕ, zero, suc, ◌+◌, ◌*◌, ◌/◌, ◌%◌, ◌^◌, ◌==◌, if◌then◌else◌, List, [], ◌∷◌, ◌++◌, Bool, true,
  false, not,
}

-- How the host that runs the code lays a number out in memory.
pub data Host : Type 0 where
  little_endian big_endian : Host

-- The n bytes of a number, the lowest first, and the highest first.
unfoldable pub low_first : ℕ → ℕ → List ℕ
low_first zero v = []
low_first (suc n) v = (v % 256) ∷ low_first n (v / 256)

unfoldable pub high_first : ℕ → ℕ → List ℕ
high_first zero v = []
high_first (suc n) v = high_first n (v / 256) ++ (v % 256) ∷ []

-- A store of an n-byte number to memory, and a load of the bytes of memory as a number.
unfoldable pub store : Host → ℕ → ℕ → List ℕ
unfolding low_first high_first
store little_endian n v = low_first n v
store big_endian n v = high_first n v

unfoldable pub load_low : List ℕ → ℕ
load_low [] = 0
load_low (b ∷ bs) = b + 256 * load_low bs

unfoldable pub load_high : ℕ → List ℕ → ℕ
load_high acc [] = acc
load_high acc (b ∷ bs) = load_high (acc * 256 + b) bs

unfoldable pub load : Host → List ℕ → ℕ
unfolding load_low load_high
load little_endian bs = load_low bs
load big_endian bs = load_high 0 bs

first_byte : List ℕ → ℕ
first_byte [] = 0
first_byte (b ∷ bs) = b

-- The first byte of an `unsigned long` of 0xaa.
unfoldable pub is_little : Host → Bool
unfolding store first_byte
is_little h = first_byte (store h 8 0xaa) == 0xaa

-- The halves of a word of w bits exchanged: `x >> w / 2 | x << w / 2`, of which w bits are kept.
-- The two share no bit, so the bitwise or is their sum.
unfoldable pub swap_halves : ℕ → ℕ → ℕ
swap_halves w x = x / 2 ^ (w / 2) + x * 2 ^ (w / 2) % 2 ^ w

-- `_CONVERT_NUM( pc, cur_type, times )`: each of the words of w bits in the number by itself.
unfoldable pub convert_num : ℕ → ℕ → ℕ → ℕ
unfolding swap_halves
convert_num w zero v = 0
convert_num w (suc times) v = swap_halves w (v % 2 ^ w) + 2 ^ w * convert_num w times (v / 2 ^ w)

unfoldable pub convert_uint16 : Host → ℕ → ℕ
unfolding is_little convert_num
convert_uint16 h v = if not (is_little h) then convert_num 16 1 v else v

unfoldable pub convert_uint32 : Host → ℕ → ℕ
unfolding is_little convert_num
convert_uint32 h v = if not (is_little h) then convert_num 32 1 (convert_num 16 2 v) else v

unfoldable pub convert_uint64 : Host → ℕ → ℕ
unfolding is_little convert_num
convert_uint64 h v =
    if not (is_little h) then convert_num 64 1 (convert_num 32 2 (convert_num 16 4 v)) else v
