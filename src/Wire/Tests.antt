-- ===== src/Wire/Tests.antt =====
-- The byte order code of moon_code/common/src/moon_common.h at concrete inputs, and the theorem about it
-- applied.
use moon_in_water.Prelude.{ℕ, ◌^◌, ◌<◌, ◌≡◌, refl, [], ◌∷◌}
use moon_in_water.Wire.{
  big_endian, store, low_first, convert_uint16, convert_uint32, convert_uint64,
}
use moon_in_water.Wire.Order.{wire_bytes}

convert_uint32_run : convert_uint32 big_endian 0x01020304 ≡ 0x04030201
unfolding convert_uint32
convert_uint32_run = refl

store_run : store big_endian 4 0x01020304 ≡ 1 ∷ 2 ∷ 3 ∷ 4 ∷ []
unfolding store
store_run = refl

wire_bytes_example :
    ((v : ℕ) → v < 2 ^ 16 → store big_endian 2 (convert_uint16 big_endian v) ≡ low_first 2 v)
    × ((v : ℕ) → v < 2 ^ 32 → store big_endian 4 (convert_uint32 big_endian v) ≡ low_first 4 v)
    × ((v : ℕ) → v < 2 ^ 64 → store big_endian 8 (convert_uint64 big_endian v) ≡ low_first 8 v)
wire_bytes_example = wire_bytes big_endian
