-- ===== src/Structs/Tests.antt =====
-- The descriptions of types and the copies of numbers, moon_code/sync/src/shell/append.c, at concrete inputs, and
-- the theorems about them applied.
use moon_in_water.Prelude.{
  ℕ, ◌*◌, ◌≡◌, ◌<◌, refl, List, [], ◌∷◌, true, some, length, map, pos, negsuc, arith,
}
use moon_in_water.Wire.{little_endian, big_endian, store, low_first}
use moon_in_water.Structs.{
  Var, StructOne, get_target_offset, get_struct_all_to_buf_len, convert_struct_all_to_buf,
  converted, convert_buf_to_struct_all, first_addr,
}
use moon_in_water.Structs.Copy.{to_wire, to_host, unsigned_int_copy, signed_one, full_bytes}
use moon_in_water.Structs.Unsigned.{zero_bytes}
use moon_in_water.Structs.Numbers.{zeros_for, unsigned_int_copy-twice, signed_one-store}
use moon_in_water.Structs.Adopt.{AreAdopted}
use moon_in_water.Structs.Transfer.{convert_buf-convert_struct_all}
use moon_in_water.Structs.Target.{get_target_offset_lem}

-- A type of `size` bytes, and one with two fields of it.
abbrev basic : ℕ → StructOne
basic size = record { size = size; point_num = pos 0; vars = [] }

abbrev field : ℕ → ℕ → Var
field size addr = record { type_num = 0; len = 1; elem_size = size; size = size; addr = addr }

abbrev two_fields : ℕ → StructOne
two_fields size = record {
  size = 2 * size;
  point_num = pos 0;
  vars = field size 0 ∷ field size size ∷ [];
}

abbrev fours : List StructOne
fours = basic 4 ∷ two_fields 4 ∷ []

abbrev eights : List StructOne
eights = basic 8 ∷ two_fields 8 ∷ []

convert_buf-convert_struct_all_example :
    (bytes : List ℕ) × (convert_struct_all_to_buf big_endian true eights ≡ some bytes)
    × (length bytes ≡ get_struct_all_to_buf_len eights)
    × ((new : List StructOne) × (convert_buf_to_struct_all little_endian true fours bytes
          ≡ converted new)
        × AreAdopted eights fours eights new)
unfolding first_addr
convert_buf-convert_struct_all_example =
    convert_buf-convert_struct_all big_endian little_endian (basic 4) (two_fields 4 ∷ []) eights
      (omega arith) (omega arith)

get_target_offset_lem_example :
    ((k : ℕ)
      → (two_fields 4).vars ≡ []
      → 0 < 8
      → k < 3
      → get_target_offset fours eights (pos (k * 8)) (pos 1) (pos 3) ≡ some (pos (k * 16)))
    × ((o : ℕ) (v : Var) (vs : List Var)
        → (two_fields 4).vars ≡ v ∷ vs
        → 0 < o
        → o < 8 * 3
        → get_target_offset fours eights (pos o) (pos 1) (pos 3) ≡ some (negsuc 0))
get_target_offset_lem_example =
    get_target_offset_lem fours eights 1 3 (two_fields 4) (two_fields 8) refl refl (omega arith)
      (omega arith) (omega arith)

unsigned_int_copy-twice_example :
    unsigned_int_copy little_endian to_host
      (unsigned_int_copy big_endian to_wire
        (map (store big_endian 4) (300 ∷ 5 ∷ []))
        (zeros_for 2 (300 ∷ 5 ∷ [])))
      (zeros_for 8 (300 ∷ 5 ∷ []))
    ≡ map (store little_endian 8) (300 ∷ 5 ∷ [])
unsigned_int_copy-twice_example =
    unsigned_int_copy-twice big_endian little_endian 4 2 8 (300 ∷ 5 ∷ []) (omega arith)
      (omega arith) (omega arith)

-- 128 in two bytes, sent as four.
signed_one-store_example :
    signed_one big_endian to_wire (store big_endian 2 128) (zero_bytes 4) ≡ 128 ∷ 0 ∷ 255 ∷ 255 ∷ []
unfolding full_bytes low_first
signed_one-store_example = signed_one-store 1 4 128 (omega arith) (omega arith)
