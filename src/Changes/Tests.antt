-- ===== src/Changes/Tests.antt =====
-- The lists of blocks of moon_code/sync/src/moon_runtime.c at concrete inputs, and the theorems about them
-- applied.
use moon_in_water.Prelude.{
  ℕ, ◌+◌, ◌*◌, take, ◌≡◌, ◌≢◌, refl, List, [], ◌∷◌, Bool, true, some, map, arith,
}
use moon_in_water.Wire.{little_endian, big_endian, store, load, convert_uint16}
use moon_in_water.Nums.{convert_to_moon_num, get_from_moon_num}
use moon_in_water.Changes.{
  pairs_at, put_num, del_loop, new_loop, new_id_loop, write_id_loop, MemBlock, sub64,
  packet_del_data, packet_new_data, packet_new_data_id, packet_write_data_id, chang_elem_head,
  dels_max_size, news_max_size, writes_max_size, overrun, unpack_del_data, unpack_new_data,
  unpack_new_data_id, unpack_write_data_id,
}
use moon_in_water.Changes.Blocks.{del_entry, new_entry, new_id_entry, write_id_entry}
use moon_in_water.Changes.RoundTrip.{
  Survives, unpack_del_data-packet_del_data, unpack_ids-packet_ids,
}
use moon_in_water.Changes.InPlace.{packet_in_place}
use moon_in_water.Changes.Lengths.{Within, packet_bounds}
use moon_in_water.Changes.Memory.{HasNums, unpack-ne-overrun, unpack_del_data-overrun}

abbrev block : ℕ → MemBlock
block n = record { id = n; type_id = 3; type_num = n + 1 }

abbrev blocks : List MemBlock
blocks = block 4 ∷ block 7 ∷ []

abbrev rewritten : List (MemBlock × MemBlock)
rewritten = (block 9, block 4) ∷ (block 10, block 7) ∷ []

abbrev always : ℕ → Bool
always n = true

packet_del_data_run : packet_del_data big_endian blocks ≡ some (2 ∷ 0 ∷ 4 ∷ 0 ∷ 3 ∷ 0 ∷ [])
unfolding packet_del_data sub64 convert_to_moon_num store convert_uint16
packet_del_data_run = refl

unpack_del_data-packet_del_data_example :
    Survives (λ h. packet_del_data h blocks) (unpack_del_data always) 2 (map del_entry blocks)
unpack_del_data-packet_del_data_example =
    unpack_del_data-packet_del_data always blocks (omega arith) (omega arith) refl

unpack_ids-packet_ids_example :
    Survives (λ h. packet_new_data h blocks) (unpack_new_data always) 2 (map new_entry blocks)
    × Survives
        (λ h. packet_new_data_id h blocks)
        (unpack_new_data_id always)
        2
        (map new_id_entry blocks)
    × Survives
        (λ h. packet_write_data_id h rewritten)
        (unpack_write_data_id always)
        2
        (map write_id_entry rewritten)
unpack_ids-packet_ids_example =
    unpack_ids-packet_ids always blocks rewritten (omega arith) (omega arith) (omega arith)
      (omega arith) (omega arith) (λ n h. refl)

packet_bounds_example :
    Within (chang_elem_head + dels_max_size 2) (packet_del_data big_endian blocks)
    × Within (chang_elem_head + news_max_size 2) (packet_new_data big_endian blocks)
    × Within (chang_elem_head + news_max_size 2) (packet_new_data_id big_endian blocks)
    × Within (chang_elem_head + writes_max_size 2) (packet_write_data_id big_endian rewritten)
packet_bounds_example = packet_bounds big_endian blocks rewritten

packet_in_place_example :
    Within
      (pairs_at 2 (dels_max_size 2) + 16 * 1)
      (put_num (convert_to_moon_num big_endian 2) (del_loop big_endian 0 (take 1 blocks)))
    × Within
        (pairs_at 2 (news_max_size 2) + 16 * 1)
        (put_num (convert_to_moon_num big_endian 2) (new_loop big_endian (take 1 blocks)))
    × Within
        (pairs_at 2 (news_max_size 2) + 16 * 1)
        (put_num (convert_to_moon_num big_endian 2) (new_id_loop big_endian 0 (take 1 blocks)))
    × Within
        (pairs_at 2 (writes_max_size 2) + 16 * 1)
        (put_num (convert_to_moon_num big_endian 2) (write_id_loop big_endian 0 (take 1 rewritten)))
packet_in_place_example = packet_in_place big_endian blocks rewritten 1 (omega arith) (omega arith)

-- Two entries.
abbrev two : List ℕ
two = 2 ∷ 0 ∷ 4 ∷ 0 ∷ 3 ∷ 0 ∷ []

two_run : get_from_moon_num little_endian two ≡ some (2, 4 ∷ 0 ∷ 3 ∷ 0 ∷ [])
unfolding get_from_moon_num load convert_uint16
two_run = refl

unpack-ne-overrun_example :
    (unpack_del_data always little_endian two ≢ overrun)
    × (unpack_new_data always little_endian two ≢ overrun)
    × (unpack_new_data_id always little_endian two ≢ overrun)
    × (unpack_write_data_id always little_endian two ≢ overrun)
unpack-ne-overrun_example =
    unpack-ne-overrun always little_endian 2 two (4 ∷ 0 ∷ 3 ∷ 0 ∷ []) two_run (omega arith)

-- 178956971 entries of 24 bytes are 2^32 + 8 bytes, of which 8 are allocated: room for the first id.
abbrev many : List ℕ
many = 0xab ∷ 0xaa ∷ 0x55 ∷ 0x15 ∷ 4 ∷ 0 ∷ 3 ∷ 0 ∷ []

many_run : get_from_moon_num little_endian many ≡ some (178956971, 4 ∷ 0 ∷ 3 ∷ 0 ∷ [])
unfolding get_from_moon_num load convert_uint16
many_run = refl

ids_run : HasNums little_endian 2 (4 ∷ 0 ∷ 3 ∷ 0 ∷ [])
unfolding get_from_moon_num load convert_uint16
ids_run = (4, 3 ∷ 0 ∷ [], refl, (3, [], refl, tt))

unpack_del_data-overrun_example : unpack_del_data always little_endian many ≡ overrun
unpack_del_data-overrun_example =
    unpack_del_data-overrun always little_endian 178956971 many (4 ∷ 0 ∷ 3 ∷ 0 ∷ []) 1 many_run
      (omega arith) (omega arith) (omega arith) (omega arith) refl ids_run
