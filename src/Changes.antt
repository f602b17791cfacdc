-- ===== src/Changes.antt =====
-- The lists of deleted, written and new blocks of a packet: `packet_del_data`, `packet_new_data`,
-- `packet_write_data_id`, `packet_new_data_id`, `unpack_del_data`, `unpack_new_data`,
-- `unpack_new_data_id` and `unpack_write_data_id` of moon_code/sync/src/moon_runtime.c.
mod Blocks
pub mod Lengths
mod InPlace
mod Loops
mod Memory
mod RoundTrip
mod Tests
use moon_in_water.Prelude.{
  ℕ, zero, suc, ◌+◌, ◌*◌, ◌-◌, ◌%◌, ◌^◌, ltb, leb, if◌then◌else◌, List, [], ◌∷◌, ◌++◌, Bool, Option,
  none, some, length, map, ℤ, to_int, pos_part,
}
use moon_in_water.Wire.{Host}
use moon_in_water.Nums.{u64, convert_to_moon_num, get_from_moon_num}

-- What the packets say of a memory block.
pub record MemBlock : Type 0 where
  pub id : ℕ
  pub type_id : ℕ
  pub type_num : ℕ

-- `id_array` of an entry of `p_ids`. What the code does not set is 0 here.
pub record Entry : Type 0 where
  pub id_0 : ℕ
  pub id_1 : ℕ
  pub id_2 : ℕ

-- `uint64_t` addition and subtraction.
unfoldable pub add64 : ℕ → ℕ → ℕ
add64 a b = (a + b) % u64

unfoldable pub sub64 : ℕ → ℕ → ℕ
sub64 a b = (a + (u64 - b % u64)) % u64

-- `CHANG_ELEM_HEAD`, `DELS_MAX_SIZE`, `WRITES_MAX_SIZE` and `NEWS_MAX_SIZE`: the room for the count,
-- and for the entries of `num` blocks.
unfoldable pub chang_elem_head : ℕ
chang_elem_head = 8

unfoldable pub dels_max_size : ℕ → ℕ
dels_max_size num = 8 * num

unfoldable pub writes_max_size : ℕ → ℕ
writes_max_size num = 8 * (num * 2)

unfoldable pub news_max_size : ℕ → ℕ
news_max_size num = 8 * (num * 3)

-- `PAIRS_SIZE`, and where `pairs` begins in the memory of a list: the 16 bytes of each pair stand at the
-- end of it, and the packed bytes are written from its start on. The sizes fit an int.
unfoldable pub pairs_size : ℕ → ℕ
pairs_size num = num * 16

unfoldable pub pairs_at : ℕ → ℕ → ℕ
unfolding pairs_size chang_elem_head
pairs_at num max_size =
    chang_elem_head
    + (if ltb (pairs_size num) max_size then max_size else pairs_size num)
    - pairs_size num

-- The bytes of several numbers, one after the other. `none` where one of them is refused.
unfoldable pub put_num : Option (List ℕ) → Option (List ℕ) → Option (List ℕ)
put_num none after = none
put_num (some bytes) none = none
put_num (some bytes) (some after) = some (bytes ++ after)

module _ (h : Host) where
  unfoldable pub del_loop : ℕ → List MemBlock → Option (List ℕ)
  unfolding put_num
  del_loop prev [] = some []
  del_loop prev (b ∷ bs) = put_num (convert_to_moon_num h (sub64 b.id prev)) (del_loop b.id bs)

  unfoldable pub packet_del_data : List MemBlock → Option (List ℕ)
  unfolding del_loop
  packet_del_data pairs = put_num (convert_to_moon_num h (length pairs)) (del_loop 0 pairs)

  unfoldable pub new_loop : List MemBlock → Option (List ℕ)
  unfolding put_num
  new_loop [] = some []
  new_loop (b ∷ bs) =
      put_num (convert_to_moon_num h b.type_id)
        (put_num (convert_to_moon_num h b.type_num) (new_loop bs))

  unfoldable pub packet_new_data : List MemBlock → Option (List ℕ)
  unfolding new_loop
  packet_new_data pairs = put_num (convert_to_moon_num h (length pairs)) (new_loop pairs)

  -- A written block with the block that it had been, `pairs[ i ]` and `prev_pairs[ i ]`.
  unfoldable pub write_id_loop : ℕ → List (MemBlock × MemBlock) → Option (List ℕ)
  unfolding put_num
  write_id_loop prev [] = some []
  write_id_loop prev ((b, old) ∷ bs) =
      put_num (convert_to_moon_num h (sub64 old.id prev))
        (put_num (convert_to_moon_num h (sub64 b.id old.id)) (write_id_loop old.id bs))

  unfoldable pub packet_write_data_id : List (MemBlock × MemBlock) → Option (List ℕ)
  unfolding write_id_loop
  packet_write_data_id pairs =
      put_num (convert_to_moon_num h (length pairs)) (write_id_loop 0 pairs)

  unfoldable pub new_id_loop : ℕ → List MemBlock → Option (List ℕ)
  unfolding put_num
  new_id_loop prev [] = some []
  new_id_loop prev (b ∷ bs) = put_num (convert_to_moon_num h b.type_id) (
      put_num (convert_to_moon_num h b.type_num)
        (put_num (convert_to_moon_num h (sub64 b.id prev)) (new_id_loop b.id bs)))

  unfoldable pub packet_new_data_id : List MemBlock → Option (List ℕ)
  unfolding new_id_loop
  packet_new_data_id pairs = put_num (convert_to_moon_num h (length pairs)) (new_id_loop 0 pairs)

-- What an unpacking comes to: the int `num`, the entries of `p_ids` and the bytes left; the error
-- -1; or a write past the end of the memory that was allocated for `p_ids`.
pub data Unpacked : Type 0 where
  unpacked : ℤ → List Entry → List ℕ → Unpacked
  refused : Unpacked
  overrun : Unpacked

-- One more entry in front.
unfoldable pub with_entry : Entry → Unpacked → Unpacked
with_entry b (unpacked num ids rest) = unpacked num (b ∷ ids) rest
with_entry b refused = refused
with_entry b overrun = overrun

-- The size that `malloc` is asked for: `sizeof( *p_ids ) * num`, kept in an int.
unfoldable pub ids_size : ℕ → ℕ
ids_size num =
    let size = 24 * num % 2 ^ 32 in if ltb size (2 ^ 31) then size else size + (2 ^ 64 - 2 ^ 32)

-- The first `width` bytes of the entry at `i` are written, if they lie in the memory: 8 for `id_array[ 0 ]`
-- alone, 16 with `id_array[ 1 ]` and 24 with `id_array[ 2 ]`.
unfoldable pub write_entry : ℕ → ℕ → ℕ → Entry → Unpacked → Unpacked
unfolding with_entry
write_entry width size i b rest = if leb (24 * i + width) size then with_entry b rest else overrun

-- Two and three numbers in a row, `||` of their errors.
module _ (h : Host) where
  unfoldable pub get_two : List ℕ → Option (ℕ × ℕ × List ℕ)
  get_two bytes = elim (get_from_moon_num h bytes) [
    | none ↦ none
    | some (a, more) ↦ elim (get_from_moon_num h more) [
      | none ↦ none
      | some (b, rest) ↦ some (a, b, rest)
    ]
  ]

  unfoldable pub get_three : List ℕ → Option (ℕ × ℕ × ℕ × List ℕ)
  unfolding get_two
  get_three bytes = elim (get_two bytes) [
    | none ↦ none
    | some (a, b, more) ↦ elim (get_from_moon_num h more) [
      | none ↦ none
      | some (c, rest) ↦ some (a, b, c, rest)
    ]
  ]

-- The loops, with the rounds that are left, `i` and `u64_tmp`.
module _ (h : Host) (num : ℤ) (size : ℕ) where
  unfoldable pub undel_loop : ℕ → ℕ → ℕ → List ℕ → Unpacked
  unfolding write_entry
  undel_loop zero i tmp bytes = unpacked num [] bytes
  undel_loop (suc n) i tmp bytes = elim (get_from_moon_num h bytes) [
    | none ↦ refused
    | some (d, rest) ↦
        write_entry 8 size i (record { id_0 = add64 tmp d; id_1 = 0; id_2 = 0 })
          (undel_loop n (i + 1) (add64 tmp d) rest)
  ]

  unfoldable pub unnew_loop : ℕ → ℕ → List ℕ → Unpacked
  unfolding write_entry
  unnew_loop zero i bytes = unpacked num [] bytes
  unnew_loop (suc n) i bytes = elim (get_two h bytes) [
    | none ↦ refused
    | some (a, b, rest) ↦
        write_entry 16 size i (record { id_0 = a; id_1 = b; id_2 = 0 }) (unnew_loop n (i + 1) rest)
  ]

  unfoldable pub unnew_id_loop : ℕ → ℕ → ℕ → List ℕ → Unpacked
  unfolding write_entry
  unnew_id_loop zero i tmp bytes = unpacked num [] bytes
  unnew_id_loop (suc n) i tmp bytes = elim (get_three h bytes) [
    | none ↦ refused
    | some (a, b, d, rest) ↦
        write_entry 24 size i (record { id_0 = a; id_1 = b; id_2 = add64 tmp d })
          (unnew_id_loop n (i + 1) (add64 tmp d) rest)
  ]

  -- `id_array[ 0 ]` is the old id of a written block and `id_array[ 1 ]` the new one.
  unfoldable pub unwrite_id_loop : ℕ → ℕ → ℕ → List ℕ → Unpacked
  unfolding write_entry
  unwrite_id_loop zero i tmp bytes = unpacked num [] bytes
  unwrite_id_loop (suc n) i tmp bytes = elim (get_two h bytes) [
    | none ↦ refused
    | some (d, e, rest) ↦
        write_entry 16 size i
          (record { id_0 = add64 tmp d; id_1 = add64 e (add64 tmp d); id_2 = 0 })
          (unwrite_id_loop n (i + 1) (add64 tmp d) rest)
  ]

-- The number in front as an int, and the memory for as many entries. Whether `malloc` has a block of
-- a size is the first argument.
unfoldable pub start_ids :
    (ℕ → Bool) → (ℤ → ℕ → ℕ → List ℕ → Unpacked) → Option (ℕ × List ℕ) → Unpacked
unfolding ids_size
start_ids malloc loop none = refused
start_ids malloc loop (some (n, rest)) =
    let num = to_int (n % 2 ^ 32) in
    let size = ids_size (n % 2 ^ 32) in
    if malloc size then loop num size (pos_part num) rest else refused

module _ (malloc : ℕ → Bool) (h : Host) (bytes : List ℕ) where
  unfoldable pub unpack_del_data : Unpacked
  unfolding start_ids undel_loop
  unpack_del_data =
      start_ids malloc (λ num size n rest. undel_loop h num size n 0 0 rest)
        (get_from_moon_num h bytes)

  unfoldable pub unpack_new_data : Unpacked
  unfolding start_ids unnew_loop
  unpack_new_data =
      start_ids malloc (λ num size n rest. unnew_loop h num size n 0 rest)
        (get_from_moon_num h bytes)

  unfoldable pub unpack_new_data_id : Unpacked
  unfolding start_ids unnew_id_loop
  unpack_new_data_id =
      start_ids malloc (λ num size n rest. unnew_id_loop h num size n 0 0 rest)
        (get_from_moon_num h bytes)

  unfoldable pub unpack_write_data_id : Unpacked
  unfolding start_ids unwrite_id_loop
  unpack_write_data_id =
      start_ids malloc (λ num size n rest. unwrite_id_loop h num size n 0 0 rest)
        (get_from_moon_num h bytes)
