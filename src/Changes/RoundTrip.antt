-- ===== src/Changes/RoundTrip.antt =====
-- The lists of blocks of a packet, unpacked from what was packed, moon_code/sync/src/moon_runtime.c.
use moon_in_water.Prelude.{
  ℕ, ◌*◌, ◌^◌, ◌%◌, ◌<◌, ◌≤◌, ◌≡◌, ◌∙◌, arith, List, ◌++◌, Bool, true, Option, some, length, map, ℤ,
  pos, to_int,
}
use moon_in_water.Wire.{Host}
use moon_in_water.Changes.{
  MemBlock, Entry, put_num, packet_del_data, packet_new_data, packet_new_data_id,
  packet_write_data_id, Unpacked, unpacked, ids_size, start_ids, unpack_del_data, unpack_new_data,
  unpack_new_data_id, unpack_write_data_id, undel_loop, unnew_loop, unnew_id_loop, unwrite_id_loop,
}
use moon_in_water.Nums.{convert_to_moon_num, get_from_moon_num}
use moon_in_water.Changes.Loops.{put_num-some}
use moon_in_water.Changes.Blocks.{
  AreAscending, AreTyped, ArePaired, del_entry, new_entry, new_id_entry, write_id_entry,
  undel_loop-del_loop, unnew_loop-new_loop, unnew_id_loop-new_id_loop,
  unwrite_id_loop-write_id_loop,
}

pub start_ids_lem :
    (malloc : ℕ → Bool) (loop : ℤ → ℕ → ℕ → List ℕ → Unpacked) (n : ℕ) (rest : List ℕ)
    → 24 * n < 2 ^ 31
    → malloc (24 * n) ≡ true
    → start_ids malloc loop (some (n, rest)) ≡ loop (pos n) (24 * n) n rest
unfolding start_ids ids_size to_int
start_ids_lem malloc loop n rest k e =
    let a : n % 2 ^ 32 ≡ n = omega arith in
    let b : 24 * n % 2 ^ 32 ≡ 24 * n = omega arith in ground arith

-- What one host packs, a host of either order unpacks as `num` and `ids`, and it leaves what follows.
abbrev pub Survives :
    (Host → Option (List ℕ)) → (Host → List ℕ → Unpacked) → ℕ → List Entry → Type 0
Survives pack unpack num ids =
    (h : Host)
    → (bytes : List ℕ) × (pack h ≡ some bytes)
      × ((h' : Host) (rest : List ℕ) → unpack h' (bytes ++ rest) ≡ unpacked (pos num) ids rest)

-- The count in front of the entries of a loop.
pub Survives-counted :
    (malloc : ℕ → Bool) (h : Host) (n : ℕ) (ids : List Entry)
    (loop : Host → ℤ → ℕ → ℕ → List ℕ → Unpacked) (after : Option (List ℕ)) (tail : List ℕ)
    → 24 * n < 2 ^ 31
    → malloc (24 * n) ≡ true
    → after ≡ some tail
    → ((h' : Host) (num : ℤ) (size : ℕ) (rest : List ℕ)
        → 24 * n ≤ size
        → loop h' num size n (tail ++ rest) ≡ unpacked num ids rest)
    → (bytes : List ℕ) × (put_num (convert_to_moon_num h n) after ≡ some bytes)
      × ((h' : Host) (rest : List ℕ)
          → start_ids malloc (loop h') (get_from_moon_num h' (bytes ++ rest))
            ≡ unpacked (pos n) ids rest)
Survives-counted malloc h n ids loop after tail k m w reads =
    let (bytes, v, r) = put_num-some h n after tail (omega arith) w in
    (
      bytes,
      v,
      λ h' rest.
          rw (r h' rest)
            (start_ids_lem malloc (loop h') n (tail ++ rest) k m ∙ reads h' _ _ rest (omega arith)),
    )

module _ (malloc : ℕ → Bool) where
  -- The deleted blocks of a packet, fewer than 2^31 / 24 of them, with ids that do not fall and lie below
  -- 2^62, are packed; a host of either order that has the memory unpacks their count and ids, and leaves
  -- what follows.
  pub unpack_del_data-packet_del_data :
      (bs : List MemBlock)
      → AreAscending 0 bs
      → 24 * length bs < 2 ^ 31
      → malloc (24 * length bs) ≡ true
      → Survives (λ h. packet_del_data h bs) (unpack_del_data malloc) (length bs) (map del_entry bs)
  unfolding packet_del_data unpack_del_data
  unpack_del_data-packet_del_data bs a k m h =
      let (tail, w, ih) = undel_loop-del_loop h 0 bs a in
      Survives-counted malloc h _ _ (λ h' num size n xs. undel_loop h' num size n 0 0 xs) _ tail k m
        w (λ h' num size rest l. ih h' num size 0 rest (omega arith))

  unpack_new_data-packet_new_data :
      (bs : List MemBlock)
      → AreTyped bs
      → 24 * length bs < 2 ^ 31
      → malloc (24 * length bs) ≡ true
      → Survives (λ h. packet_new_data h bs) (unpack_new_data malloc) (length bs) (map new_entry bs)
  unfolding packet_new_data unpack_new_data
  unpack_new_data-packet_new_data bs a k m h =
      let (tail, w, ih) = unnew_loop-new_loop h bs a in
      Survives-counted malloc h _ _ (λ h' num size n xs. unnew_loop h' num size n 0 xs) _ tail k m w
        (λ h' num size rest l. ih h' num size 0 rest (omega arith))

  unpack_new_data_id-packet_new_data_id :
      (bs : List MemBlock)
      → AreTyped bs
      → AreAscending 0 bs
      → 24 * length bs < 2 ^ 31
      → malloc (24 * length bs) ≡ true
      → Survives
          (λ h. packet_new_data_id h bs)
          (unpack_new_data_id malloc)
          (length bs)
          (map new_id_entry bs)
  unfolding packet_new_data_id unpack_new_data_id
  unpack_new_data_id-packet_new_data_id bs t a k m h =
      let (tail, w, ih) = unnew_id_loop-new_id_loop h 0 bs t a in
      Survives-counted malloc h _ _ (λ h' num size n xs. unnew_id_loop h' num size n 0 0 xs) _ tail
        k m w (λ h' num size rest l. ih h' num size 0 rest (omega arith))

  unpack_write_data_id-packet_write_data_id :
      (bs : List (MemBlock × MemBlock))
      → ArePaired 0 bs
      → 24 * length bs < 2 ^ 31
      → malloc (24 * length bs) ≡ true
      → Survives
          (λ h. packet_write_data_id h bs)
          (unpack_write_data_id malloc)
          (length bs)
          (map write_id_entry bs)
  unfolding packet_write_data_id unpack_write_data_id
  unpack_write_data_id-packet_write_data_id bs a k m h =
      let (tail, w, ih) = unwrite_id_loop-write_id_loop h 0 bs a in
      Survives-counted malloc h _ _ (λ h' num size n xs. unwrite_id_loop h' num size n 0 0 xs) _
        tail k m w (λ h' num size rest l. ih h' num size 0 rest (omega arith))

  -- The new blocks of a packet, without their ids and with them, and the written blocks with both their
  -- ids are packed and unpacked likewise, fewer than 2^31 / 24 of each: the types and counts lie below
  -- 2^62, the ids of the new blocks and the old ids of the written ones do not fall, a new id is not below
  -- its old one, all ids lie below 2^62, and the host that unpacks has the memory.
  pub unpack_ids-packet_ids :
      (bs : List MemBlock) (ws : List (MemBlock × MemBlock))
      → AreTyped bs
      → AreAscending 0 bs
      → ArePaired 0 ws
      → 24 * length bs < 2 ^ 31
      → 24 * length ws < 2 ^ 31
      → ((size : ℕ) → size < 2 ^ 31 → malloc size ≡ true)
      → Survives (λ h. packet_new_data h bs) (unpack_new_data malloc) (length bs) (map new_entry bs)
        × Survives
            (λ h. packet_new_data_id h bs)
            (unpack_new_data_id malloc)
            (length bs)
            (map new_id_entry bs)
        × Survives
            (λ h. packet_write_data_id h ws)
            (unpack_write_data_id malloc)
            (length ws)
            (map write_id_entry ws)
  unpack_ids-packet_ids bs ws t a p k l m = (
    unpack_new_data-packet_new_data bs t k (m _ k),
    unpack_new_data_id-packet_new_data_id bs t a k (m _ k),
    unpack_write_data_id-packet_write_data_id ws p l (m _ l),
  )
