-- ===== src/Changes/Lengths.antt =====
-- The room that the lists of blocks of moon_code/sync/src/moon_runtime.c take.
use moon_in_water.Prelude.{
  ℕ, ◌+◌, ◌*◌, ◌^◌, ◌≤◌, inl, inr, arith, ltb, List, [], ◌∷◌, Option, none, some, length,
  length-append, Bool-cases,
}
use moon_in_water.Wire.{Host}
use moon_in_water.Nums.{convert_to_moon_num, moon_num_len}
use moon_in_water.Nums.RoundTrip.{get_from-convert_to, convert_to-large}
use moon_in_water.Changes.{
  MemBlock, put_num, del_loop, new_loop, write_id_loop, new_id_loop, packet_del_data,
  packet_new_data, packet_new_data_id, packet_write_data_id, chang_elem_head, dels_max_size,
  writes_max_size, news_max_size,
}

-- The bytes, where there are any, are at most `size`.
abbrev pub Within : ℕ → Option (List ℕ) → Type 0
Within size none = Unit {0}
Within size (some bytes) = length bytes ≤ size

convert_to-Within : (h : Host) (n : ℕ) → Within 8 (convert_to_moon_num h n)
unfolding moon_num_len
convert_to-Within h n = elim (Bool-cases (ltb n (2 ^ 62))) [
  | inl small ↦ let (bytes, e, l, _) = get_from-convert_to h n (ground arith) in rw e (ground arith)
  | inr large ↦ rw (convert_to-large h n (ground arith)) tt
]

put_num-Within :
    (a b : Option (List ℕ)) (m n : ℕ) → Within m a → Within n b → Within (m + n) (put_num a b)
unfolding put_num
put_num-Within none b m n p q = tt
put_num-Within (some xs) none m n p q = tt
put_num-Within (some xs) (some ys) m n p q = omega (arith, length-append xs ys)

Within-le : (a : Option (List ℕ)) (m n : ℕ) → m ≤ n → Within m a → Within n a
Within-le none m n k p = tt
Within-le (some xs) m n k p = omega arith

module _ (h : Host) where
  -- A number, then what follows.
  pub num-Within :
      (n : ℕ) (after : Option (List ℕ)) (m k : ℕ)
      → Within m after
      → 8 + m ≤ k
      → Within k (put_num (convert_to_moon_num h n) after)
  num-Within n after m k p l =
      Within-le _ _ _ l (put_num-Within _ after 8 m (convert_to-Within h n) p)

  pub del_loop-Within :
      (prev : ℕ) (bs : List MemBlock) → Within (8 * length bs) (del_loop h prev bs)
  unfolding del_loop
  del_loop-Within prev [] = omega arith
  del_loop-Within prev (b ∷ bs) = num-Within _ _ _ _ (del_loop-Within b.id bs) (omega arith)

  pub new_loop-Within : (bs : List MemBlock) → Within (16 * length bs) (new_loop h bs)
  unfolding new_loop
  new_loop-Within [] = omega arith
  new_loop-Within (b ∷ bs) =
      num-Within _ _ (16 * length bs + 8) _ (num-Within _ _ _ _ (new_loop-Within bs) (omega arith))
        (omega arith)

  pub write_id_loop-Within :
      (prev : ℕ) (bs : List (MemBlock × MemBlock))
      → Within (16 * length bs) (write_id_loop h prev bs)
  unfolding write_id_loop
  write_id_loop-Within prev [] = omega arith
  write_id_loop-Within prev ((b, old) ∷ bs) =
      num-Within _ _ (16 * length bs + 8) _
        (num-Within _ _ _ _ (write_id_loop-Within old.id bs) (omega arith)) (omega arith)

  pub new_id_loop-Within :
      (prev : ℕ) (bs : List MemBlock) → Within (24 * length bs) (new_id_loop h prev bs)
  unfolding new_id_loop
  new_id_loop-Within prev [] = omega arith
  new_id_loop-Within prev (b ∷ bs) =
      num-Within _ _ (24 * length bs + 16) _
        (num-Within _ _ (24 * length bs + 8) _
          (num-Within _ _ _ _ (new_id_loop-Within b.id bs) (omega arith)) (omega arith))
        (omega arith)

  -- Whatever the blocks are, what is packed of them fits the room that is allocated: that for the count
  -- and that for as many deleted, new or written blocks.
  pub packet_bounds :
      (bs : List MemBlock) (ws : List (MemBlock × MemBlock))
      → Within (chang_elem_head + dels_max_size (length bs)) (packet_del_data h bs)
        × Within (chang_elem_head + news_max_size (length bs)) (packet_new_data h bs)
        × Within (chang_elem_head + news_max_size (length bs)) (packet_new_data_id h bs)
        × Within (chang_elem_head + writes_max_size (length ws)) (packet_write_data_id h ws)
  unfolding packet_del_data packet_new_data packet_new_data_id packet_write_data_id chang_elem_head
      dels_max_size news_max_size writes_max_size
  packet_bounds bs ws = (
    num-Within _ _ _ _ (del_loop-Within 0 bs) (omega arith),
    num-Within _ _ _ _ (new_loop-Within bs) (omega arith),
    num-Within _ _ _ _ (new_id_loop-Within 0 bs) (omega arith),
    num-Within _ _ _ _ (write_id_loop-Within 0 ws) (omega arith),
  )
