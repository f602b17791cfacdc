-- ===== src/Changes/InPlace.antt =====
-- The lists of blocks of moon_code/sync/src/moon_runtime.c, packed into the memory that holds their pairs.
use moon_in_water.Prelude.{ℕ, ◌+◌, ◌*◌, ◌≤◌, arith, List, length, length-take, take}
use moon_in_water.Wire.{Host}
use moon_in_water.Nums.{convert_to_moon_num}
use moon_in_water.Changes.{
  MemBlock, put_num, del_loop, new_loop, write_id_loop, new_id_loop, pairs_at, pairs_size,
  chang_elem_head, dels_max_size, writes_max_size, news_max_size,
}
use moon_in_water.Changes.Lengths.{
  Within, num-Within, del_loop-Within, new_loop-Within, write_id_loop-Within, new_id_loop-Within,
}

-- When the pair at an index is read, what has been written, that is the count and the entries of the
-- blocks before it, ends at or before that pair. So no pair is overwritten before it is read, in any of
-- the four lists.
pub packet_in_place :
    (h : Host) (bs : List MemBlock) (ws : List (MemBlock × MemBlock)) (i : ℕ)
    → i ≤ length bs
    → i ≤ length ws
    → Within
        (pairs_at (length bs) (dels_max_size (length bs)) + 16 * i)
        (put_num (convert_to_moon_num h (length bs)) (del_loop h 0 (take i bs)))
      × Within
          (pairs_at (length bs) (news_max_size (length bs)) + 16 * i)
          (put_num (convert_to_moon_num h (length bs)) (new_loop h (take i bs)))
      × Within
          (pairs_at (length bs) (news_max_size (length bs)) + 16 * i)
          (put_num (convert_to_moon_num h (length bs)) (new_id_loop h 0 (take i bs)))
      × Within
          (pairs_at (length ws) (writes_max_size (length ws)) + 16 * i)
          (put_num (convert_to_moon_num h (length ws)) (write_id_loop h 0 (take i ws)))
unfolding pairs_at pairs_size chang_elem_head dels_max_size writes_max_size news_max_size
packet_in_place h bs ws i k l = (
  num-Within h _ _ _ _ (del_loop-Within h 0 (take i bs)) (ground (arith, length-take i bs)),
  num-Within h _ _ _ _ (new_loop-Within h (take i bs)) (ground (arith, length-take i bs)),
  num-Within h _ _ _ _ (new_id_loop-Within h 0 (take i bs)) (ground (arith, length-take i bs)),
  num-Within h _ _ _ _ (write_id_loop-Within h 0 (take i ws)) (ground (arith, length-take i ws)),
)
