-- ===== src/Points/Unknown.antt =====
-- Pointers and ids that the tables do not know, moon_code/sync/src/moon_runtime.c.
use moon_in_water.Prelude.{
  ℕ, ◌+◌, ◌%◌, ◌^◌, ◌<◌, ◌≤◌, ◌≡◌, refl, arith, ◌==◌, List, false, get_elem?, Option, none, some,
  pos, ◌⊎◌,
}
use moon_in_water.Pairs.{IdPair}
use moon_in_water.Pairs.Search.{IsFloor, search_addr_id-IsFloor}
use moon_in_water.Structs.{StructOne, get_target_offset}
use moon_in_water.Points.{
  Version, done, crashed, point_in_table, point_in_tree, point_round, entry_round,
}
use moon_in_water.Points.There.{IsVersion, search_found, target_in_lem, entry_in_table_lem}

module _ (src dst : List StructOne) (v : Version) (ok : IsVersion v) where
  -- A pointer that is not NULL and lies below every block of the version makes the code read through NULL.
  pub point_round_below :
      (x : ℕ)
      → 0 < x
      → ((j : ℕ) (q : IdPair) → get_elem? v.order_addr j ≡ some q → x < q.key)
      → point_round src dst v none x ≡ crashed
  unfolding point_round point_in_tree point_in_table
  point_round_below x h below =
      let (found, d, f) = search_addr_id-IsFloor v.order_addr x ok.addr_sorted in
      let z : (x == 0) ≡ false = ground arith in rw z (rw d (none_found found f))
    where
      none_found :
          (found : Option ℕ)
          → IsFloor v.order_addr x found
          → point_in_table src dst v x (some found) ≡ crashed
      none_found none f = refl
      none_found (some i) (q, e, l, top) = absurd (omega (arith, below i q e))

  -- An id that no block has, but of which some block q has the next smaller one, is not refused: the pointer becomes
  -- one into q.
  pub entry_round_unknown :
      (id o t j : ℕ) (q : IdPair)
      → get_elem? v.order_id j ≡ some q
      → q.key < id
      → ((i : ℕ) (r : IdPair) → get_elem? v.order_id i ≡ some r → (r.key ≤ q.key) ⊎ (id < r.key))
      → o < 2 ^ 31
      → get_target_offset src dst (pos o) (v.block q.addr).type_id (v.block q.addr).type_num
        ≡ some (pos t)
      → entry_round src dst v (id, o) ≡ done (((v.block q.addr).located.virtual_addr + t) % 2 ^ 64)
  unfolding entry_round
  entry_round_unknown id o t j q e l others small g =
      let (i, d, f) = search_found v.order_id id j q ok.id_sorted e (omega arith) in
      let (r, c, m, top) = f in
      let y : r.key ≡ q.key = ground (arith, others i r c, top j q e) in
      let a : r.addr ≡ q.addr = ok.one_id i j r q c e y in
      let z : (id == 0) ≡ false = ground arith in
      rw z (
        rw d (
          entry_in_table_lem src dst v o i t q.addr r c a
            (target_in_lem src dst v (v.block q.addr) o t small g)))
