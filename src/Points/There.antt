-- ===== src/Points/There.antt =====
-- The tables of a version and one round on a pair that was found, moon_code/sync/src/moon_runtime.c.
use moon_in_water.Prelude.{
  ℕ, ◌+◌, ◌%◌, ◌^◌, ◌<◌, ◌≤◌, ◌≡◌, refl, ap, ◌∙◌, arith, List, get_elem?, Option, none, some, pos,
  to_int_small,
}
use moon_in_water.Pairs.{IdPair, cell_at, or_zeros, search_addr_id, get_virtual_address_info}
use moon_in_water.Pairs.Count.{IsSorted}
use moon_in_water.Pairs.Search.{IsFloor, search_addr_id-IsFloor}
use moon_in_water.Structs.{StructOne, get_target_offset}
use moon_in_water.Points.{
  Block, Version, Run, done, ◌>>=◌, target_result, target_in, point_at, address_in, point_in_table,
  entry_in_table,
}

-- The two tables are sorted, by the addresses and by the ids of the blocks, and hold the same blocks. Blocks do
-- not overlap, two blocks have two ids, and an id is not 0.
pub record IsVersion (v : Version) : Type 0 where
  pub addr_sorted : IsSorted v.order_addr
  pub id_sorted : IsSorted v.order_id
  pub addr_key :
      (i : ℕ) (p : IdPair)
      → get_elem? v.order_addr i ≡ some p
      → p.key ≡ (v.block p.addr).located.virtual_addr
  pub id_key : (i : ℕ) (p : IdPair) → get_elem? v.order_id i ≡ some p → p.key ≡ (v.block p.addr).id
  pub apart :
      (i j : ℕ) (p q : IdPair)
      → get_elem? v.order_addr i ≡ some p
      → get_elem? v.order_addr j ≡ some q
      → p.key < q.key
      → p.key + (v.block p.addr).located.data_len ≤ q.key
  pub one_addr :
      (i j : ℕ) (p q : IdPair)
      → get_elem? v.order_addr i ≡ some p
      → get_elem? v.order_addr j ≡ some q
      → p.key ≡ q.key
      → p.addr ≡ q.addr
  pub one_id :
      (i j : ℕ) (p q : IdPair)
      → get_elem? v.order_id i ≡ some p
      → get_elem? v.order_id j ≡ some q
      → p.key ≡ q.key
      → p.addr ≡ q.addr
  pub both :
      (i : ℕ) (p : IdPair)
      → get_elem? v.order_addr i ≡ some p
      → (j : ℕ) × (q : IdPair) × (get_elem? v.order_id j ≡ some q) × (q.addr ≡ p.addr)
  pub id_pos : (a : ℕ) → 0 < (v.block a).id

cell_at-get_elem? :
    (xs : List IdPair) (i : ℕ) (p : IdPair) → get_elem? xs i ≡ some p → cell_at xs i ≡ p
unfolding cell_at or_zeros
cell_at-get_elem? xs i p e = rw e refl

-- The floor of a key that stands in the table.
pub floor_of_key :
    (xs : List IdPair) (id i j : ℕ) (p : IdPair)
    → get_elem? xs j ≡ some p
    → p.key ≡ id
    → IsFloor xs id (some i)
    → (q : IdPair) × (get_elem? xs i ≡ some q) × (q.key ≡ id)
floor_of_key xs id i j p e k (q, d, l, top) = (q, d, ground (arith, top j p))

-- A search that finds a pair.
pub search_found :
    (xs : List IdPair) (id j : ℕ) (p : IdPair)
    → IsSorted xs
    → get_elem? xs j ≡ some p
    → p.key ≤ id
    → (i : ℕ) × (search_addr_id xs id ≡ some (some i)) × IsFloor xs id (some i)
search_found xs id j p s e k =
    let (found, d, f) = search_addr_id-IsFloor xs id s in from_floor found d f
  where
    from_floor :
        (found : Option ℕ)
        → search_addr_id xs id ≡ some found
        → IsFloor xs id found
        → (i : ℕ) × (search_addr_id xs id ≡ some (some i)) × IsFloor xs id (some i)
    from_floor none d f = absurd (omega (arith, f j p e))
    from_floor (some i) d f = (i, d, f)

module _ (src_all dst_all : List StructOne) (v : Version) where
  pub target_in_lem :
      (b : Block) (o t : ℕ)
      → o < 2 ^ 31
      → get_target_offset src_all dst_all (pos o) b.type_id b.type_num ≡ some (pos t)
      → target_in src_all dst_all v b o ≡ done t
  unfolding target_in target_result
  target_in_lem b o t k e = rw (to_int_small o k) (rw e (ground arith))

  point_at_lem :
      (b : Block) (o t : ℕ)
      → target_in src_all dst_all v b o ≡ done t
      → point_at src_all dst_all v b (some o) ≡ done (b.id, t)
  unfolding point_at
  point_at_lem b o t k = ap (λ (r : Run ℕ). r >>= (λ n. done (b.id, n))) k

  address_in_lem :
      (b : Block) (o t : ℕ)
      → target_in src_all dst_all v b o ≡ done t
      → address_in src_all dst_all v b o ≡ done ((b.located.virtual_addr + t) % 2 ^ 64)
  unfolding address_in
  address_in_lem b o t k =
      ap (λ (r : Run ℕ). r >>= (λ n. done ((b.located.virtual_addr + n) % 2 ^ 64))) k

  -- A pair found in a table, with its block.
  pub point_in_table_lem :
      (x i o t a : ℕ) (q : IdPair)
      → get_elem? v.order_addr i ≡ some q
      → q.addr ≡ a
      → get_virtual_address_info (v.block a).located x ≡ some o
      → target_in src_all dst_all v (v.block a) o ≡ done t
      → point_in_table src_all dst_all v x (some (some i)) ≡ done ((v.block a).id, t)
  unfolding point_in_table
  point_in_table_lem x i o t a q e f g k =
      let c : (cell_at v.order_addr i).addr ≡ a =
        ap (λ (r : IdPair). r.addr) (cell_at-get_elem? v.order_addr i q e) ∙ f in
      rw c (rw g (point_at_lem (v.block a) o t k))

  pub entry_in_table_lem :
      (o i t a : ℕ) (q : IdPair)
      → get_elem? v.order_id i ≡ some q
      → q.addr ≡ a
      → target_in src_all dst_all v (v.block a) o ≡ done t
      → entry_in_table src_all dst_all v o (some (some i))
        ≡ done (((v.block a).located.virtual_addr + t) % 2 ^ 64)
  unfolding entry_in_table
  entry_in_table_lem o i t a q e f k =
      let c : (cell_at v.order_id i).addr ≡ a =
        ap (λ (r : IdPair). r.addr) (cell_at-get_elem? v.order_id i q e) ∙ f in
      rw c (address_in_lem (v.block a) o t k)
