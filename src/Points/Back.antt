-- ===== src/Points/Back.antt =====
-- A pointer turned into an id and an offset and back, moon_code/sync/src/moon_runtime.c.
use moon_in_water.Prelude.{
  ℕ, ◌+◌, ◌*◌, ◌%◌, ◌^◌, ◌<◌, ◌≡◌, refl, ap, sym, ◌∙◌, arith, ◌==◌, List, false, get_elem?, Option,
  none, some, pos, lt→ltb,
}
use moon_in_water.Pairs.{IdPair, get_virtual_address_info}
use moon_in_water.Pairs.Search.{IsFloor}
use moon_in_water.Pairs.Address.{get_virtual_address_info_lem}
use moon_in_water.Structs.{StructOne, get_target_offset}
use moon_in_water.Avl.{Tree}
use moon_in_water.Avl.Pairs.{AddrPair, avl_search}
use moon_in_water.Points.{Block, Version, Run, done, ◌>>=◌, point_in_tree, point_round, entry_round}
use moon_in_water.Points.There.{
  IsVersion, floor_of_key, search_found, target_in_lem, point_in_table_lem, entry_in_table_lem,
}

-- A pointer to an offset of a block.
info_of :
    (b : Block) (o : ℕ)
    → b.located.data_len < 2 ^ 31
    → b.located.virtual_addr + o < 2 ^ 64
    → o < b.located.data_len
    → get_virtual_address_info b.located (b.located.virtual_addr + o) ≡ some o
info_of b o small fits l =
    let w : b.located.virtual_addr + o ≡ b.located.virtual_addr + o + 0 * 2 ^ 32 = omega arith in
    rw w (
      get_virtual_address_info_lem b.located o 0 small (omega arith) (omega arith)
      ∙ rw (lt→ltb o _ l) refl)

-- With a version of the two tables: a pointer into a block of it.
module _ (v : Version) (ok : IsVersion v) (k : ℕ) (p : IdPair)
    (here : get_elem? v.order_addr k ≡ some p) (o t : ℕ) where
  abbrev block_of : Block
  block_of = v.block p.addr

  table_block :
      (x i : ℕ)
      → x ≡ block_of.located.virtual_addr + o
      → o < block_of.located.data_len
      → IsFloor v.order_addr x (some i)
      → (q : IdPair) × (get_elem? v.order_addr i ≡ some q) × (q.addr ≡ p.addr)
  table_block x i e l (q, d, m, top) = (
    q,
    d,
    ground
        (arith, top k p, ok.addr_key k p here, ok.apart k i p q here d, ok.one_addr i k q p d here),
  )

  pub point_round_lem :
      (src dst : List StructOne) (avl : Option (Tree AddrPair))
      → 0 < block_of.located.virtual_addr + o
      → block_of.located.virtual_addr + o < 2 ^ 64
      → block_of.located.data_len < 2 ^ 31
      → o < block_of.located.data_len
      → get_target_offset src dst (pos o) block_of.type_id block_of.type_num ≡ some (pos t)
      → point_in_tree src dst v (block_of.located.virtual_addr + o) avl ≡ none
      → point_round src dst v avl (block_of.located.virtual_addr + o) ≡ done (block_of.id, t)
  unfolding point_round
  point_round_lem src dst avl pos_x fits small l e no_tree =
      let x = block_of.located.virtual_addr + o in
      let (i, d, f) =
        search_found v.order_addr x k p ok.addr_sorted here (omega (arith, ok.addr_key k p here)) in
      let (q, g, m) = table_block x i refl l f in
      let n = info_of block_of o small fits l in
      let z : (x == 0) ≡ false = ground arith in
      rw z (
        rw no_tree (
          rw d (
            point_in_table_lem src dst v x i o t p.addr q g m n
              (target_in_lem src dst v block_of o t (omega arith) e))))

-- With a version: a block that has an id.
module _ (v : Version) (ok : IsVersion v) (j : ℕ) (q : IdPair)
    (here : get_elem? v.order_id j ≡ some q) where
  pub entry_round_lem :
      (src dst : List StructOne) (o t : ℕ)
      → (v.block q.addr).located.virtual_addr + o < 2 ^ 64
      → t < 2 ^ 31
      → get_target_offset dst src (pos t) (v.block q.addr).type_id (v.block q.addr).type_num
        ≡ some (pos o)
      → entry_round dst src v ((v.block q.addr).id, t)
        ≡ done ((v.block q.addr).located.virtual_addr + o)
  unfolding entry_round
  entry_round_lem src dst o t fits small e =
      let b = v.block q.addr in
      let same_id : q.key ≡ b.id = ok.id_key j q here in
      let (i, d, f) = search_found v.order_id b.id j q ok.id_sorted here (omega (arith, same_id)) in
      let (r, c, y) = floor_of_key v.order_id b.id i j q here same_id f in
      let a : r.addr ≡ q.addr = ok.one_id i j r q c here (y ∙ sym same_id) in
      let z : (b.id == 0) ≡ false = ground (arith, ok.id_pos q.addr) in
      let w : (b.located.virtual_addr + o) % 2 ^ 64 ≡ b.located.virtual_addr + o = omega arith in
      rw z (
        rw d (
          entry_in_table_lem dst src v t i o q.addr r c a (target_in_lem dst src v b t o small e)
          ∙ ap done w))

-- A block of a thread's tree.
pub point_round-tree :
    (v : Version) (avl : Tree AddrPair) (p : AddrPair) (o t : ℕ) (src dst : List StructOne)
    → 0 < (v.block p.ptr).located.virtual_addr + o
    → (v.block p.ptr).located.virtual_addr + o < 2 ^ 64
    → (v.block p.ptr).located.data_len < 2 ^ 31
    → o < (v.block p.ptr).located.data_len
    → avl_search avl ((v.block p.ptr).located.virtual_addr + o) ≡ some p
    → get_target_offset src dst (pos o) (v.block p.ptr).type_id (v.block p.ptr).type_num
      ≡ some (pos t)
    → point_round src dst v (some avl) ((v.block p.ptr).located.virtual_addr + o)
      ≡ done ((v.block p.ptr).tmp_id, t)
unfolding point_round point_in_tree
point_round-tree v avl p o t src dst pos_x fits small l found e =
    let b = v.block p.ptr in
    let x = b.located.virtual_addr + o in
    let z : (x == 0) ≡ false = ground arith in
    let n = info_of b o small fits l in
    let d = target_in_lem src dst v b o t (omega arith) e in
    rw z (rw found (rw n (ap (λ (r : Run ℕ). r >>= (λ k. done (b.tmp_id, k))) d)))
