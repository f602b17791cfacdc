-- ===== src/Points.antt =====
-- Pointers as ids with offsets: `points_to_id_offset` and `id_offset_to_points` of
-- moon_code/sync/src/moon_runtime.c. What stands in memory for a pair of an id and an offset is converted by
-- the code of Wire.
mod There
mod Back
mod Lists
mod Unknown
mod Tests
use moon_in_water.Prelude.{
  ℕ, ◌+◌, ◌%◌, ◌^◌, ltb, ◌==◌, ◌&&◌, if◌then◌else◌, List, [], ◌∷◌, Option, none, some, ℤ, pos,
  pos_part, ltb_ℤ, to_int,
}
use moon_in_water.Avl.{Tree}
use moon_in_water.Avl.Pairs.{AddrPair, avl_search}
use moon_in_water.Pairs.{IdPair, Located, cell_at, search_addr_id, get_virtual_address_info}
use moon_in_water.Structs.{StructOne, get_target_offset}

-- A memory block as the two functions read it.
pub record Block : Type 0 where
  pub located : Located
  pub id : ℕ
  pub tmp_id : ℕ
  pub type_id : ℤ
  pub type_num : ℤ

-- The two tables of a version, and the blocks that their pointers lead to.
pub record Version : Type 0 where
  pub order_addr : List IdPair
  pub order_id : List IdPair
  pub block : ℕ → Block

-- A result, the error -1, or a read through NULL or past a table.
pub data Run (A : Type 0) : Type 0 where
  done : A → Run A
  failed : Run A
  crashed : Run A

infixl 5 ◌>>=◌
abbrev pub ◌>>=◌ : {A B : Type 0} → Run A → (A → Run B) → Run B
done a >>= f = f a
failed >>= f = failed
crashed >>= f = crashed

-- The result of `get_target_offset`, of which a negative one is an error.
unfoldable pub target_result : Option ℤ → Run ℕ
target_result none = crashed
target_result (some t) = if ltb_ℤ t (pos 0) then failed else done (pos_part t)

module _ (src_all dst_all : List StructOne) (v : Version) where
  unfoldable pub target_in : Block → ℕ → Run ℕ
  unfolding target_result
  target_in b offset =
      target_result (get_target_offset src_all dst_all (to_int offset) b.type_id b.type_num)

  -- The entry for a pointer into a block of the table, and the pointer for an offset into a block.
  unfoldable pub point_at : Block → Option ℕ → Run (ℕ × ℕ)
  point_at b none = done (0, 0)
  point_at b (some offset) = do t ← target_in b offset; done (b.id, t)

  unfoldable pub address_in : Block → ℕ → Run ℕ
  address_in b offset = do t ← target_in b offset; done ((b.located.virtual_addr + t) % 2 ^ 64)

  -- From the label `next1` on: the table of the version. The code reads `p_tmp_pair->addr` before it looks whether
  -- `p_tmp_pair` is NULL.
  unfoldable pub point_in_table : ℕ → Option (Option ℕ) → Run (ℕ × ℕ)
  point_in_table point none = crashed
  point_in_table point (some none) = crashed
  point_in_table point (some (some i)) =
      let b = v.block (cell_at v.order_addr i).addr in
      point_at b (get_virtual_address_info b.located point)

  -- The tree of the blocks of a thread, if there is one; `none` is the way to `next1`. For a deleted block the code
  -- writes 0 and 0, and goes on to write the id all the same.
  unfoldable pub point_in_tree : ℕ → Option (Tree AddrPair) → Option (Run (ℕ × ℕ))
  point_in_tree point none = none
  point_in_tree point (some avl) = elim (avl_search avl point) [
    | none ↦ none
    | some p ↦ elim (get_virtual_address_info (v.block p.ptr).located point) [
      | none ↦ none
      | some offset ↦
          some (do t ← target_in (v.block p.ptr) offset; done ((v.block p.ptr).tmp_id, t))
    ]
  ]

  -- One round of `points_to_id_offset`: the id and the offset that are written.
  unfoldable pub point_round : Option (Tree AddrPair) → ℕ → Run (ℕ × ℕ)
  unfolding point_in_tree point_in_table
  point_round avl point = if point == 0 then done (0, 0) else (elim (point_in_tree point avl) [
    | none ↦ point_in_table point (search_addr_id v.order_addr point)
    | some r ↦ r
  ])

  unfoldable pub points_to_id_offset : Option (Tree AddrPair) → List ℕ → Run (List (ℕ × ℕ))
  unfolding point_round
  points_to_id_offset avl [] = done []
  points_to_id_offset avl (point ∷ points) = do
    e ← point_round avl point
    es ← points_to_id_offset avl points
    done (e ∷ es)

  -- One round of `id_offset_to_points`. The pair that `search_addr_id` finds may have a smaller id.
  unfoldable pub entry_in_table : ℕ → Option (Option ℕ) → Run ℕ
  entry_in_table offset none = crashed
  entry_in_table offset (some none) = failed
  entry_in_table offset (some (some i)) = address_in (v.block (cell_at v.order_id i).addr) offset

  unfoldable pub entry_round : ℕ × ℕ → Run ℕ
  unfolding entry_in_table
  entry_round (id, offset) =
      if id == 0 && offset == 0
      then done 0
      else entry_in_table offset (search_addr_id v.order_id id)

  unfoldable pub id_offset_to_points : List (ℕ × ℕ) → Run (List ℕ)
  unfolding entry_round
  id_offset_to_points [] = done []
  id_offset_to_points (e ∷ es) = do p ← entry_round e; ps ← id_offset_to_points es; done (p ∷ ps)
