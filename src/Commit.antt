-- ===== src/Commit.antt =====
-- The blocks of a commit: `get_blockbuf_len`, `pac1_func`, `pac2_func` and the first part of
-- `get_commit_packet` of moon_code/sync/src/moon_runtime.c. `avl_traver_first` is declared nowhere in
-- the source; the blocks come as a list in the order in which it visits them.
pub mod Fill
pub mod Written
pub mod Collect
mod Tests
use moon_in_water.Prelude.{
  ℕ, zero, suc, ◌+◌, ◌*◌, ◌-◌, ◌%◌, ◌^◌, ltb, leb, ◌==◌, ◌||◌, if◌then◌else◌, List, [], ◌∷◌, ◌++◌,
  Bool, Option, none, some, length, ℤ, pos, negsuc, pos_part, to_int, ltb_ℤ, leb_ℤ,
}
use moon_in_water.Structs.{StructOne, get_struct_len, get_struct_points_num}
use moon_in_water.Pairs.{IdPair, cell_at, search_addr_id, qsort_addr_pair}
use moon_in_water.Points.{Run, done, failed, crashed, ◌>>=◌}

-- A block that a thread has changed. `type_num` is the word of the int.
pub record Changed : Type 0 where
  pub addr : ℕ
  pub id : ℕ
  pub is_del : Bool
  pub type_id : ℤ
  pub type_num : ℕ

-- `get_blockbuf_len`, with `ID_OFFSET_LEN` 12: the room for the elements of a block and the ids with
-- offsets of its pointers.
unfoldable pub get_blockbuf_len : Changed → List StructOne → ℤ
get_blockbuf_len b all =
    let len = get_struct_len all b.type_id in
    let points = get_struct_points_num all b.type_id in
    if leb_ℤ len (pos 0) || ltb_ℤ points (pos 0)
    then negsuc 0
    else to_int (b.type_num * (pos_part len + pos_part points * 12) % 2 ^ 32)

-- What the first traversal counts. The counts are ints, of fewer than 2^31 blocks.
pub record Counts : Type 0 where
  pub del_num : ℕ
  pub write_num : ℕ
  pub new_num : ℕ
  pub write_block_size : ℕ
  pub new_block_size : ℕ

unfoldable pub no_counts : Counts
no_counts = record {
  del_num = 0;
  write_num = 0;
  new_num = 0;
  write_block_size = 0;
  new_block_size = 0;
}

-- What a changed block is.
pub data Kind : Type 0 where
  is_new is_deleted is_written : Kind

unfoldable pub kind : Changed → Kind
kind b = if b.id == 0 then is_new else (if b.is_del then is_deleted else is_written)

unfoldable pub count_block : Kind → ℕ → Counts → Counts
count_block is_new len c = record c {
  new_num = c.new_num + 1;
  new_block_size = (c.new_block_size + len) % 2 ^ 32;
}
count_block is_deleted len c = record c { del_num = c.del_num + 1 }
count_block is_written len c = record c {
  write_num = c.write_num + 1;
  write_block_size = (c.write_block_size + len) % 2 ^ 32;
}

-- `pac1_func`; `none` is -1, which ends the traversal.
unfoldable pub pac1_func : List StructOne → Changed → Counts → Option Counts
unfolding count_block
pac1_func all b c =
    if leb_ℤ (get_blockbuf_len b all) (pos 0)
    then none
    else some (count_block (kind b) (pos_part (get_blockbuf_len b all)) c)

unfoldable pub first_traversal : List StructOne → List Changed → Counts → Option Counts
unfolding pac1_func
first_traversal all [] c = some c
first_traversal all (b ∷ bs) c = elim (pac1_func all b c) [
  | none ↦ none
  | some c' ↦ first_traversal all bs c'
]

-- The pairs that are written so far; the indices `cur_del_index`, `cur_write_index` and
-- `cur_new_index` are the lengths. The `tmp_id` of a new block is the id in its pair.
pub record Filled : Type 0 where
  pub dels : List IdPair
  pub writes : List IdPair
  pub prev_pairs : List IdPair
  pub news : List IdPair

unfoldable pub no_pairs : Filled
no_pairs = record { dels = []; writes = []; prev_pairs = []; news = [] }

-- A pair at the next index of an array with room for num of them.
unfoldable pub add_pair : ℕ → List IdPair → IdPair → Run (List IdPair)
add_pair num ps p = if ltb (length ps) num then done (ps ++ p ∷ []) else crashed

-- The pair of a written block in the table of the version.
unfoldable pub prev_pair : List IdPair → ℕ → Option (Option ℕ) → Run IdPair
prev_pair order_id id none = crashed
prev_pair order_id id (some none) = failed
prev_pair order_id id (some (some i)) =
    if (cell_at order_id i).key == id
    then done (record { addr = (cell_at order_id i).addr; key = id })
    else failed

module _ (order_id : List IdPair) (new_id_start : ℕ) (c : Counts) where
  unfoldable pub fill_block : Kind → Changed → Filled → Run Filled
  unfolding add_pair prev_pair
  fill_block is_new b f = do
    news ←
        add_pair c.new_num f.news
          (record { addr = b.addr; key = (new_id_start + length f.news) % 2 ^ 64 })
    done (record f { news = news })
  fill_block is_deleted b f = do
    dels ← add_pair c.del_num f.dels (record { addr = b.addr; key = b.id })
    done (record f { dels = dels })
  fill_block is_written b f = do
    writes ← add_pair c.write_num f.writes (record { addr = b.addr; key = b.id })
    prev ← prev_pair order_id b.id (search_addr_id order_id b.id)
    prev_pairs ← add_pair c.write_num f.prev_pairs prev
    done (record f { writes = writes; prev_pairs = prev_pairs })

  unfoldable pub pac2_func : Changed → Filled → Run Filled
  unfolding fill_block
  pac2_func b f = fill_block (kind b) b f

  unfoldable pub second_traversal : List Changed → Filled → Run Filled
  unfolding pac2_func
  second_traversal [] f = done f
  second_traversal (b ∷ bs) f = do f' ← pac2_func b f; second_traversal bs f'

-- The last id of the version, and the lists sorted by id.
unfoldable pub first_write_id : List IdPair → ℕ
first_write_id order_id = ((cell_at order_id (length order_id - 1)).key + 1) % 2 ^ 64

unfoldable pub sort_pairs : Filled → Filled
sort_pairs f = record f {
  dels = qsort_addr_pair f.dels;
  writes = qsort_addr_pair f.writes;
  prev_pairs = qsort_addr_pair f.prev_pairs;
}

unfoldable pub fill_counted : List IdPair → List Changed → Counts → Run Filled
unfolding second_traversal sort_pairs first_write_id no_pairs
fill_counted order_id blocks c = do
  f ← second_traversal order_id ((first_write_id order_id + c.write_num) % 2 ^ 64) c blocks no_pairs
  done (sort_pairs f)

-- `get_commit_packet` up to the sorted lists, whether `malloc` has the memory first.
unfoldable pub collect_blocks : Bool → List StructOne → List IdPair → List Changed → Run Filled
unfolding first_traversal fill_counted no_counts
collect_blocks malloc all order_id blocks = elim (first_traversal all blocks no_counts) [
  | none ↦ failed
  | some c ↦
      if leb c.write_num 0
      then failed
      else (if malloc then fill_counted order_id blocks c else failed)
]
