-- ===== src/Versions.antt =====
-- The blocks of a new version: the merge in `_create_new_version` of
-- moon_code/sync/src/moon_runtime.c, from the unpacked lists to the table by id.
mod Shuffle
mod Merge
mod Ids
mod Blocks
mod Tests
use moon_in_water.Prelude.{
  ℕ, zero, suc, ◌+◌, ◌-◌, ◌%◌, ◌^◌, ltb, ◌==◌, ◌&&◌, ◌||◌, not, if◌then◌else◌, List, [], ◌∷◌, ◌++◌,
  Bool, true, false, Option, none, some, length, get_elem?, set,
}
use moon_in_water.Changes.{Entry}
use moon_in_water.Pairs.{IdPair, cell_at}

-- What the rest of the runtime answers: `version_surface_malloc`, `mem_block_surface_dump` of a block, and
-- `create_new_block` for an entry of the packet, of a type and a count; each may fail.
pub record Memory : Type 0 where
  pub malloc : Bool
  pub dump : ℕ → Option ℕ
  pub create : ℕ → ℕ → ℕ → Option ℕ

-- The table of the new version, and the pairs that were written in the old one.
pub record Merged : Type 0 where
  pub kept : List IdPair
  pub written : List IdPair
  pub prev_pairs : List IdPair

unfoldable pub keep_pair : IdPair → Option Merged → Option Merged
keep_pair p none = none
keep_pair p (some m) = some (record m { kept = p ∷ m.kept })

-- The new block of a written pair, if it could be dumped.
unfoldable pub write_pair : IdPair → ℕ → Option ℕ → Option Merged → Option Merged
write_pair p id none rest = none
write_pair p id (some addr) none = none
write_pair p id (some addr) (some m) = some (record m {
  written = record { addr = addr; key = id } ∷ m.written;
  prev_pairs = p ∷ m.prev_pairs;
})

-- What the two tests on a pair say.
pub data Fate : Type 0 where
  illegal deleted written kept : Fate

unfoldable pub write_fate : ℕ → List Entry → Fate
write_fate id [] = kept
write_fate id (w ∷ ws) = if ltb w.id_0 id then illegal else (if w.id_0 == id then written else kept)

unfoldable pub fate : ℕ → List Entry → List Entry → Fate
unfolding write_fate
fate id [] ws = write_fate id ws
fate id (d ∷ ds) ws =
    if ltb d.id_0 id then illegal else (if d.id_0 == id then deleted else write_fate id ws)

unfoldable pub rest_of : List Entry → List Entry
rest_of [] = []
rest_of (e ∷ es) = es

-- The id of a written block: the one in the packet, or the next one from `write_id_start + k` on.
unfoldable pub written_id : Bool → ℕ → List Entry → ℕ
written_id has_new_id next [] = next
written_id has_new_id next (w ∷ ws) = if has_new_id then w.id_1 else next

module _ (mem : Memory) (has_new_id : Bool) where
  -- The loop over the old table; what it writes to the array is collected, and stored by fill_table when it
  -- has succeeded. With the deleted and the written entries that are left and the id for the
  -- next written block. After it no entry may be left.
  unfoldable pub merge : List IdPair → List Entry → List Entry → ℕ → Option Merged
  merge [] [] [] next = some (record { kept = []; written = []; prev_pairs = [] })
  merge [] (d ∷ ds) ws next = none
  merge [] [] (w ∷ ws) next = none
  merge (p ∷ ps) ds ws next = elim (fate p.key ds ws) [
    | illegal ↦ none
    | deleted ↦ merge ps (rest_of ds) ws next
    | written ↦
        write_pair p (written_id has_new_id next ws) (mem.dump p.addr)
          (merge ps ds (rest_of ws) ((next + 1) % 2 ^ 64))
    | kept ↦ keep_pair p (merge ps ds ws next)
  ]

  -- The loop over the new blocks, with the rounds that are left and the id for the next one. The code reads
  -- `p_new->p_ids`, that is the first entry, in every round.
  unfoldable pub create_loop : Entry → ℕ → ℕ → Option (List IdPair)
  create_loop e zero next = some []
  create_loop e (suc n) next = elim (mem.create next e.id_0 e.id_1) [
    | none ↦ none
    | some addr ↦ elim (create_loop e n ((next + 1) % 2 ^ 64)) [
      | none ↦ none
      | some ps ↦ some (record { addr = addr; key = if has_new_id then e.id_2 else next } ∷ ps)
    ]
  ]

  unfoldable pub create_blocks : List Entry → ℕ → Option (List IdPair)
  unfolding create_loop
  create_blocks [] next = some []
  create_blocks (e ∷ es) next = create_loop e (length (e ∷ es)) next

-- Pairs written to the array from an index on.
unfoldable pub store_pairs : List IdPair → ℕ → List IdPair → List IdPair
store_pairs array i [] = array
store_pairs array i (p ∷ ps) = store_pairs (set array i p) (i + 1) ps

-- `version_surface_malloc`: an array of n pairs of zeros.
unfoldable pub zero_pairs : ℕ → List IdPair
zero_pairs zero = []
zero_pairs (suc n) = record { addr = 0; key = 0 } ∷ zero_pairs n

-- `order_id[ block_num - 1 ].id + 1`, of 64 bits as all ids.
unfoldable pub write_id_start : List IdPair → ℕ
write_id_start order_id = ((cell_at order_id (length order_id - 1)).key + 1) % 2 ^ 64

-- The array: the kept pairs from 0 on, the written ones from `write_index` on and the new ones behind them.
unfoldable pub fill_table : ℕ → ℕ → ℕ → Merged → List IdPair → List IdPair
unfolding store_pairs zero_pairs
fill_table n write_index write_num m created =
    store_pairs (store_pairs (store_pairs (zero_pairs n) 0 m.kept) write_index m.written)
      (write_index + write_num) created

-- From the lists of the packet to the table by id; `none` for an error. The old table has a block at least.
unfoldable pub new_order_id :
    Memory → Bool → List IdPair → List Entry → List Entry → List Entry → Option (List IdPair)
unfolding fill_table
new_order_id mem has_new_id order_id dels writes news =
    let block_num = length order_id in
    let m = length writes + length dels in
    let start = write_id_start order_id in
    let write_index = block_num - m in
    if ltb (block_num + length news) (length dels) || ltb block_num m || not mem.malloc
    then none
    else (elim (merge mem has_new_id order_id dels writes start) [
      | none ↦ none
      | some merged ↦ elim (create_blocks mem has_new_id news ((start + length writes) % 2 ^ 64)) [
        | none ↦ none
        | some created ↦ some (
            fill_table (block_num + length news - length dels) write_index (length writes) merged
              created)
      ]
    ])
