-- ===== src/Versions/Tests.antt =====
-- The blocks of a new version, moon_code/sync/src/moon_runtime.c, at concrete inputs, and the theorems about
-- them applied.
use moon_in_water.Prelude.{ℕ, ◌+◌, ◌≡◌, refl, List, [], ◌∷◌, ◌++◌, true, false, some, length, arith}
use moon_in_water.Changes.{Entry}
use moon_in_water.Pairs.{IdPair, cell_at, or_zeros}
use moon_in_water.Versions.{
  Memory, Merged, merge, create_blocks, write_id_start, new_order_id, rest_of, fate, written_id,
  write_pair, keep_pair,
}
use moon_in_water.Versions.Shuffle.{Shuffled, AreRising}
use moon_in_water.Versions.Ids.{AreConsecutive}
use moon_in_water.Versions.Merge.{merge_iff}
use moon_in_water.Versions.Blocks.{new_order_id-AreRising}

abbrev pair : ℕ → IdPair
pair k = record { addr = k + 100; key = k }

abbrev entry : ℕ → Entry
entry n = record { id_0 = n; id_1 = 0; id_2 = n + 50 }

-- A dump stands at the address after the block's; a new block stands at its id.
abbrev memory : Memory
memory = record { malloc = true; dump = λ a. some (a + 1); create = λ next type num. some next }

abbrev old : List IdPair
old = pair 2 ∷ pair 4 ∷ pair 7 ∷ pair 8 ∷ []

abbrev next_table : List IdPair
next_table = pair 2 ∷ pair 8 ∷ record { addr = 105; key = 9 } ∷ record { addr = 10; key = 10 } ∷ []

new_order_id_run :
    new_order_id memory false old (entry 7 ∷ []) (entry 4 ∷ []) (entry 1 ∷ []) ≡ some next_table
unfolding new_order_id merge fate rest_of written_id write_pair keep_pair create_blocks
    write_id_start cell_at or_zeros
new_order_id_run = refl

merge_iff_example :
    ((m : Merged)
      → merge memory false old (entry 7 ∷ []) (entry 4 ∷ []) 9 ≡ some m
      → Shuffled old (entry 7 ∷ []) (entry 4 ∷ []) m.kept m.prev_pairs)
    × ((ks olds : List IdPair)
        → Shuffled old (entry 7 ∷ []) (entry 4 ∷ []) ks olds
        → (m : Merged) × (merge memory false old (entry 7 ∷ []) (entry 4 ∷ []) 9 ≡ some m)
          × (m.kept ≡ ks)
          × (m.prev_pairs ≡ olds))
merge_iff_example =
    merge_iff memory false (λ a. (a + 1, refl)) old (entry 7 ∷ []) (entry 4 ∷ []) 9 (omega arith)

new_order_id-AreRising_example :
    (ks : List IdPair) × (olds : List IdPair) × (news : List IdPair) × Shuffled old
      (entry 7 ∷ [])
      (entry 4 ∷ [])
      ks
      olds
    × (next_table ≡ ks ++ news)
    × AreConsecutive (write_id_start old) news
    × (length news ≡ 2)
    × AreRising 0 next_table
new_order_id-AreRising_example =
    new_order_id-AreRising memory (pair 2) (pair 4 ∷ pair 7 ∷ pair 8 ∷ []) (entry 7 ∷ [])
      (entry 4 ∷ []) (entry 1 ∷ []) next_table 9 (omega arith) (omega arith) (omega arith)
      new_order_id_run

-- Two new blocks with the ids 51 and 52.
abbrev created : List IdPair
created = record { addr = 20; key = 51 } ∷ record { addr = 21; key = 51 } ∷ []

create_blocks_run : create_blocks memory true (entry 1 ∷ entry 2 ∷ []) 20 ≡ some created
unfolding create_blocks
create_blocks_run = refl
