-- ===== src/Commit/Tests.antt =====
-- The blocks of a commit, moon_code/sync/src/moon_runtime.c, at concrete inputs, and the theorem about
-- them applied.
use moon_in_water.Prelude.{◌≡◌, refl, arith, List, [], ◌∷◌, true, false, pos, to_int}
use moon_in_water.Structs.{StructOne, get_struct_len, get_struct_points_num, of_type}
use moon_in_water.Pairs.{
  IdPair, cell_at, or_zeros, qsort_addr_pair, qsort_fuel, partition, part_loop, part_step,
  search_addr_id, search_loop,
}
use moon_in_water.Pairs.Count.{count, IsSorted}
use moon_in_water.Points.{done}
use moon_in_water.Commit.{
  Changed, Filled, kind, collect_blocks, get_blockbuf_len, fill_counted, first_traversal, pac1_func,
  count_block, no_counts, no_pairs, second_traversal, pac2_func, fill_block, add_pair, prev_pair,
  sort_pairs, first_write_id,
}
use moon_in_water.Commit.Fill.{AreKnown, AreInTable, writes_of}
use moon_in_water.Commit.Collect.{IsCommit, collect_blocks-IsCommit}

-- A type of 16 bytes with one pointer, and a version with the blocks 3, 5 and 9.
abbrev types : List StructOne
types = record { size = 16; point_num = pos 1; vars = [] } ∷ []

abbrev table : List IdPair
table =
    record { addr = 30; key = 3 }
    ∷ record { addr = 50; key = 5 }
    ∷ record { addr = 90; key = 9 }
    ∷ []

abbrev new_block : Changed
new_block = record { addr = 70; id = 0; is_del = false; type_id = pos 0; type_num = 2 }

abbrev written_nine : Changed
written_nine = record { addr = 91; id = 9; is_del = false; type_id = pos 0; type_num = 1 }

abbrev deleted_five : Changed
deleted_five = record { addr = 51; id = 5; is_del = true; type_id = pos 0; type_num = 1 }

abbrev written_three : Changed
written_three = record { addr = 31; id = 3; is_del = false; type_id = pos 0; type_num = 1 }

abbrev four : List Changed
four = new_block ∷ written_nine ∷ deleted_five ∷ written_three ∷ []

new_block_len : get_blockbuf_len new_block types ≡ pos 56
unfolding get_blockbuf_len get_struct_len get_struct_points_num of_type to_int
new_block_len = refl

table-IsSorted : IsSorted table
unfolding count
table-IsSorted = (λ a h. ground arith, (λ a h. ground arith, (λ a h. absurd (omega arith), tt)))

four-AreKnown : AreKnown types four
unfolding get_blockbuf_len get_struct_len get_struct_points_num of_type to_int
four-AreKnown = ((55, refl), ((27, refl), ((27, refl), ((27, refl), tt))))

four-AreInTable : AreInTable table (writes_of four)
unfolding kind
four-AreInTable = (
  (2, record { addr = 90; key = 9 }, refl, refl),
  ((0, record { addr = 30; key = 3 }, refl, refl), tt),
)

collect_four :
    collect_blocks true types table four
    ≡ done (record {
      dels = record { addr = 51; key = 5 } ∷ [];
      writes = record { addr = 31; key = 3 } ∷ record { addr = 91; key = 9 } ∷ [];
      prev_pairs = record { addr = 30; key = 3 } ∷ record { addr = 90; key = 9 } ∷ [];
      news = record { addr = 70; key = 12 } ∷ [];
    })
unfolding collect_blocks fill_counted first_traversal pac1_func count_block no_counts no_pairs
    second_traversal pac2_func fill_block add_pair prev_pair sort_pairs first_write_id kind
    get_blockbuf_len get_struct_len get_struct_points_num of_type to_int cell_at or_zeros
    qsort_addr_pair qsort_fuel partition part_loop part_step search_addr_id search_loop
collect_four = refl

collect_blocks-IsCommit_example :
    (f : Filled) × (collect_blocks true types table four ≡ done f) × IsCommit table four f
collect_blocks-IsCommit_example =
    collect_blocks-IsCommit table types four table-IsSorted four-AreInTable four-AreKnown
      (unfold kind in omega arith)
