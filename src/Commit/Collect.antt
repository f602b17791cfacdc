-- ===== src/Commit/Collect.antt =====
-- The sorted lists of a commit, the first part of `get_commit_packet` of
-- moon_code/sync/src/moon_runtime.c.
use moon_in_water.Prelude.{
  ℕ, ◌+◌, ◌%◌, ◌^◌, ◌<◌, ◌≡◌, refl, ap, sym, subst, arith, leb, List, [], ◌∷◌, true, false, length,
}
use moon_in_water.Structs.{StructOne}
use moon_in_water.Pairs.{IdPair, qsort_addr_pair}
use moon_in_water.Pairs.Count.{IsSorted, SamePairs}
use moon_in_water.Pairs.Sort.{qsort_addr_pair-Sorts}
use moon_in_water.Pairs.Keys.{SameKeys, qsort_addr_pair-SameKeys}
use moon_in_water.Points.{done}
use moon_in_water.Commit.{
  Changed, Counts, Filled, no_counts, no_pairs, first_write_id, fill_counted, sort_pairs,
  collect_blocks,
}
use moon_in_water.Commit.Fill.{
  dels_of, writes_of, news_of, AreKnown, AreInTable, IsCounted, first_traversal-IsCounted,
}
use moon_in_water.Commit.Written.{ArePrev, HasRoom, second_traversal_lem}

-- Sorted, with the same pairs.
abbrev pub IsSortOf : List IdPair → List IdPair → Type 0
IsSortOf xs ys = SamePairs xs ys × IsSorted xs

ArePrev-SameKeys : (order_id ps ws : List IdPair) → ArePrev order_id ps ws → SameKeys ps ws
ArePrev-SameKeys order_id [] [] h = tt
ArePrev-SameKeys order_id [] (w ∷ ws) h = h
ArePrev-SameKeys order_id (p ∷ ps) [] h = h
ArePrev-SameKeys order_id (p ∷ ps) (w ∷ ws) (at, k, h) = (k, ArePrev-SameKeys order_id ps ws h)

qsort-IsSortOf : (xs : List IdPair) → IsSortOf (qsort_addr_pair xs) xs
qsort-IsSortOf xs = qsort_addr_pair-Sorts xs

abbrev pub new_start : List IdPair → List Changed → ℕ
new_start order_id bs = (first_write_id order_id + length (writes_of bs)) % 2 ^ 64

-- The lists sorted by id, the new blocks numbered behind the written ones, and at each index of
-- `prev_pairs` the id at the same index of `pairs`.
abbrev pub IsCommit : List IdPair → List Changed → Filled → Type 0
IsCommit order_id bs f =
    IsSortOf f.dels (dels_of bs)
    × IsSortOf f.writes (writes_of bs)
    × (f.news ≡ news_of (new_start order_id bs) bs)
    × ((qs : List IdPair) × IsSortOf f.prev_pairs qs × ArePrev order_id qs (writes_of bs))
    × SameKeys f.prev_pairs f.writes

module _ (order_id : List IdPair) (all : List StructOne) (bs : List Changed)
    (sorted : IsSorted order_id) (in_table : AreInTable order_id (writes_of bs)) where
  abbrev start : ℕ
  start = new_start order_id bs

  -- The room that the first traversal counted.
  counted-HasRoom :
      (c : Counts)
      → IsCounted no_counts bs c
      → HasRoom start c no_pairs (dels_of bs) (writes_of bs) (λ n. news_of n bs)
  unfolding no_counts no_pairs
  counted-HasRoom c h = record {
    dels = omega (arith, h.dels);
    writes = omega (arith, h.writes);
    news = omega (arith, h.news (start + 0));
    prevs = refl;
  }

  fill_counted_lem :
      (c : Counts)
      → IsCounted no_counts bs c
      → (f : Filled) × (fill_counted order_id bs c ≡ done f) × IsCommit order_id bs f
  unfolding fill_counted sort_pairs no_pairs no_counts
  fill_counted_lem c h =
      let (f, e, x, y, z, (qs, w, prev)) =
        second_traversal_lem order_id start c sorted bs no_pairs in_table (counted-HasRoom c h) in
      let n : start + 0 ≡ start = omega arith in
      let k : c.write_num ≡ length (writes_of bs) = omega (arith, h.writes) in
      let counted : (first_write_id order_id + c.write_num) % 2 ^ 64 ≡ start =
        ap (λ k. (first_write_id order_id + k) % 2 ^ 64) k in
      (
        sort_pairs f,
        rw (counted, fill_counted) (rw e refl),
        (
          subst (IsSortOf (qsort_addr_pair f.dels)) x (qsort-IsSortOf f.dels),
          subst (IsSortOf (qsort_addr_pair f.writes)) y (qsort-IsSortOf f.writes),
          subst (λ k. f.news ≡ news_of k bs) n z,
          (
            qs,
            subst (IsSortOf (qsort_addr_pair f.prev_pairs)) w (qsort-IsSortOf f.prev_pairs),
            prev,
          ),
          qsort_addr_pair-SameKeys f.prev_pairs f.writes (
              subst (λ xs. SameKeys xs f.writes) (sym w)
                (subst (SameKeys qs) (sym y) (ArePrev-SameKeys order_id qs (writes_of bs) prev))),
        ),
      )

  -- Where the table of the version is sorted by id, `malloc` has the memory, the types of all blocks are
  -- known, one block at least is written and each written one is in the table, the second traversal stays in the room that the first one counted. The
  -- deleted and the written blocks come sorted by id, each as often as it was visited, and the new ones
  -- with the ids behind those of the written ones; to each written block belongs, at the same index, the
  -- pair with its id of the table.
  pub collect_blocks-IsCommit :
      AreKnown all bs
      → 0 < length (writes_of bs)
      → (f : Filled) × (collect_blocks true all order_id bs ≡ done f) × IsCommit order_id bs f
  unfolding collect_blocks no_counts
  collect_blocks-IsCommit known some_write =
      let (c, e, h) = first_traversal-IsCounted all bs no_counts known in
      let (f, d, commit) = fill_counted_lem c h in
      let more : leb c.write_num 0 ≡ false = ground (arith, h.writes) in
      (f, rw (e, collect_blocks) (rw more d), commit)
