-- ===== src/Pairs/Tests.antt =====
-- The tables of blocks of moon_code/sync/src/moon_runtime.c at concrete inputs, and the theorems about them
-- applied.
use moon_in_water.Prelude.{
  ℕ, zero, suc, ◌+◌, ◌*◌, ◌≡◌, refl, List, [], ◌∷◌, true, Option, some, get_elem?, arith,
}
use moon_in_water.Pairs.{IdPair, Located, qsort_addr_pair, sort_addr_id, search_addr_id}
use moon_in_water.Pairs.Count.{count, IsSorted}
use moon_in_water.Pairs.Sort.{qsort_addr_pair-Sorts}
use moon_in_water.Pairs.Search.{IsFloor, search_addr_id-IsFloor}
use moon_in_water.Pairs.Address.{AreApart, search_addr_id-sort_addr_id}

abbrev pair : ℕ → IdPair
pair k = record { addr = k + 1; key = k }

abbrev mixed : List IdPair
mixed = pair 5 ∷ pair 3 ∷ pair 9 ∷ pair 3 ∷ []

abbrev ordered : List IdPair
ordered = pair 3 ∷ pair 5 ∷ pair 9 ∷ []

qsort_addr_pair_run : qsort_addr_pair mixed ≡ pair 3 ∷ pair 3 ∷ pair 5 ∷ pair 9 ∷ []
unfolding qsort_addr_pair
qsort_addr_pair_run = refl

search_addr_id_run : search_addr_id ordered 8 ≡ some (some 1)
unfolding search_addr_id
search_addr_id_run = refl

qsort_addr_pair-Sorts_example :
    ((a : IdPair) → count a (qsort_addr_pair mixed) ≡ count a mixed)
    × IsSorted (qsort_addr_pair mixed)
qsort_addr_pair-Sorts_example = qsort_addr_pair-Sorts mixed

ordered-IsSorted : IsSorted ordered
unfolding count
ordered-IsSorted = (λ a h. ground arith, (λ a h. ground arith, (λ a h. absurd (omega arith), tt)))

search_addr_id-IsFloor_example :
    (found : Option ℕ) × (search_addr_id ordered 8 ≡ some found) × IsFloor ordered 8 found
search_addr_id-IsFloor_example = search_addr_id-IsFloor ordered 8 ordered-IsSorted

abbrev block : ℕ → Located
block n = record { addr = n; virtual_addr = 100 * n; data_len = 64 }

abbrev blocks : List Located
blocks = block 3 ∷ block 1 ∷ []

blocks-AreApart : AreApart blocks
blocks-AreApart zero zero b c d e h = ground arith
blocks-AreApart zero (suc zero) b c d e h = ground arith
blocks-AreApart (suc zero) zero b c d e h = ground arith
blocks-AreApart (suc zero) (suc zero) b c d e h = ground arith
blocks-AreApart (suc (suc i)) j b c d e h = absurd (cc)
blocks-AreApart i (suc (suc j)) b c d e h = absurd (cc)

search_addr_id-sort_addr_id_example :
    (table : List IdPair) × (i : ℕ) × (p : IdPair) × (sort_addr_id true blocks ≡ some table)
    × (search_addr_id table 130 ≡ some (some i))
    × (get_elem? table i ≡ some p)
    × (p.key ≡ 100)
search_addr_id-sort_addr_id_example =
    search_addr_id-sort_addr_id blocks blocks-AreApart 1 (block 1) refl 130 (omega arith)
      (omega arith)
