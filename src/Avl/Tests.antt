-- ===== src/Avl/Tests.antt =====
-- The tree at concrete inputs, and the theorems about it applied to them.
use moon_in_water.Prelude.{
  ℕ, ◌+ℤ◌, ◌≡◌, refl, none, some, List, [], ◌∷◌, arith, ℤ, pos, if◌then◌else◌, ltb,
}
use moon_in_water.Avl.{Tree, leaf, node, items}
use moon_in_water.Avl.Rotate.{avl_balance}
use moon_in_water.Avl.Add.{avl_search2, find_place, settle_add, climb_add, avl_add2}
use moon_in_water.Avl.Insert.{by_key, IsSearch, Added, avl_add2-Added}
use moon_in_water.Avl.Find.{Best, avl_search2-Best}
use moon_in_water.Avl.Del.{Found}
use moon_in_water.Avl.Pairs.{AddrPair, addr_of, avl_add, avl_del}
use moon_in_water.Avl.Entries.{Deleted, avl_del-Deleted, Entered, avl_add-Entered}

abbrev key : ℕ → ℕ
key n = n

abbrev single : ℕ → Tree ℕ
single n = node (pos 0) leaf n leaf

-- 2 above 3: it leans to the right.
abbrev chain : Tree ℕ
chain = node (pos 1) leaf 2 (single 3)

abbrev five : Tree ℕ
five = node (pos 1) (single 1) 2 (node (pos 0) (single 4) 5 (single 7))

chain-IsSearch : IsSearch key chain
chain-IsSearch = ground arith

five-IsSearch : IsSearch key five
five-IsSearch = ground arith

avl_add2_run : avl_add2 chain 4 (by_key key 4) ≡ some (node (pos 0) (single 2) 3 (single 4), 4)
unfolding avl_add2 find_place climb_add settle_add ◌+ℤ◌ avl_balance
avl_add2_run = refl

avl_add2-Added_example : Added key chain 4 (avl_add2 chain 4 (by_key key 4))
avl_add2-Added_example = avl_add2-Added key chain 4 chain-IsSearch

avl_search2-Best_example : Best key 6 none (items five) (avl_search2 five (by_key key 6))
avl_search2-Best_example = avl_search2-Best key five 6 five-IsSearch.1

-- A visit that collects the data and ends at one that is above 4.
abbrev collect : ℕ → List ℕ → ℤ × List ℕ
collect n seen = (if ltb 4 n then pos n else pos 0, n ∷ seen)

abbrev pair : ℕ → ℕ → ℕ → AddrPair
pair block addr ptr = record { block = block; virtual_addr = addr; ptr = ptr }

abbrev pairs : Tree AddrPair
pairs =
    node (pos 0) (node (pos 0) leaf (pair 10 1 100) leaf) (pair 20 2 200)
      (node (pos 0) leaf (pair 30 3 300) leaf)

pairs-IsSearch : IsSearch addr_of pairs
pairs-IsSearch = ground arith

avl_del-Deleted_example : Deleted pairs 2 (avl_del pairs 2)
avl_del-Deleted_example = avl_del-Deleted pairs 2 pairs-IsSearch

avl_add-Entered_example : Entered pairs 2 40 (avl_add pairs 2 (some 40))
avl_add-Entered_example = avl_add-Entered pairs 2 40 pairs-IsSearch (ground arith)

abbrev middle : Found AddrPair
middle = record {
  trail = [];
  balance = pos 0;
  left = node (pos 0) leaf (pair 10 1 100) leaf;
  value = pair 20 2 200;
  right = node (pos 0) leaf (pair 30 3 300) leaf;
}
