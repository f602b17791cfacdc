-- ===== src/Points/Tests.antt =====
-- Pointers as ids with offsets, moon_code/sync/src/moon_runtime.c, at concrete inputs, and the theorems about
-- them applied.
use moon_in_water.Prelude.{
  ℕ, zero, suc, ◌<◌, ◌≡◌, refl, ap, inl, inr, List, [], ◌∷◌, some, get_elem?, pos, to_int, arith,
}
use moon_in_water.Avl.{Tree, leaf, node}
use moon_in_water.Avl.Add.{avl_search2, search_loop}
use moon_in_water.Avl.Pairs.{AddrPair, avl_search}
use moon_in_water.Pairs.{IdPair}
use moon_in_water.Pairs.Count.{count, IsSorted}
use moon_in_water.Structs.{StructOne, get_target_offset, target_at, target_round}
use moon_in_water.Points.{Version, done, points_to_id_offset, id_offset_to_points}
use moon_in_water.Points.There.{IsVersion}
use moon_in_water.Points.Lists.{Travels, id_offset_to_points-points_to_id_offset}

-- A basic type of 4 bytes on one side and of 8 on the other.
abbrev four_bytes : List StructOne
four_bytes = record { size = 4; point_num = pos 0; vars = [] } ∷ []

abbrev eight_bytes : List StructOne
eight_bytes = record { size = 8; point_num = pos 0; vars = [] } ∷ []

-- A version of one block of ten elements.
abbrev one_block : ℕ → ℕ → ℕ → Version
one_block at id tmp_id = record {
  order_addr = record { addr = 5; key = at } ∷ [];
  order_id = record { addr = 5; key = id } ∷ [];
  block = λ a. record {
    located = record { addr = 5; virtual_addr = at; data_len = 40 };
    id = id;
    tmp_id = tmp_id;
    type_id = pos 0;
    type_num = pos 10;
  };
}

one-IsSorted : (p : IdPair) → IsSorted (p ∷ [])
unfolding count
one-IsSorted p = (λ a h. absurd (omega arith), tt)

-- The only pair of a table of one.
only : (p q : IdPair) (i : ℕ) → get_elem? (p ∷ []) i ≡ some q → q ≡ p
only p q zero e = ground arith
only p q (suc i) e = absurd (cc)

one_block-IsVersion : (at id tmp_id : ℕ) → 0 < id → IsVersion (one_block at id tmp_id)
one_block-IsVersion at id tmp_id h = record {
  addr_sorted = one-IsSorted (record { addr = 5; key = at });
  id_sorted = one-IsSorted (record { addr = 5; key = id });
  addr_key = λ i p e. ap (λ (q : IdPair). q.key) (only (record { addr = 5; key = at }) p i e);
  id_key = λ i p e. ap (λ (q : IdPair). q.key) (only (record { addr = 5; key = id }) p i e);
  apart = λ i j p q d e h. ground (
    arith,
    only (record { addr = 5; key = at }) p i d,
    only (record { addr = 5; key = at }) q j e,
  );
  one_addr = λ i j p q d e h. ground (
    arith,
    only (record { addr = 5; key = at }) p i d,
    only (record { addr = 5; key = at }) q j e,
  );
  one_id = λ i j p q d e h. ground (
    arith,
    only (record { addr = 5; key = id }) p i d,
    only (record { addr = 5; key = id }) q j e,
  );
  both = λ i p e. (
    0,
    record { addr = 5; key = id },
    refl,
    ground (arith, only (record { addr = 5; key = at }) p i e),
  );
  id_pos = λ a. h;
}

twelve_there : get_target_offset four_bytes eight_bytes (pos 12) (pos 0) (pos 10) ≡ some (pos 24)
unfolding get_target_offset target_at target_round to_int
twelve_there = refl

twelve_back : get_target_offset eight_bytes four_bytes (pos 24) (pos 0) (pos 10) ≡ some (pos 12)
unfolding get_target_offset target_at target_round to_int
twelve_back = refl

-- A version of which a thread has changed the block and given it the temporary id 9, and the next version,
-- where it has that id and stands at another address.
abbrev changed : Version
changed = one_block 1000 7 9

abbrev tree : Tree AddrPair
tree = node (pos 0) leaf (record { block = 1; virtual_addr = 1000; ptr = 5 }) leaf

abbrev moved : Version
moved = one_block 4000 9 0

tree_search : avl_search tree 1012 ≡ some (record { block = 1; virtual_addr = 1000; ptr = 5 })
unfolding avl_search avl_search2 search_loop
tree_search = refl

fourth-Travels : Travels four_bytes eight_bytes changed (some tree) moved 1012 4012
fourth-Travels = record {
  id = 9;
  t = 24;
  not_null = omega arith;
  fits = omega arith;
  from = inr (record {
    tree = tree;
    p = record { block = 1; virtual_addr = 1000; ptr = 5 };
    o = 12;
    has_tree = refl;
    at = refl;
    inside = omega arith;
    small = omega arith;
    found = tree_search;
    known_id = refl;
    there = twelve_there;
  });
  to = record {
    j = 0;
    q = record { addr = 5; key = 9 };
    o = 12;
    here = refl;
    known_id = refl;
    at = refl;
    fits = omega arith;
    small = omega arith;
    back = twelve_back;
  };
}

id_offset_to_points-points_to_id_offset_example :
    (es : List (ℕ × ℕ)) × (points_to_id_offset four_bytes eight_bytes changed
        (some tree)
        (1012 ∷ 0 ∷ [])
      ≡ done es)
    × (id_offset_to_points eight_bytes four_bytes moved es ≡ done (4012 ∷ 0 ∷ []))
id_offset_to_points-points_to_id_offset_example =
    id_offset_to_points-points_to_id_offset four_bytes eight_bytes changed
      (one_block-IsVersion 1000 7 9 (omega arith)) (some tree) moved
      (one_block-IsVersion 4000 9 0 (omega arith)) (1012 ∷ 0 ∷ []) (4012 ∷ 0 ∷ [])
      (inr fourth-Travels, (inl (refl, refl), tt))
