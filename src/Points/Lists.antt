-- ===== src/Points/Lists.antt =====
-- Arrays of pointers between two versions, moon_code/sync/src/moon_runtime.c.
use moon_in_water.Prelude.{
  ℕ, ◌+◌, ◌^◌, ◌<◌, ◌≡◌, refl, arith, List, [], ◌∷◌, inl, inr, get_elem?, Option, Option-cases,
  none, some, pos, ◌⊎◌,
}
use moon_in_water.Avl.{Tree}
use moon_in_water.Avl.Pairs.{AddrPair, avl_search}
use moon_in_water.Pairs.{IdPair, get_virtual_address_info}
use moon_in_water.Structs.{StructOne, get_target_offset}
use moon_in_water.Points.{
  Version, done, point_in_tree, point_round, entry_round, points_to_id_offset, id_offset_to_points,
}
use moon_in_water.Points.There.{IsVersion}
use moon_in_water.Points.Back.{point_round_lem, point_round-tree, entry_round_lem}

-- How a pointer is found on the side that sends: in a block of the version where the thread's tree, if there is
-- one, has no block with the pointer, or in a block of that tree. Addresses have 64 bits, and a block fits an int.
pub record InTable (src dst : List StructOne) (v : Version) (avl : Option (Tree AddrPair))
    (x id t : ℕ) : Type 0 where
  pub k : ℕ
  pub p : IdPair
  pub o : ℕ
  pub here : get_elem? v.order_addr k ≡ some p
  pub at : x ≡ (v.block p.addr).located.virtual_addr + o
  pub inside : o < (v.block p.addr).located.data_len
  pub small : (v.block p.addr).located.data_len < 2 ^ 31
  pub known_id : id ≡ (v.block p.addr).id
  pub there :
      get_target_offset src dst (pos o) (v.block p.addr).type_id (v.block p.addr).type_num
      ≡ some (pos t)
  pub outside :
      (tree : Tree AddrPair) (q : AddrPair)
      → avl ≡ some tree
      → avl_search tree x ≡ some q
      → get_virtual_address_info (v.block q.ptr).located x ≡ none

pub record InTree (src dst : List StructOne) (v : Version) (avl : Option (Tree AddrPair))
    (x id t : ℕ) : Type 0 where
  pub tree : Tree AddrPair
  pub p : AddrPair
  pub o : ℕ
  pub has_tree : avl ≡ some tree
  pub at : x ≡ (v.block p.ptr).located.virtual_addr + o
  pub inside : o < (v.block p.ptr).located.data_len
  pub small : (v.block p.ptr).located.data_len < 2 ^ 31
  pub found : avl_search tree ((v.block p.ptr).located.virtual_addr + o) ≡ some p
  pub known_id : id ≡ (v.block p.ptr).tmp_id
  pub there :
      get_target_offset src dst (pos o) (v.block p.ptr).type_id (v.block p.ptr).type_num
      ≡ some (pos t)

-- What the other side makes of the id and the offset: it has a block with the id, and the offset stands for the
-- offset o in that block.
pub record IsReached (src dst : List StructOne) (w : Version) (id t y : ℕ) : Type 0 where
  pub j : ℕ
  pub q : IdPair
  pub o : ℕ
  pub here : get_elem? w.order_id j ≡ some q
  pub known_id : id ≡ (w.block q.addr).id
  pub at : y ≡ (w.block q.addr).located.virtual_addr + o
  pub fits : y < 2 ^ 64
  pub small : t < 2 ^ 31
  pub back :
      get_target_offset dst src (pos t) (w.block q.addr).type_id (w.block q.addr).type_num
      ≡ some (pos o)

-- NULL on both sides, or the pointer x here and the pointer y there.
pub record Travels (src dst : List StructOne) (v : Version) (avl : Option (Tree AddrPair))
    (w : Version) (x y : ℕ) : Type 0 where
  pub id : ℕ
  pub t : ℕ
  pub not_null : 0 < x
  pub fits : x < 2 ^ 64
  pub from : InTable src dst v avl x id t ⊎ InTree src dst v avl x id t
  pub to : IsReached src dst w id t y

abbrev pub AllTravel :
    List StructOne
    → List StructOne
    → Version
    → Option (Tree AddrPair)
    → Version
    → List ℕ
    → List ℕ
    → Type 0
AllTravel src dst v avl w [] [] = Unit {0}
AllTravel src dst v avl w [] (y ∷ ys) = ⊥
AllTravel src dst v avl w (x ∷ xs) [] = ⊥
AllTravel src dst v avl w (x ∷ xs) (y ∷ ys) =
    (((x ≡ 0) × (y ≡ 0)) ⊎ Travels src dst v avl w x y) × AllTravel src dst v avl w xs ys

module _ (src dst : List StructOne) (v : Version) (ok : IsVersion v)
    (avl : Option (Tree AddrPair)) where
  outside_tree :
      (x : ℕ)
      → ((tree : Tree AddrPair) (q : AddrPair)
          → avl ≡ some tree
          → avl_search tree x ≡ some q
          → get_virtual_address_info (v.block q.ptr).located x ≡ none)
      → point_in_tree src dst v x avl ≡ none
  unfolding point_in_tree
  outside_tree x h = elim (Option-cases avl) [
    | inl e ↦ rw e refl
    | inr (tree, e) ↦ elim (Option-cases (avl_search tree x)) [
      | inl f ↦ rw e (rw (f, point_in_tree) refl)
      | inr (q, f) ↦ rw e (rw (f, point_in_tree) (rw (h tree q e f) refl))
    ]
  ]

  round_there :
      (x id t : ℕ)
      → 0 < x
      → x < 2 ^ 64
      → InTable src dst v avl x id t ⊎ InTree src dst v avl x id t
      → point_round src dst v avl x ≡ done (id, t)
  round_there x id t h k (inl l) = rw l.known_id (
      rw l.at (
        point_round_lem v ok l.k l.p l.here l.o t src dst avl (omega (arith, l.at))
          (omega (arith, l.at)) l.small l.inside l.there (rw l.at at (outside_tree x l.outside))))
  round_there x id t h k (inr l) = rw l.known_id (
      rw (l.at, l.has_tree)
        (point_round-tree v l.tree l.p l.o t src dst (omega (arith, l.at)) (omega (arith, l.at))
          l.small l.inside l.found l.there))

  points_step :
      (x : ℕ) (xs : List ℕ) (e : ℕ × ℕ) (es : List (ℕ × ℕ))
      → point_round src dst v avl x ≡ done e
      → points_to_id_offset src dst v avl xs ≡ done es
      → points_to_id_offset src dst v avl (x ∷ xs) ≡ done (e ∷ es)
  unfolding points_to_id_offset
  points_step x xs e es d f = rw d (rw f refl)

  module _ (w : Version) (fine : IsVersion w) where
    round_and_back :
        (x y : ℕ)
        → ((x ≡ 0) × (y ≡ 0)) ⊎ Travels src dst v avl w x y
        → (e : ℕ × ℕ) × (point_round src dst v avl x ≡ done e) × (entry_round dst src w e ≡ done y)
    unfolding point_round entry_round
    round_and_back x y (inl (z, c)) = ((0, 0), rw z refl, rw c refl)
    round_and_back x y (inr l) = (
      (l.id, l.t),
      round_there x l.id l.t l.not_null l.fits l.from,
      rw (l.to.known_id, l.to.at)
          (entry_round_lem w fine l.to.j l.to.q l.to.here src dst l.to.o l.t
            (omega (arith, l.to.at, l.to.fits)) l.to.small l.to.back),
    )

    entries_step :
        (y : ℕ) (ys : List ℕ) (e : ℕ × ℕ) (es : List (ℕ × ℕ))
        → entry_round dst src w e ≡ done y
        → id_offset_to_points dst src w es ≡ done ys
        → id_offset_to_points dst src w (e ∷ es) ≡ done (y ∷ ys)
    unfolding id_offset_to_points
    entries_step y ys e es d f = rw d (rw f refl)

    -- Pointers, each NULL, into a block of the thread's tree, or into one of the version that the tree has not,
    -- become ids with offsets for the types of the other side: the temporary id of a block of the tree, and the id
    -- of one of the version. A version, the same or another one, with blocks of these ids turns them into the
    -- pointers to the offsets that `get_target_offset` gives for them there. Both tables of each version are sorted
    -- and hold the same blocks, which do not overlap; addresses have 64 bits, blocks and offsets fit an int.
    pub id_offset_to_points-points_to_id_offset :
        (xs ys : List ℕ)
        → AllTravel src dst v avl w xs ys
        → (es : List (ℕ × ℕ)) × (points_to_id_offset src dst v avl xs ≡ done es)
          × (id_offset_to_points dst src w es ≡ done ys)
    unfolding points_to_id_offset id_offset_to_points
    id_offset_to_points-points_to_id_offset [] [] a = ([], refl, refl)
    id_offset_to_points-points_to_id_offset [] (y ∷ ys) a = absurd a
    id_offset_to_points-points_to_id_offset (x ∷ xs) [] a = absurd a
    id_offset_to_points-points_to_id_offset (x ∷ xs) (y ∷ ys) a =
        let (e, d, b) = round_and_back x y a.0 in
        let (es, f, c) = id_offset_to_points-points_to_id_offset xs ys a.1 in
        (e ∷ es, points_step x xs e es d f, entries_step y ys e es b c)
