-- ===== src/Avl/Entries.antt =====
-- `avl_search`, `avl_add` and `avl_del` on a search tree of pairs.
use moon_in_water.Prelude.{
  ℕ, ◌≤◌, ◌<◌, ◌≡◌, ◌≢◌, ◌⊎◌, inl, inr, refl, sym, ap, ◌∙◌, true, false, Option, none, some, List,
  [], ◌∷◌, ◌++◌, ◌==◌, arith, Bool-cases,
}
use moon_in_water.Avl.{Tree, items}
use moon_in_water.Avl.Grow.{Holds}
use moon_in_water.Avl.Order.{All, All-mono, In, IsSorted, Below, Above}
use moon_in_water.Avl.Add.{avl_add2, avl_search2}
use moon_in_water.Avl.Insert.{IsSearch, Added, avl_add2-Added}
use moon_in_water.Avl.Find.{Best, All-In, avl_search2-Best}
use moon_in_water.Avl.Del.{Found, find_node, del_found}
use moon_in_water.Avl.Locate.{
  lower_items, higher_items, items-whole, del_found-Holds, IsSorted-without, Located,
  find_node-Located,
}
use moon_in_water.Avl.Pairs.{
  AddrPair, addr_of, addr_pair_cmp_func, avl_search, AddAnswer, pair_at, after_add2, avl_add,
  PairValue, with_pair, del_pair, del_searched, avl_del,
}

-- What `avl_del` gives: nothing changed and a zero pair, if no pair has the address; else the pair's two
-- fields, and a search tree of the others.
abbrev pub Deleted : Tree AddrPair → ℕ → Option (Tree AddrPair × PairValue) → Type 0
Deleted t addr none = ⊥
Deleted t addr (some (u, v)) =
    ((u ≡ t) × (v ≡ (0, 0)) × All (λ p. p.virtual_addr ≢ addr) (items t))
    ⊎ ((xs : List AddrPair) × (d : AddrPair) × (ys : List AddrPair) × (items t ≡ xs ++ d ∷ ys)
        × (d.virtual_addr ≡ addr)
        × (v ≡ (d.virtual_addr, d.ptr))
        × IsSearch addr_of u
        × (items u ≡ xs ++ ys))

with_pair-Deleted :
    (t : Tree AddrPair) (addr : ℕ) (xs : List AddrPair) (d : AddrPair) (ys : List AddrPair)
    → items t ≡ xs ++ d ∷ ys
    → d.virtual_addr ≡ addr
    → IsSorted addr_of (xs ++ ys)
    → (o : Option (Tree AddrPair)) → Holds (xs ++ ys) o
    → Deleted t addr (with_pair (d.virtual_addr, d.ptr) o)
with_pair-Deleted t addr xs d ys e k s none h = h
with_pair-Deleted t addr xs d ys e k s (some u) (v, same) =
    inr (xs, d, ys, e, k, refl, (v, rw same s), same)

del_pair-Deleted :
    (t : Tree AddrPair) (addr : ℕ)
    → IsSearch addr_of t
    → (o : Option (Found AddrPair)) → Located addr_of addr [] t o
    → Deleted t addr (del_pair t o)
del_pair-Deleted t addr s none absent = inl (refl, refl, absent)
del_pair-Deleted t addr (v, s) (some f) (same, k) =
    let there = sym (items-whole f f.value) ∙ ap items same in
    with_pair-Deleted t addr (lower_items f) f.value (higher_items f) (sym there) k
      (IsSorted-without addr_of (lower_items f) f.value (higher_items f) (rw there s)) (del_found f)
      (del_found-Holds f (rw same v))

del_searched-Deleted :
    (t : Tree AddrPair) (addr : ℕ)
    → IsSearch addr_of t
    → (o : Option AddrPair) → Best addr_of addr none (items t) o
    → Deleted t addr (del_searched t addr o)
del_searched-Deleted t addr s none (inl (e, above)) = inl (
  refl,
  refl,
  All-mono (λ y. addr < y.virtual_addr) (λ y. y.virtual_addr ≢ addr) (items t)
      (λ y q e. omega arith) above,
)
del_searched-Deleted t addr s none (inr (c, e, i, small, rest)) = absurd (cc)
del_searched-Deleted t addr s (some p) best = elim (Bool-cases (p.virtual_addr == addr)) [
  | inl equal ↦ rw equal (
      del_pair-Deleted t addr s (find_node (addr_pair_cmp_func addr) [] t)
        (find_node-Located addr_of addr [] t s.1))
  | inr unequal ↦ rw unequal (inl (refl, refl, others best unequal))
]
  where
    others :
        Best addr_of addr none (items t) (some p)
        → (p.virtual_addr == addr) ≡ false
        → All (λ y. y.virtual_addr ≢ addr) (items t)
    others (inl (e, above)) unequal = absurd (cc)
    others (inr (c, e, i, small, rest)) unequal =
        let same : p ≡ c = cc in
        let apart : c.virtual_addr ≢ addr = λ k. ground (arith, ap addr_of same) in
        All-mono (λ y. (y.virtual_addr ≤ c.virtual_addr) ⊎ (addr < y.virtual_addr))
          (λ y. y.virtual_addr ≢ addr) (items t)
          (λ y q k. elim q [
            | inl low ↦ apart (omega (arith, k, low, small))
            | inr high ↦ omega (arith, k, high)
          ])
          rest

-- On a search tree `avl_del` meets no null pointer. If no pair has the address, it changes nothing and
-- returns zeros; else it returns that pair's fields and leaves a search tree of all the other pairs.
pub avl_del-Deleted :
    (t : Tree AddrPair) (addr : ℕ) → IsSearch addr_of t → Deleted t addr (avl_del t addr)
unfolding avl_del avl_search
avl_del-Deleted t addr s =
    del_searched-Deleted t addr s (avl_search2 t (addr_pair_cmp_func addr))
      (avl_search2-Best addr_of t addr s.1)

-- What `avl_add` gives with a block from `calloc`: the pair in it, in the tree and not freed, if the
-- address is new; else the tree as it was, and the pair in the block that has been freed.
abbrev pub Entered : Tree AddrPair → ℕ → ℕ → Option (Tree AddrPair × AddAnswer) → Type 0
Entered t addr block none = ⊥
Entered t addr block (some (u, answer)) =
    let pair : AddrPair = record { block = block; virtual_addr = addr; ptr = 0 } in
    ((answer ≡ pair_at pair true)
      × (u ≡ t)
      × ((d : AddrPair) × In d (items t) × (d.virtual_addr ≡ addr)))
    ⊎ ((answer ≡ pair_at pair false)
        × IsSearch addr_of u
        × ((xs : List AddrPair) × (ys : List AddrPair) × (items t ≡ xs ++ ys)
            × (items u ≡ xs ++ pair ∷ ys)
            × Below addr_of addr xs
            × Above addr_of addr ys))

-- On a search tree, with a block of `calloc` that holds no pair of the tree, `avl_add` meets no null
-- pointer. If the address is new, the pair in the block is in the search tree that it leaves; if it is
-- there already, the tree stays as it was and the pair returned stands in the block that was freed.
pub avl_add-Entered :
    (t : Tree AddrPair) (addr block : ℕ)
    → IsSearch addr_of t
    → All (λ p. p.block ≢ block) (items t)
    → Entered t addr block (avl_add t addr (some block))
unfolding avl_add
avl_add-Entered t addr block s fresh =
    let pair : AddrPair = record { block = block; virtual_addr = addr; ptr = 0 } in
    go (avl_add2 t pair (addr_pair_cmp_func addr)) (avl_add2-Added addr_of t pair s)
  where
    go :
        (o : Option (Tree AddrPair × AddrPair))
        → Added addr_of t (record { block = block; virtual_addr = addr; ptr = 0 }) o
        → Entered t addr block
            (after_add2 (record { block = block; virtual_addr = addr; ptr = 0 }) o)
    go none h = h
    go (some (u, d)) (inl (same, k, i)) =
        let other : d.block ≢ block = All-In addr_of (λ p. p.block ≢ block) d (items t) fresh i in
        let test : (d.block == block) ≡ false = ground arith in inl (rw test refl, same, (d, i, k))
    go (some (u, d)) (inr (xs, ys, e, su, e1, e2, lo, hi)) =
        let test : (d.block == block) ≡ true = ground (arith, ap (λ p. p.block) e) in
        inr (rw test refl, su, (xs, ys, e1, e2, lo, hi))
