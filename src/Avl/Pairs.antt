-- ===== src/Avl/Pairs.antt =====
-- The tree of `addr_pair_s` in moon_code/common/src/moon_avltree.c: `avl_search`, `avl_add`,
-- `avl_del`.
use moon_in_water.Prelude.{ℕ, Bool, true, false, Option, none, some, [], if◌then◌else◌, ◌==◌, ℤ}
use moon_in_water.Avl.{Tree}
use moon_in_water.Avl.Add.{cmp_key, avl_search2, avl_add2}
use moon_in_water.Avl.Del.{Found, find_node, del_found}

-- `addr_pair_s`, with the address of the block it stands in.
pub record AddrPair : Type 0 where
  pub block : ℕ
  pub virtual_addr : ℕ
  pub ptr : ℕ

abbrev pub addr_of : AddrPair → ℕ
addr_of p = p.virtual_addr

abbrev pub addr_pair_cmp_func : ℕ → AddrPair → ℤ
addr_pair_cmp_func addr p = cmp_key p.virtual_addr addr

unfoldable pub avl_search : Tree AddrPair → ℕ → Option AddrPair
avl_search t addr = avl_search2 t (addr_pair_cmp_func addr)

-- What `avl_add` returns: NULL, or a pair and whether its block has been freed.
pub data AddAnswer : Type 0 where
  null : AddAnswer
  pair_at : AddrPair → Bool → AddAnswer

abbrev pub after_add2 :
    AddrPair → Option (Tree AddrPair × AddrPair) → Option (Tree AddrPair × AddAnswer)
after_add2 pair none = none
after_add2 pair (some (t, p_data)) =
    some (t, pair_at pair (if p_data.block == pair.block then false else true))

-- `calloc` gives NULL or a zeroed block.
unfoldable pub avl_add : Tree AddrPair → ℕ → Option ℕ → Option (Tree AddrPair × AddAnswer)
avl_add t addr none = some (t, null)
avl_add t addr (some block) =
    let pair : AddrPair = record { block = block; virtual_addr = addr; ptr = 0 } in
    after_add2 pair (avl_add2 t pair (addr_pair_cmp_func addr))

-- A copy of a pair: the two fields.
abbrev pub PairValue : Type 0
PairValue = ℕ × ℕ

abbrev pub with_pair : PairValue → Option (Tree AddrPair) → Option (Tree AddrPair × PairValue)
with_pair p none = none
with_pair p (some t) = some (t, p)

abbrev pub del_pair : Tree AddrPair → Option (Found AddrPair) → Option (Tree AddrPair × PairValue)
del_pair t none = some (t, (0, 0))
del_pair t (some f) = with_pair (f.value.virtual_addr, f.value.ptr) (del_found f)

-- `avl_del`. The pair found is a pointer into the tree; the node it points to is the one that compares
-- equal.
abbrev pub del_searched : Tree AddrPair → ℕ → Option AddrPair → Option (Tree AddrPair × PairValue)
del_searched t addr none = some (t, (0, 0))
del_searched t addr (some p_pair) =
    if p_pair.virtual_addr == addr
    then del_pair t (find_node (addr_pair_cmp_func addr) [] t)
    else some (t, (0, 0))

unfoldable pub avl_del : Tree AddrPair → ℕ → Option (Tree AddrPair × PairValue)
unfolding avl_search
avl_del t addr = del_searched t addr (avl_search t addr)
