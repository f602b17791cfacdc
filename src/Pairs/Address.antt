-- ===== src/Pairs/Address.antt =====
-- The block that an address lies in: `sort_addr_id`, `search_addr_id` and `get_virtual_address_info` of
-- moon_code/sync/src/moon_runtime.c.
use moon_in_water.Prelude.{
  ℕ, zero, suc, ◌+◌, ◌-◌, ◌*◌, ◌%◌, ◌^◌, ◌<◌, ◌≤◌, ◌≡◌, refl, arith, ltb, leb, if◌then◌else◌, List,
  [], ◌∷◌, true, Bool-cases, inl, inr, length, get_elem?, map, Option, none, some, to_int,
}
use moon_in_water.Pairs.{
  IdPair, Located, qsort_addr_pair, sort_addr_id, search_addr_id, get_virtual_address_info,
}
use moon_in_water.Pairs.Count.{count, same}
use moon_in_water.Pairs.Sort.{qsort_addr_pair-Sorts}
use moon_in_water.Pairs.Search.{IsFloor, search_addr_id-IsFloor, get_elem?-count}

count-get_elem? :
    (p : IdPair) (xs : List IdPair)
    → 0 < count p xs
    → (j : ℕ) × (q : IdPair) × (get_elem? xs j ≡ some q) × (q.key ≡ p.key)
unfolding count
count-get_elem? p [] h = absurd (omega arith)
count-get_elem? p (x ∷ xs) h = elim (Bool-cases (same p x)) [
  | inl here ↦ (0, x, refl, ground arith)
  | inr there ↦ let (j, q, e, k) = count-get_elem? p xs (ground arith) in (suc j, q, e, k)
]

abbrev pub pair_of : Located → IdPair
pair_of b = record { addr = b.addr; key = b.virtual_addr }

map-get_elem? :
    (bs : List Located) (j : ℕ) (q : IdPair)
    → get_elem? (map pair_of bs) j ≡ some q
    → (b : Located) × (get_elem? bs j ≡ some b) × (b.virtual_addr ≡ q.key)
map-get_elem? [] j q e = absurd (cc)
map-get_elem? (b ∷ bs) zero q e = (b, refl, ground arith)
map-get_elem? (b ∷ bs) (suc j) q e = map-get_elem? bs j q e

get_elem?-map :
    (bs : List Located) (j : ℕ) (b : Located)
    → get_elem? bs j ≡ some b
    → get_elem? (map pair_of bs) j ≡ some (pair_of b)
get_elem?-map [] j b e = absurd (cc)
get_elem?-map (c ∷ bs) zero b e = ground arith
get_elem?-map (c ∷ bs) (suc j) b e = get_elem?-map bs j b e

no_block : (bs : List Located) (k : ℕ) (b : Located) → get_elem? bs k ≡ some b → length bs ≤ 0 → ⊥
no_block [] k b e h = cc
no_block (c ∷ bs) k b e h = omega arith

-- A block ends before any block with a higher address starts.
abbrev pub AreApart : List Located → Type 0
AreApart bs =
    (i j : ℕ) (b c : Located)
    → get_elem? bs i ≡ some b
    → get_elem? bs j ≡ some c
    → b.virtual_addr < c.virtual_addr
    → b.virtual_addr + b.data_len ≤ c.virtual_addr

module _ (bs : List Located) (apart : AreApart bs) (k : ℕ) (b : Located)
    (here : get_elem? bs k ≡ some b) where
  abbrev sorted_table : List IdPair
  sorted_table = qsort_addr_pair (map pair_of bs)

  -- The floor of an address in a block is the block's own pair.
  floor-block :
      (a i : ℕ)
      → b.virtual_addr ≤ a
      → a < b.virtual_addr + b.data_len
      → IsFloor sorted_table a (some i)
      → (p : IdPair) × (get_elem? sorted_table i ≡ some p) × (p.key ≡ b.virtual_addr)
  floor-block a i lo hi (p, e, l, top) =
      let s = qsort_addr_pair-Sorts (map pair_of bs) in
      let (j, q, d, m) = count-get_elem? (pair_of b) sorted_table (
        omega (
          arith,
          s.0 (pair_of b),
          get_elem?-count (map pair_of bs) k (pair_of b) (get_elem?-map bs k b here),
        )) in
      let (r, x, w, y) =
        count-get_elem? p (map pair_of bs)
          (omega (arith, s.0 p, get_elem?-count sorted_table i p e)) in
      let (c, z, v) = map-get_elem? bs r x w in (p, e, ground (arith, top j q, apart k r b c))

  sort_addr_id_lem : sort_addr_id true bs ≡ some sorted_table
  unfolding sort_addr_id
  sort_addr_id_lem = elim (Bool-cases (leb (length bs) 0)) [
    | inl empty ↦ absurd (no_block bs k b here (ground arith))
    | inr more ↦ rw more refl
  ]

  not_none : (a : ℕ) → b.virtual_addr ≤ a → IsFloor sorted_table a none → ⊥
  not_none a lo above =
      let s = qsort_addr_pair-Sorts (map pair_of bs) in
      let (j, q, d, m) = count-get_elem? (pair_of b) sorted_table (
        omega (
          arith,
          s.0 (pair_of b),
          get_elem?-count (map pair_of bs) k (pair_of b) (get_elem?-map bs k b here),
        )) in
      omega (arith, above j q d)

  abbrev Finds : ℕ → Type 0
  Finds a =
      (table : List IdPair) × (i : ℕ) × (p : IdPair) × (sort_addr_id true bs ≡ some table)
      × (search_addr_id table a ≡ some (some i))
      × (get_elem? table i ≡ some p)
      × (p.key ≡ b.virtual_addr)

  some_floor :
      (a : ℕ)
      → b.virtual_addr ≤ a
      → a < b.virtual_addr + b.data_len
      → (found : Option ℕ) → search_addr_id sorted_table a ≡ some found
      → IsFloor sorted_table a found
      → Finds a
  some_floor a lo hi none e f = absurd (not_none a lo f)
  some_floor a lo hi (some i) e f =
      let (p, g, m) = floor-block a i lo hi f in (sorted_table, i, p, sort_addr_id_lem, e, g, m)

  -- In a table of blocks that do not overlap, sorted by address, the search for an address in one of them
  -- finds a pair with the address of that block.
  pub search_addr_id-sort_addr_id :
      (a : ℕ)
      → b.virtual_addr ≤ a
      → a < b.virtual_addr + b.data_len
      → (table : List IdPair) × (i : ℕ) × (p : IdPair) × (sort_addr_id true bs ≡ some table)
        × (search_addr_id table a ≡ some (some i))
        × (get_elem? table i ≡ some p)
        × (p.key ≡ b.virtual_addr)
  search_addr_id-sort_addr_id a lo hi =
      let s = qsort_addr_pair-Sorts (map pair_of bs) in
      let (found, e, f) = search_addr_id-IsFloor sorted_table a s.1 in some_floor a lo hi found e f

-- The offset of an address in a block, where their distance fits an int: a block has no address past its
-- end. An address beyond it by a multiple of 2^32 is taken for one inside.
pub get_virtual_address_info_lem :
    (b : Located) (o n : ℕ)
    → b.data_len < 2 ^ 31
    → b.virtual_addr + o + n * 2 ^ 32 < 2 ^ 64
    → o < 2 ^ 31
    → get_virtual_address_info b (b.virtual_addr + o + n * 2 ^ 32)
      ≡ (if ltb o b.data_len then some o else none)
unfolding get_virtual_address_info to_int
get_virtual_address_info_lem b o n h k l =
    let e : (b.virtual_addr + o + n * 2 ^ 32 + (2 ^ 64 - b.virtual_addr % 2 ^ 64)) % 2 ^ 64 % 2 ^ 32
        ≡ o =
      omega arith in
    rw e (ground arith)

-- An address below the block, within 2^31 of it, is refused.
pub get_virtual_address_info_below :
    (b : Located) (d : ℕ)
    → b.virtual_addr < 2 ^ 64
    → 0 < d
    → d ≤ b.virtual_addr
    → d ≤ 2 ^ 31
    → get_virtual_address_info b (b.virtual_addr - d) ≡ none
unfolding get_virtual_address_info to_int
get_virtual_address_info_below b d h k l m =
    let e : (b.virtual_addr - d + (2 ^ 64 - b.virtual_addr % 2 ^ 64)) % 2 ^ 64 % 2 ^ 32
        ≡ 2 ^ 32 - d =
      omega arith in
    rw e (ground arith)
