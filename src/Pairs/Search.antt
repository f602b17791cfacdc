-- ===== src/Pairs/Search.antt =====
-- `search_addr_id` of moon_code/sync/src/moon_runtime.c on a sorted table.
use moon_in_water.Prelude.{
  ℕ, zero, suc, ◌+◌, ◌-◌, ◌/◌, ◌<◌, ◌≤◌, ◌≡◌, ◌≢◌, refl, arith, ltb, ◌==◌, List, [], ◌∷◌,
  Bool-cases, inl, inr, length, get_elem?, Option, none, some,
}
use moon_in_water.Pairs.{IdPair, search_loop, search_addr_id, map_some}
use moon_in_water.Pairs.Count.{count, IsSorted}

get_elem?-lt : (xs : List IdPair) (i : ℕ) → i < length xs → (p : IdPair) × (get_elem? xs i ≡ some p)
get_elem?-lt [] i h = absurd (omega arith)
get_elem?-lt (x ∷ xs) zero h = (x, refl)
get_elem?-lt (x ∷ xs) (suc i) h = get_elem?-lt xs i (omega arith)

get_elem?-past : (xs : List IdPair) (i : ℕ) (p : IdPair) → length xs ≤ i → get_elem? xs i ≢ some p
get_elem?-past [] i p h = λ e. cc
get_elem?-past (x ∷ xs) zero p h = absurd (omega arith)
get_elem?-past (x ∷ xs) (suc i) p h = get_elem?-past xs i p (omega arith)

pub get_elem?-count :
    (xs : List IdPair) (i : ℕ) (p : IdPair) → get_elem? xs i ≡ some p → 0 < count p xs
unfolding count
get_elem?-count [] i p e = absurd (cc)
get_elem?-count (x ∷ xs) zero p e = ground arith
get_elem?-count (x ∷ xs) (suc i) p e = omega (arith, get_elem?-count xs i p e)

pub IsSorted-get_elem? :
    (xs : List IdPair) (i j : ℕ) (p q : IdPair)
    → IsSorted xs
    → i ≤ j
    → get_elem? xs i ≡ some p
    → get_elem? xs j ≡ some q
    → p.key ≤ q.key
IsSorted-get_elem? [] i j p q s k d e = absurd (cc)
IsSorted-get_elem? (x ∷ xs) zero zero p q s k d e = ground arith
IsSorted-get_elem? (x ∷ xs) zero (suc j) p q s k d e = ground (arith, s.0 q, get_elem?-count xs j q)
IsSorted-get_elem? (x ∷ xs) (suc i) zero p q s k d e = absurd (omega arith)
IsSorted-get_elem? (x ∷ xs) (suc i) (suc j) p q s k d e =
    IsSorted-get_elem? xs i j p q s.1 (omega arith) d e

-- NULL: every key is above `id`. The pair at an index: its key is the greatest that is not above `id`.
abbrev pub IsFloor : List IdPair → ℕ → Option ℕ → Type 0
IsFloor xs id none = (j : ℕ) (q : IdPair) → get_elem? xs j ≡ some q → id < q.key
IsFloor xs id (some i) =
    (p : IdPair) × (get_elem? xs i ≡ some p)
    × (p.key ≤ id)
    × ((j : ℕ) (q : IdPair) → get_elem? xs j ≡ some q → q.key ≤ id → q.key ≤ p.key)

module _ (xs : List IdPair) (id : ℕ) (sorted : IsSorted xs) where
  -- A pair with the key itself.
  hit-IsFloor : (i : ℕ) (p : IdPair) → get_elem? xs i ≡ some p → p.key ≡ id → IsFloor xs id (some i)
  hit-IsFloor i p e k = (p, e, omega arith, λ j q d l. omega arith)

  -- The last pair below, where the next one is above.
  last-IsFloor :
      (i : ℕ) (p : IdPair)
      → get_elem? xs i ≡ some p
      → p.key ≤ id
      → ((j : ℕ) (q : IdPair) → i < j → get_elem? xs j ≡ some q → id < q.key)
      → IsFloor xs id (some i)
  last-IsFloor i p e k above =
      (p, e, k, λ j q d l. ground (arith, above j q, IsSorted-get_elem? xs j i q p sorted))

  search_loop-IsFloor :
      (fuel left right last : ℕ) (p : IdPair)
      → right - left ≤ fuel
      → left ≤ right
      → right ≤ length xs
      → last + 1 ≡ left
      → get_elem? xs last ≡ some p
      → p.key ≤ id
      → ((j : ℕ) (q : IdPair) → right ≤ j → get_elem? xs j ≡ some q → id < q.key)
      → (i : ℕ) × (search_loop fuel xs id left right last ≡ some i) × IsFloor xs id (some i)
  unfolding search_loop
  search_loop-IsFloor zero left right last p f l r k e b above =
      (last, ground arith, last-IsFloor last p e b (λ j q m. above j q (omega arith)))
  search_loop-IsFloor (suc fuel) left right last p f l r k e b above =
      elim (Bool-cases (ltb left right)) [
        | inr done ↦
            (last, ground arith, last-IsFloor last p e b (λ j q m. above j q (ground arith)))
        | inl more ↦
            let bound : left < right = ground arith in
            let (q, d) = get_elem?-lt xs (left / 2 + right / 2) (omega arith) in
            elim (Bool-cases (q.key == id)) [
              | inl same ↦ (left / 2 + right / 2, ground arith, hit-IsFloor _ q d (ground arith))
              | inr other ↦ elim (Bool-cases (ltb q.key id)) [
                | inl below ↦
                    let (i, w, z) =
                      search_loop-IsFloor fuel (left / 2 + right / 2 + 1) right
                        (left / 2 + right / 2) q (omega arith) (omega arith) r refl d (ground arith)
                        above in
                    (i, rw more (rw (d, other, below) w), z)
                | inr over ↦
                    let (i, w, z) =
                      search_loop-IsFloor fuel left (left / 2 + right / 2) last p (omega arith)
                        (omega arith) (omega arith) k e b
                        (λ j s m t.
                          ground
                            (arith, IsSorted-get_elem? xs (left / 2 + right / 2) j q s sorted)) in
                    (i, rw more (rw (d, other, over) w), z)
              ]
            ]
      ]

-- On a sorted table the search reads no cell outside it and ends: with NULL where every key is above `id`,
-- or else with a pair whose key is the greatest that is not above `id`.
pub search_addr_id-IsFloor :
    (xs : List IdPair) (id : ℕ)
    → IsSorted xs
    → (found : Option ℕ) × (search_addr_id xs id ≡ some found) × IsFloor xs id found
unfolding search_addr_id map_some
search_addr_id-IsFloor [] id s = (none, refl, λ j q e. absurd (cc))
search_addr_id-IsFloor (p ∷ xs) id s = elim (Bool-cases (ltb id p.key)) [
  | inl above ↦ (
    none,
    ground arith,
    λ j q e. ground (arith, IsSorted-get_elem? (p ∷ xs) 0 j p q s (omega arith) refl),
  )
  | inr from ↦ elim (Bool-cases (p.key == id)) [
    | inl same ↦ (some 0, ground arith, hit-IsFloor (p ∷ xs) id s 0 p refl (ground arith))
    | inr other ↦
        let (i, e, f) =
          search_loop-IsFloor (p ∷ xs) id s (length xs) 1 (length xs + 1) 0 p (omega arith)
            (omega arith) (omega arith) refl refl (ground arith)
            (λ j q k d. absurd (get_elem?-past (p ∷ xs) j q (omega arith) d)) in
        (some i, rw (from, other, e) refl, f)
  ]
]
