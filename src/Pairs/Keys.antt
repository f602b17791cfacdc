-- ===== src/Pairs/Keys.antt =====
-- What `qsort_addr_pair` of moon_code/sync/src/moon_runtime.c makes of two arrays with the same keys.
use moon_in_water.Prelude.{
  ℕ, zero, suc, ◌+◌, ◌-◌, ◌/◌, ◌≡◌, refl, ap, sym, subst, ltb, leb, List, [], ◌∷◌, ◌++◌, true,
  false, Bool-cases, inl, inr, length, take, drop, set,
}
use moon_in_water.Pairs.{
  IdPair, cell_at, or_zeros, part_step, part_loop, partition, qsort_fuel, qsort_addr_pair,
}

-- At each index the two have the same key.
abbrev pub SameKeys : List IdPair → List IdPair → Type 0
SameKeys [] [] = Unit {0}
SameKeys [] (y ∷ ys) = ⊥
SameKeys (x ∷ xs) [] = ⊥
SameKeys (x ∷ xs) (y ∷ ys) = (x.key ≡ y.key) × SameKeys xs ys

length-SameKeys : (xs ys : List IdPair) → SameKeys xs ys → length xs ≡ length ys
length-SameKeys [] [] h = refl
length-SameKeys [] (y ∷ ys) h = absurd h
length-SameKeys (x ∷ xs) [] h = absurd h
length-SameKeys (x ∷ xs) (y ∷ ys) (k, h) = ap suc (length-SameKeys xs ys h)

cell_at-SameKeys :
    (xs ys : List IdPair) (i : ℕ) → SameKeys xs ys → (cell_at xs i).key ≡ (cell_at ys i).key
unfolding cell_at or_zeros
cell_at-SameKeys [] [] i h = refl
cell_at-SameKeys [] (y ∷ ys) i h = absurd h
cell_at-SameKeys (x ∷ xs) [] i h = absurd h
cell_at-SameKeys (x ∷ xs) (y ∷ ys) zero (k, h) = k
cell_at-SameKeys (x ∷ xs) (y ∷ ys) (suc i) (k, h) = cell_at-SameKeys xs ys i h

set-SameKeys :
    (xs ys : List IdPair) (i : ℕ) (p q : IdPair)
    → SameKeys xs ys
    → p.key ≡ q.key
    → SameKeys (set xs i p) (set ys i q)
set-SameKeys [] [] i p q h e = h
set-SameKeys [] (y ∷ ys) i p q h e = absurd h
set-SameKeys (x ∷ xs) [] i p q h e = absurd h
set-SameKeys (x ∷ xs) (y ∷ ys) zero p q (k, h) e = (e, h)
set-SameKeys (x ∷ xs) (y ∷ ys) (suc i) p q (k, h) e = (k, set-SameKeys xs ys i p q h e)

append-SameKeys :
    (xs ys us vs : List IdPair) → SameKeys xs ys → SameKeys us vs → SameKeys (xs ++ us) (ys ++ vs)
append-SameKeys [] [] us vs h g = g
append-SameKeys [] (y ∷ ys) us vs h g = absurd h
append-SameKeys (x ∷ xs) [] us vs h g = absurd h
append-SameKeys (x ∷ xs) (y ∷ ys) us vs (k, h) g = (k, append-SameKeys xs ys us vs h g)

take-SameKeys : (n : ℕ) (xs ys : List IdPair) → SameKeys xs ys → SameKeys (take n xs) (take n ys)
take-SameKeys zero xs ys h = tt
take-SameKeys (suc n) [] [] h = h
take-SameKeys (suc n) [] (y ∷ ys) h = absurd h
take-SameKeys (suc n) (x ∷ xs) [] h = absurd h
take-SameKeys (suc n) (x ∷ xs) (y ∷ ys) (k, h) = (k, take-SameKeys n xs ys h)

drop-SameKeys : (n : ℕ) (xs ys : List IdPair) → SameKeys xs ys → SameKeys (drop n xs) (drop n ys)
drop-SameKeys zero xs ys h = h
drop-SameKeys (suc n) [] [] h = h
drop-SameKeys (suc n) [] (y ∷ ys) h = absurd h
drop-SameKeys (suc n) (x ∷ xs) [] h = absurd h
drop-SameKeys (suc n) (x ∷ xs) (y ∷ ys) (k, h) = drop-SameKeys n xs ys h

-- The array with `save_next`, and likewise.
abbrev SameState : List IdPair × ℕ → List IdPair × ℕ → Type 0
SameState s t = SameKeys s.0 t.0 × (s.1 ≡ t.1)

part_step-SameState :
    (cmp j s : ℕ) (xs ys : List IdPair)
    → SameKeys xs ys
    → SameState (part_step cmp j s xs) (part_step cmp j s ys)
unfolding part_step
part_step-SameState cmp j s xs ys h =
    let k = cell_at-SameKeys xs ys j h in
    elim (Bool-cases (ltb (cell_at xs j).key cmp)) [
      | inr b ↦ let b' : ltb (cell_at ys j).key cmp ≡ false = rw (sym k) b in rw (b, b') (h, refl)
      | inl b ↦
          let b' : ltb (cell_at ys j).key cmp ≡ true = rw (sym k) b in
          let g = set-SameKeys xs ys s (cell_at xs j) (cell_at ys j) h k in
          rw (b, b') (set-SameKeys _ _ j _ _ g (cell_at-SameKeys _ _ (s + 1) g), refl)
    ]

part_loop-SameState :
    (cmp n j s : ℕ) (xs ys : List IdPair)
    → SameKeys xs ys
    → SameState (part_loop cmp n j s xs) (part_loop cmp n j s ys)
unfolding part_loop
part_loop-SameState cmp zero j s xs ys h = (h, refl)
part_loop-SameState cmp (suc n) j s xs ys h =
    let (g, e) = part_step-SameState cmp j s xs ys h in
    subst
      (λ t.
        SameState (part_loop cmp n (j + 1) (part_step cmp j s xs).1 (part_step cmp j s xs).0)
          (part_loop cmp n (j + 1) t (part_step cmp j s ys).0))
      e (part_loop-SameState cmp n (j + 1) _ _ _ g)

partition-SameState :
    (xs ys : List IdPair) → SameKeys xs ys → SameState (partition xs) (partition ys)
unfolding partition
partition-SameState xs ys h =
    let half = length xs / 2 in
    let k = cell_at-SameKeys xs ys half h in
    let (g, e) =
      part_loop-SameState (cell_at xs half).key (length xs - 1) 1 0 (set xs half (cell_at xs 0))
        (set ys half (cell_at ys 0)) (set-SameKeys xs ys half _ _ h (cell_at-SameKeys xs ys 0 h)) in
    rw (sym (length-SameKeys xs ys h), partition)
      (rw (sym k, sym e) (set-SameKeys _ _ _ _ _ g k, refl))

qsort_fuel-SameKeys :
    (fuel : ℕ) (xs ys : List IdPair)
    → SameKeys xs ys
    → SameKeys (qsort_fuel fuel xs) (qsort_fuel fuel ys)
unfolding qsort_fuel
qsort_fuel-SameKeys zero xs ys h = h
qsort_fuel-SameKeys (suc fuel) xs ys h =
    let (g, e) = partition-SameState xs ys h in
    let parts = (partition xs).0 in
    let rest = (partition ys).0 in
    let n = (partition xs).1 in
    elim (Bool-cases (leb (length xs) 1)) [
      | inl b ↦
          let b' : leb (length ys) 1 ≡ true = rw (sym (length-SameKeys xs ys h)) b in rw (b, b') h
      | inr b ↦
          let b' : leb (length ys) 1 ≡ false = rw (sym (length-SameKeys xs ys h)) b in
          rw (b, b', sym e)
            (append-SameKeys (qsort_fuel fuel (take n parts)) (qsort_fuel fuel (take n rest)) _ _
              (qsort_fuel-SameKeys fuel (take n parts) (take n rest) (take-SameKeys n parts rest g))
              (
                cell_at-SameKeys parts rest n g,
                qsort_fuel-SameKeys fuel (drop (n + 1) parts) (drop (n + 1) rest)
                    (drop-SameKeys (n + 1) parts rest g),
              ))
    ]

pub qsort_addr_pair-SameKeys :
    (xs ys : List IdPair) → SameKeys xs ys → SameKeys (qsort_addr_pair xs) (qsort_addr_pair ys)
unfolding qsort_addr_pair
qsort_addr_pair-SameKeys xs ys h =
    subst (λ n. SameKeys (qsort_addr_pair xs) (qsort_fuel n ys)) (length-SameKeys xs ys h)
      (qsort_fuel-SameKeys (length xs) xs ys h)
