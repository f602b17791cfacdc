-- ===== src/Pairs/Count.antt =====
-- How often a pair stands in a table of moon_code/sync/src/moon_runtime.c.
use moon_in_water.Prelude.{
  ℕ, zero, suc, ◌+◌, ◌<◌, ◌≤◌, ◌≡◌, refl, ap, arith, ◌==◌, ◌&&◌, if◌then◌else◌, List, [], ◌∷◌, ◌++◌,
  Bool, length, set,
}
use moon_in_water.Pairs.{IdPair, cell_at, or_zeros}

abbrev pub same : IdPair → IdPair → Bool
same p q = p.addr == q.addr && p.key == q.key

unfoldable pub count : IdPair → List IdPair → ℕ
count a [] = 0
count a (p ∷ ps) = (if same a p then 1 else 0) + count a ps

pub count-append : (a : IdPair) (xs ys : List IdPair) → count a (xs ++ ys) ≡ count a xs + count a ys
unfolding count
count-append a [] ys = omega arith
count-append a (x ∷ xs) ys = omega (arith, count-append a xs ys)

pub count-cons :
    (a p : IdPair) (ps : List IdPair) → count a (p ∷ ps) ≡ count a (p ∷ []) + count a ps
unfolding count
count-cons a p ps = omega arith

-- All the pairs have keys below a bound, and from a bound on.
abbrev pub AreBelow : ℕ → List IdPair → Type 0
AreBelow c ps = (a : IdPair) → 0 < count a ps → a.key < c

abbrev pub AreFrom : ℕ → List IdPair → Type 0
AreFrom c ps = (a : IdPair) → 0 < count a ps → c ≤ a.key

-- The same pairs, as often.
abbrev pub SamePairs : List IdPair → List IdPair → Type 0
SamePairs xs ys = (a : IdPair) → count a xs ≡ count a ys

-- No key is below the one before it.
abbrev pub IsSorted : List IdPair → Type 0
IsSorted [] = Unit {0}
IsSorted (p ∷ ps) = AreFrom p.key ps × IsSorted ps

pub count_self : (p : IdPair) → count p (p ∷ []) ≡ 1
unfolding count
count_self p = ground arith

pub count_one : (a p : IdPair) → 0 < count a (p ∷ []) → a.key ≡ p.key
unfolding count
count_one a p h = ground arith

pub AreBelow-append :
    (c : ℕ) (xs ys : List IdPair) → AreBelow c xs → AreBelow c ys → AreBelow c (xs ++ ys)
AreBelow-append c xs ys p q a h = ground (arith, count-append a xs ys, p a, q a)

pub AreFrom-append :
    (c : ℕ) (xs ys : List IdPair) → AreFrom c xs → AreFrom c ys → AreFrom c (xs ++ ys)
AreFrom-append c xs ys p q a h = ground (arith, count-append a xs ys, p a, q a)

-- Tables taken apart at an index.
pub cell_at-middle : (xs ys : List IdPair) (p : IdPair) → cell_at (xs ++ (p ∷ ys)) (length xs) ≡ p
unfolding cell_at or_zeros
cell_at-middle [] ys p = refl
cell_at-middle (x ∷ xs) ys p = cell_at-middle xs ys p

pub set-middle :
    (xs ys : List IdPair) (p q : IdPair) → set (xs ++ (p ∷ ys)) (length xs) q ≡ xs ++ (q ∷ ys)
set-middle [] ys p q = refl
set-middle (x ∷ xs) ys p q = ap (◌∷◌ x) (set-middle xs ys p q)

-- At an index of the table.
pub split_at :
    (xs : List IdPair) (i : ℕ)
    → i < length xs
    → (l r : List IdPair) × (xs ≡ l ++ (cell_at xs i ∷ r)) × (length l ≡ i)
unfolding cell_at or_zeros
split_at [] i h = absurd (omega arith)
split_at (x ∷ xs) zero h = ([], xs, refl, refl)
split_at (x ∷ xs) (suc i) h =
    let (l, r, e, k) = split_at xs i (omega arith) in (x ∷ l, r, ap (◌∷◌ x) e, ap suc k)
