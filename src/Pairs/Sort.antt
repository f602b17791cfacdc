-- ===== src/Pairs/Sort.antt =====
-- `qsort_addr_pair` and `sort_addr_id` of moon_code/sync/src/moon_runtime.c.
use moon_in_water.Prelude.{
  ℕ, zero, suc, ◌<◌, ◌≤◌, ◌≡◌, refl, arith, leb, List, [], ◌∷◌, ◌++◌, false, Bool-cases, inl, inr,
  length, take-append, drop-append_past,
}
use moon_in_water.Pairs.{IdPair, qsort_fuel, qsort_addr_pair}
use moon_in_water.Pairs.Count.{
  count, count-append, count-cons, AreBelow, AreFrom, IsSorted, cell_at-middle,
}
use moon_in_water.Pairs.Partition.{IsParted, partition-IsParted}

IsSorted-append :
    (xs ys : List IdPair) (p : IdPair)
    → IsSorted xs
    → IsSorted ys
    → AreBelow p.key xs
    → AreFrom p.key ys
    → IsSorted (xs ++ (p ∷ ys))
unfolding count
IsSorted-append [] ys p a b c d = (d, b)
IsSorted-append (x ∷ xs) ys p a b c d = (
  λ q h. ground (arith, count-append q xs (p ∷ ys), a.0 q, d q, c x, c q),
  IsSorted-append xs ys p a.1 b (λ q h. c q (omega arith)) d,
)

-- A sorted array with the same pairs.
pub record Sorts (out : List IdPair) (result : List IdPair) : Type 0 where
  pub same_pairs : (a : IdPair) → count a result ≡ count a out
  pub sorted : IsSorted result

qsort_fuel_step :
    (fuel : ℕ) (out : List IdPair)
    → 1 < length out
    → (p : IsParted out)
    → qsort_fuel (suc fuel) out ≡ qsort_fuel fuel p.low ++ (p.cmp ∷ qsort_fuel fuel p.high)
unfolding qsort_fuel
qsort_fuel_step fuel out h p =
    let a : leb (length out) 1 ≡ false = ground arith in
    rw a (
      rw p.shape (
        rw (take-append p.low (p.cmp ∷ p.high)) (
          rw (cell_at-middle p.low p.high p.cmp)
            (rw (drop-append_past 1 p.low (p.cmp ∷ p.high)) refl))))

qsort_fuel_small : (fuel : ℕ) (out : List IdPair) → length out ≤ 1 → qsort_fuel fuel out ≡ out
unfolding qsort_fuel
qsort_fuel_small zero out h = refl
qsort_fuel_small (suc fuel) out h = ground arith

Sorts-small : (out : List IdPair) → length out ≤ 1 → Sorts out out
unfolding count
Sorts-small [] h = record { same_pairs = λ a. refl; sorted = tt }
Sorts-small (p ∷ []) h = record {
  same_pairs = λ a. refl;
  sorted = (λ a k. absurd (omega arith), tt);
}
Sorts-small (p ∷ q ∷ out) h = absurd (omega arith)

Sorts-parts :
    (out xs ys : List IdPair) (p : IsParted out)
    → Sorts p.low xs
    → Sorts p.high ys
    → Sorts out (xs ++ (p.cmp ∷ ys))
Sorts-parts out xs ys p a b = record {
  same_pairs = λ q. omega (
    arith,
    count-append q xs (p.cmp ∷ ys),
    count-cons q p.cmp ys,
    a.same_pairs q,
    b.same_pairs q,
    p.same_pairs q,
  );
  sorted =
      IsSorted-append xs ys p.cmp a.sorted b.sorted
        (λ q h. p.low_below q (omega (arith, a.same_pairs q)))
        (λ q h. p.high_from q (omega (arith, b.same_pairs q)));
}

-- As much fuel as there are pairs is enough.
qsort_fuel-Sorts :
    (fuel : ℕ) (out : List IdPair) → length out ≤ fuel → Sorts out (qsort_fuel fuel out)
qsort_fuel-Sorts zero out h =
    rw (qsort_fuel_small zero out (omega arith)) (Sorts-small out (omega arith))
qsort_fuel-Sorts (suc fuel) out h = elim (Bool-cases (leb (length out) 1)) [
  | inl small ↦ rw (qsort_fuel_small (suc fuel) out (ground arith)) (Sorts-small out (ground arith))
  | inr more ↦
      let p = partition-IsParted out (ground arith) in
      rw (qsort_fuel_step fuel out (ground arith) p) (
        Sorts-parts out _ _ p (qsort_fuel-Sorts fuel p.low (omega (arith, p.size)))
          (qsort_fuel-Sorts fuel p.high (omega (arith, p.size))))
]

-- The array is sorted in place: each pair stands in it as often as before, and no key is below an earlier
-- one.
pub qsort_addr_pair-Sorts :
    (out : List IdPair)
    → ((a : IdPair) → count a (qsort_addr_pair out) ≡ count a out) × IsSorted (qsort_addr_pair out)
unfolding qsort_addr_pair
qsort_addr_pair-Sorts out =
    let s = qsort_fuel-Sorts (length out) out (omega arith) in (s.same_pairs, s.sorted)
