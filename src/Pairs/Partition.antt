-- ===== src/Pairs/Partition.antt =====
-- The loop of `qsort_addr_pair` in moon_code/sync/src/moon_runtime.c and what comes around it.
use moon_in_water.Prelude.{
  ℕ, suc, ◌+◌, ◌-◌, ◌/◌, ◌<◌, ◌≡◌, refl, ap, ap₂, sym, subst, ◌∙◌, arith, List, [], ◌∷◌, ◌++◌,
  length, length-append, append-nil, set,
}
use moon_in_water.Pairs.{IdPair, cell_at, or_zeros, part_step, part_loop, partition}
use moon_in_water.Pairs.Count.{
  count, count-append, count-cons, AreBelow, AreFrom, cell_at-middle, set-middle, split_at,
}
use moon_in_water.Pairs.Round.{part_step-Next}

part_loop_step :
    (c n j s : ℕ) (out out' : List IdPair) (s' : ℕ)
    → part_step c j s out ≡ (out', s')
    → part_loop c (suc n) j s out ≡ part_loop c n (j + 1) s' out'
unfolding part_loop
part_loop_step c n j s out out' s' e = ap (λ o. part_loop c n (j + 1) o.1 o.0) e

-- The array and `save_next` after the loop.
record Parted (c : ℕ) (R L H : List IdPair) (end : List IdPair × ℕ) : Type 0 where
  low : List IdPair
  free : IdPair
  high : List IdPair
  shape : end ≡ (low ++ (free ∷ high), length low)
  same_pairs : (a : IdPair) → count a low + count a high ≡ count a L + count a H + count a R
  size : length low + length high ≡ length L + length H + length R
  low_below : AreBelow c low
  high_from : AreFrom c high

part_loop-Parted :
    (c : ℕ) (R L H : List IdPair) (g : IdPair) (j s : ℕ)
    → j ≡ length L + suc (length H)
    → s ≡ length L
    → AreBelow c L
    → AreFrom c H
    → Parted c R L H (part_loop c (length R) j s (L ++ (g ∷ (H ++ R))))
unfolding part_loop count
part_loop-Parted c [] L H g j s e d p q = record {
  low = L;
  free = g;
  high = H;
  shape = ap₂ (λ xs n. (L ++ (g ∷ xs), n)) (append-nil H) d;
  same_pairs = λ a. omega arith;
  size = omega arith;
  low_below = p;
  high_from = q;
}
part_loop-Parted c (x ∷ R) L H g j s e d p q =
    let n = part_step-Next c g x L H R p q in
    let r = part_loop-Parted c R n.low n.high n.free _ _ n.index refl n.low_below n.high_from in
    rw (e, d)
      (subst (Parted c (x ∷ R) L H) (sym (part_loop_step c (length R) _ _ _ _ _ n.shape)) (record {
        low = r.low;
        free = r.free;
        high = r.high;
        shape = r.shape;
        same_pairs = λ a. omega (arith, r.same_pairs a, n.same_pairs a, count-cons a x R);
        size = omega (arith, r.size, n.index);
        low_below = r.low_below;
        high_from = r.high_from;
      }))

-- An array of two pairs or more, parted at the pair in its middle.
pub record IsParted (out : List IdPair) : Type 0 where
  pub low : List IdPair
  pub cmp : IdPair
  pub high : List IdPair
  pub shape : partition out ≡ (low ++ (cmp ∷ high), length low)
  pub same_pairs : (a : IdPair) → count a low + count a (cmp ∷ []) + count a high ≡ count a out
  pub size : length low + suc (length high) ≡ length out
  pub low_below : AreBelow cmp.key low
  pub high_from : AreFrom cmp.key high

module _ (p : IdPair) (rest l r : List IdPair) (cmp : IdPair) (m : ℕ) (d : rest ≡ l ++ (cmp ∷ r))
    (k : length l ≡ m) where
  middle_pair : cell_at (p ∷ rest) (suc m) ≡ cmp
  unfolding cell_at or_zeros
  middle_pair = rw d (rw (sym k) (cell_at-middle l r cmp))

  middle_set : set (p ∷ rest) (suc m) (cell_at (p ∷ rest) 0) ≡ p ∷ (l ++ (p ∷ r))
  unfolding cell_at or_zeros
  middle_set = rw d (rw (sym k) (ap (◌∷◌ p) (set-middle l r cmp p)))

  middle_length : length (p ∷ rest) - 1 ≡ length (l ++ (p ∷ r))
  middle_length = rw d (omega (arith, length-append l (cmp ∷ r), length-append l (p ∷ r)))

partition-middle :
    (p : IdPair) (rest l r : List IdPair) (cmp : IdPair) (m : ℕ)
    → length (p ∷ rest) / 2 ≡ suc m
    → rest ≡ l ++ (cmp ∷ r)
    → length l ≡ m
    → IsParted (p ∷ rest)
unfolding partition count
partition-middle p rest l r cmp m e d k =
    let q =
      part_loop-Parted cmp.key (l ++ (p ∷ r)) [] [] p 1 0 refl refl (λ a h. absurd (omega arith))
        (λ a h. absurd (omega arith)) in
    record {
      low = q.low;
      cmp = cmp;
      high = q.high;
      shape = rw e (
          rw (middle_pair p rest l r cmp m d k) (
            rw (middle_set p rest l r cmp m d k) (
              rw (middle_length p rest l r cmp m d k) (
                ap (λ (o : List IdPair × ℕ). (set o.0 o.1 cmp, o.1)) q.shape
                ∙ ap (λ xs. (xs, length q.low)) (set-middle q.low q.high q.free cmp)))));
      same_pairs = λ a.
          rw d
            (omega (arith, q.same_pairs a, count-append a l (p ∷ r), count-append a l (cmp ∷ r)));
      size = omega (arith, q.size, middle_length p rest l r cmp m d k);
      low_below = q.low_below;
      high_from = q.high_from;
    }

pub partition-IsParted : (out : List IdPair) → 1 < length out → IsParted out
partition-IsParted [] h = absurd (omega arith)
partition-IsParted (p ∷ rest) h =
    let (l, r, e, k) = split_at rest (length (p ∷ rest) / 2 - 1) (omega arith) in
    partition-middle p rest l r _ _ (omega arith) e k
