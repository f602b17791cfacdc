-- ===== src/Pairs/Round.antt =====
-- One round of the loop of `qsort_addr_pair` in moon_code/sync/src/moon_runtime.c. The array is
-- L ++ g ∷ H ++ R: the pairs found below, a cell that is free, the pairs found not below, and those
-- still to come.
use moon_in_water.Prelude.{
  ℕ, suc, ◌+◌, ◌<◌, ◌≤◌, ◌≡◌, refl, ap, ap₂, sym, ◌∙◌, arith, ltb, List, [], ◌∷◌, ◌++◌, true, false,
  Bool-cases, inl, inr, length, length-append, append_assoc, set,
}
use moon_in_water.Pairs.{IdPair, cell_at, or_zeros, part_step}
use moon_in_water.Pairs.Count.{
  count, count-append, count-cons, count_one, AreBelow, AreFrom, AreBelow-append, AreFrom-append,
  cell_at-middle, set-middle,
}

cell_at-append_past :
    (xs ys : List IdPair) (k : ℕ) → cell_at (xs ++ ys) (length xs + k) ≡ cell_at ys k
unfolding cell_at or_zeros
cell_at-append_past [] ys k = ap (cell_at ys) (omega arith)
cell_at-append_past (x ∷ xs) ys k =
    let e : suc (length xs) + k ≡ suc (length xs + k) = omega arith in
    rw e (cell_at-append_past xs ys k)

set-append_past :
    (xs ys : List IdPair) (k : ℕ) (q : IdPair) → set (xs ++ ys) (length xs + k) q ≡ xs ++ set ys k q
set-append_past [] ys k q = ap (λ i. set ys i q) (omega arith)
set-append_past (x ∷ xs) ys k q =
    let e : suc (length xs) + k ≡ suc (length xs + k) = omega arith in
    rw e (ap (◌∷◌ x) (set-append_past xs ys k q))

-- The free cell moves up by one, and what stood there goes to the place of the pair that moved down.
abbrev moved : IdPair → List IdPair → List IdPair → List IdPair
moved x [] R = x ∷ R
moved x (h ∷ H) R = h ∷ (H ++ (h ∷ R))

moved_lem :
    (x : IdPair) (H R : List IdPair)
    → set (H ++ (x ∷ R)) (length H) (cell_at (H ++ (x ∷ R)) 0) ≡ moved x H R
unfolding cell_at or_zeros
moved_lem x [] R = refl
moved_lem x (h ∷ H) R = ap (◌∷◌ h) (set-middle H R x h)

module _ (c : ℕ) (g x : IdPair) (L H R : List IdPair) where
  abbrev array : List IdPair
  array = L ++ (g ∷ (H ++ (x ∷ R)))

  array-next : cell_at array (length L + suc (length H)) ≡ x
  array-next =
      cell_at-append_past L (g ∷ (H ++ (x ∷ R))) (suc (length H))
      ∙ unfold cell_at or_zeros in cell_at-middle H R x

  part_step-below :
      x.key < c
      → part_step c (length L + suc (length H)) (length L) array
        ≡ (L ++ (x ∷ moved x H R), length L + 1)
  unfolding part_step
  part_step-below h =
      let a : ltb x.key c ≡ true = ground arith in
      rw array-next (
        rw a (
          ap (λ xs. (xs, length L + 1))
            (rw (set-middle L (H ++ (x ∷ R)) g x) (
              rw (cell_at-append_past L (x ∷ (H ++ (x ∷ R))) 1) (
                set-append_past L (x ∷ (H ++ (x ∷ R))) (suc (length H)) _
                ∙ ap (λ ys. L ++ (x ∷ ys)) (unfold cell_at or_zeros in moved_lem x H R))))))

  part_step-from :
      c ≤ x.key → part_step c (length L + suc (length H)) (length L) array ≡ (array, length L)
  unfolding part_step
  part_step-from h = let a : ltb x.key c ≡ false = ground arith in rw array-next (rw a refl)

one-AreBelow : (c : ℕ) (x : IdPair) → x.key < c → AreBelow c (x ∷ [])
one-AreBelow c x h a k = ground (arith, count_one a x k)

one-AreFrom : (c : ℕ) (x : IdPair) → c ≤ x.key → AreFrom c (x ∷ [])
one-AreFrom c x h a k = ground (arith, count_one a x k)

-- The state after a round, in the shape of the next.
pub record Next (c : ℕ) (x : IdPair) (L H R : List IdPair) (out : List IdPair × ℕ) : Type 0 where
  pub low : List IdPair
  pub free : IdPair
  pub high : List IdPair
  pub shape : out ≡ (low ++ (free ∷ (high ++ R)), length low)
  pub index : length L + suc (length H) + 1 ≡ length low + suc (length high)
  pub same_pairs :
      (a : IdPair) → count a low + count a high ≡ count a L + count a H + count a (x ∷ [])
  pub low_below : AreBelow c low
  pub high_from : AreFrom c high

Next-below :
    (c : ℕ) (x : IdPair) (L H R : List IdPair)
    → x.key < c
    → AreBelow c L
    → AreFrom c H
    → Next c x L H R (L ++ (x ∷ moved x H R), length L + 1)
Next-below c x L [] R h p q = record {
  low = L ++ (x ∷ []);
  free = x;
  high = [];
  shape =
      ap₂ (λ xs n. (xs, n)) (sym (append_assoc L (x ∷ []) (x ∷ R)))
        (sym (length-append L (x ∷ [])));
  index = omega (arith, length-append L (x ∷ []));
  same_pairs = λ a. omega (arith, count-append a L (x ∷ []));
  low_below = AreBelow-append c L (x ∷ []) p (one-AreBelow c x h);
  high_from = q;
}
Next-below c x L (y ∷ H) R h p q = record {
  low = L ++ (x ∷ []);
  free = y;
  high = H ++ (y ∷ []);
  shape =
      ap₂ (λ xs n. (xs, n))
        (ap (λ ys. L ++ (x ∷ (y ∷ ys))) (sym (append_assoc H (y ∷ []) R))
          ∙ sym (append_assoc L (x ∷ []) (y ∷ ((H ++ (y ∷ [])) ++ R))))
        (sym (length-append L (x ∷ [])));
  index = omega (arith, length-append L (x ∷ []), length-append H (y ∷ []));
  same_pairs =
      λ a. omega (arith, count-append a L (x ∷ []), count-append a H (y ∷ []), count-cons a y H);
  low_below = AreBelow-append c L (x ∷ []) p (one-AreBelow c x h);
  high_from = λ a k. q a (omega (arith, count-append a H (y ∷ []), count-cons a y H));
}

Next-from :
    (c : ℕ) (g x : IdPair) (L H R : List IdPair)
    → c ≤ x.key
    → AreBelow c L
    → AreFrom c H
    → Next c x L H R (array c g x L H R, length L)
Next-from c g x L H R h p q = record {
  low = L;
  free = g;
  high = H ++ (x ∷ []);
  shape = ap (λ ys. (L ++ (g ∷ ys), length L)) (sym (append_assoc H (x ∷ []) R));
  index = omega (arith, length-append H (x ∷ []));
  same_pairs = λ a. omega (arith, count-append a H (x ∷ []));
  low_below = p;
  high_from = AreFrom-append c H (x ∷ []) q (one-AreFrom c x h);
}

pub part_step-Next :
    (c : ℕ) (g x : IdPair) (L H R : List IdPair)
    → AreBelow c L
    → AreFrom c H
    → Next c x L H R (part_step c (length L + suc (length H)) (length L) (array c g x L H R))
part_step-Next c g x L H R p q = elim (Bool-cases (ltb x.key c)) [
  | inl b ↦
      rw (part_step-below c g x L H R (ground arith)) (Next-below c x L H R (ground arith) p q)
  | inr b ↦
      rw (part_step-from c g x L H R (ground arith)) (Next-from c g x L H R (ground arith) p q)
]
