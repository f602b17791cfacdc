-- ===== src/Heap/Slots.antt =====
-- The slots of a heap's buffer under a write and a swap: which data there are, and where.
use moon_in_water.Prelude.{
  ℕ, zero, suc, ◌+◌, ◌≤◌, ◌<◌, ◌≡◌, ◌≢◌, refl, sym, ap, ◌∙◌, inl, inr, Bool, some, List, [], ◌∷◌,
  if◌then◌else◌, arith, length, get_elem?, set, length-set, lt→ltb, ◌⊎◌, ℕ_discrete,
}
use moon_in_water.Heap.{copy_slot, then_slots, swap}

pub ℕ_cases : (i j : ℕ) → (i ≡ j) ⊎ (i ≢ j)
ℕ_cases i j = elim (ℕ_discrete i j) [ yes e ↦ inl e | no e ↦ inr e ]

-- Two slots below s exchanged.
pub record IsSwapped {A : Type 0} (i j s : ℕ) (xs ys : List A) : Type 0 where
  pub first : i ≢ j → get_elem? ys i ≡ get_elem? xs j
  pub second : get_elem? ys j ≡ get_elem? xs i
  pub others : (k : ℕ) → k < s → k ≢ i → k ≢ j → get_elem? ys k ≡ get_elem? xs k

module _ {A : Type 0} where
  abbrev pub one : (A → Bool) → A → ℕ
  one p x = if p x then 1 else 0

  -- How many of the first `n` data pass the test.
  abbrev pub count_in : (A → Bool) → ℕ → List A → ℕ
  count_in p zero xs = 0
  count_in p (suc n) [] = 0
  count_in p (suc n) (x ∷ xs) = one p x + count_in p n xs

  pub get_elem?-some : (xs : List A) (i : ℕ) → i < length xs → (x : A) × (get_elem? xs i ≡ some x)
  get_elem?-some [] i h = absurd (omega arith)
  get_elem?-some (x ∷ xs) zero h = (x, refl)
  get_elem?-some (x ∷ xs) (suc i) h = get_elem?-some xs i (omega arith)

  pub get_elem?-set :
      (xs : List A) (i : ℕ) (v : A) → i < length xs → get_elem? (set xs i v) i ≡ some v
  get_elem?-set [] i v h = absurd (omega arith)
  get_elem?-set (x ∷ xs) zero v h = refl
  get_elem?-set (x ∷ xs) (suc i) v h = get_elem?-set xs i v (omega arith)

  pub get_elem?-set_other :
      (xs : List A) (i j : ℕ) (v : A) → i ≢ j → get_elem? (set xs i v) j ≡ get_elem? xs j
  get_elem?-set_other [] i j v h = refl
  get_elem?-set_other (x ∷ xs) zero zero v h = absurd (h refl)
  get_elem?-set_other (x ∷ xs) zero (suc j) v h = refl
  get_elem?-set_other (x ∷ xs) (suc i) zero v h = refl
  get_elem?-set_other (x ∷ xs) (suc i) (suc j) v h =
      get_elem?-set_other xs i j v (λ e. h (ap suc e))

  pub count_in-set :
      (p : A → Bool) (n : ℕ) (xs : List A) (i : ℕ) (old v : A)
      → i < n
      → get_elem? xs i ≡ some old
      → count_in p n (set xs i v) + one p old ≡ count_in p n xs + one p v
  count_in-set p zero xs i old v h e = absurd (omega arith)
  count_in-set p (suc n) [] i old v h e = absurd (cc)
  count_in-set p (suc n) (x ∷ xs) zero old v h e = let same : x ≡ old = cc in rw same (omega arith)
  count_in-set p (suc n) (x ∷ xs) (suc i) old v h e =
      omega (arith, count_in-set p n xs i old v (omega arith) e)

  pub count_in-set_past :
      (p : A → Bool) (n : ℕ) (xs : List A) (i : ℕ) (v : A)
      → n ≤ i
      → count_in p n (set xs i v) ≡ count_in p n xs
  count_in-set_past p zero xs i v h = refl
  count_in-set_past p (suc n) [] i v h = refl
  count_in-set_past p (suc n) (x ∷ xs) zero v h = absurd (omega arith)
  count_in-set_past p (suc n) (x ∷ xs) (suc i) v h =
      ap (λ k. one p x + k) (count_in-set_past p n xs i v (omega arith))

  pub copy_slot_lem :
      (dst src : ℕ) (xs : List A) (x : A)
      → get_elem? xs src ≡ some x
      → dst < length xs
      → copy_slot dst src xs ≡ some (set xs dst x)
  unfolding copy_slot
  copy_slot_lem dst src xs x e h = rw (e, copy_slot) (rw (lt→ltb dst (length xs) h) refl)

  -- What stands in slot `j` after `y` has gone to slot `i` over `x`.
  moved :
      (xs : List A) (i j : ℕ) (x y : A)
      → get_elem? xs j ≡ some y
      → i < length xs
      → get_elem? (set xs i y) j ≡ some y
  moved xs i j x y e h = elim (ℕ_cases i j) [
    | inl same ↦ rw (sym same) (get_elem?-set xs i y h)
    | inr other ↦ get_elem?-set_other xs i j y other ∙ e
  ]

  pub swap_lem :
      (i j s : ℕ) (xs : List A)
      → i < s
      → j < s
      → s < length xs
      → (ys : List A) × (swap i j s xs ≡ some ys)
        × (length ys ≡ length xs)
        × ((p : A → Bool) (n : ℕ) → i < n → j < n → n ≤ s → count_in p n ys ≡ count_in p n xs)
        × IsSwapped i j s xs ys
  unfolding swap
  swap_lem i j s xs hi hj hs =
      let (x, ex) = get_elem?-some xs i (omega arith) in
      let (y, ey) = get_elem?-some xs j (omega arith) in
      let xs1 = set xs s x in
      let xs2 = set xs1 i y in
      let xs3 = set xs2 j x in
      let size1 : length xs1 ≡ length xs = length-set xs s x in
      let size2 : length xs2 ≡ length xs = length-set xs1 i y ∙ size1 in
      let at_j : get_elem? xs1 j ≡ some y =
        get_elem?-set_other xs s j x (λ e. omega (arith, e)) ∙ ey in
      let at_i : get_elem? xs1 i ≡ some x =
        get_elem?-set_other xs s i x (λ e. omega (arith, e)) ∙ ex in
      let at_s : get_elem? xs2 s ≡ some x =
        get_elem?-set_other xs1 i s y (λ e. omega (arith, e)) ∙ get_elem?-set xs s x hs in
      let done : then_slots (copy_slot s i xs)
            (λ us. then_slots (copy_slot i j us) (λ vs. copy_slot j s vs))
          ≡ some xs3 =
        rw (copy_slot_lem s i xs x ex hs) (
          rw (copy_slot_lem i j xs1 y at_j (omega (arith, size1)))
            (copy_slot_lem j s xs2 x at_s (omega (arith, size2)))) in
      let at_j2 : get_elem? xs2 j ≡ some y = moved xs1 i j x y at_j (omega (arith, size1)) in
      (
        xs3,
        done,
        length-set xs2 j x ∙ size2,
        λ p n ni nj ns. omega (
          arith,
          count_in-set_past p n xs s x ns,
          count_in-set p n xs1 i x y ni at_i,
          count_in-set p n xs2 j y x nj at_j2,
        ),
        record {
          first = λ d.
              get_elem?-set_other xs2 j i x (λ e. d (sym e))
              ∙ get_elem?-set xs1 i y (omega (arith, size1))
              ∙ sym ey;
          second = get_elem?-set xs2 j x (omega (arith, size2)) ∙ sym ex;
          others = λ k q d e.
              get_elem?-set_other xs2 j k x (λ r. e (sym r))
              ∙ get_elem?-set_other xs1 i k y (λ r. d (sym r))
              ∙ get_elem?-set_other xs s k x (λ r. omega (arith, r));
        },
      )
