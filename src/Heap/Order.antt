-- ===== src/Heap/Order.antt =====
-- The order that `heap_up` of moon_code/common/src/moon_max_min_heap.c restores: that between a slot and the one
-- at `( ( index + 1 ) >> 2 ) - 1`.
use moon_in_water.Prelude.{
  ℕ, zero, suc, ◌+◌, ◌-◌, ◌/◌, ◌≤◌, ◌<◌, ◌≡◌, ◌≢◌, ◌∙◌, inl, inr, Bool, true, false, Option, none,
  some, ◌==◌, arith, get_elem?, Bool-cases, ℤ,
}
use moon_in_water.Heap.{Heap, is_swap, compare_slots, up_turn, up_loop}
use moon_in_water.Heap.Slots.{get_elem?-some, swap_lem, ℕ_cases}
use moon_in_water.Heap.Sift.{IsValid}

-- The slot that `heap_up` compares the slot c with; there is one from c = 3 on.
abbrev pub above : ℕ → ℕ
above c = (c + 1) / 4 - 1

-- What is asked of a test for the better one of two: it is asymmetric, and not being better is transitive.
pub record IsStrict {A : Type 0} (better : A → A → Bool) : Type 0 where
  pub asym : (x y : A) → better x y ≡ true → better y x ≡ false
  pub chain : (x y z : A) → better x y ≡ false → better y z ≡ false → better x z ≡ false

module _ {A : Type 0} (better : A → A → Bool) where
  -- The first is not better than the second.
  abbrev pub Yields : Option A → Option A → Type 0
  Yields none q = Unit {0}
  Yields (some x) none = Unit {0}
  Yields (some x) (some y) = better x y ≡ false

  -- No slot but perhaps i, of the first n, is better than the one above it.
  abbrev pub AreOrderedBut : ℕ → ℕ → (ℕ → Option A) → Type 0
  AreOrderedBut i n f = (c : ℕ) → c < n → 3 ≤ c → c ≢ i → Yields (f c) (f (above c))

  -- Past the slot i: from the one above it to those below.
  abbrev pub IsBridged : ℕ → ℕ → (ℕ → Option A) → Type 0
  IsBridged i n f = (c : ℕ) → c < n → 3 ≤ c → above c ≡ i → 3 ≤ i → Yields (f c) (f (above i))

  module _ (strict : IsStrict better) where
    Yields-chain : (p q : Option A) (y : A) → Yields p (some y) → Yields (some y) q → Yields p q
    Yields-chain none q y h k = tt
    Yields-chain (some x) none y h k = tt
    Yields-chain (some x) (some z) y h k = strict.chain x y z h k

    -- The slots before and after an exchange of the slot i, which was better, with the one above.
    module _ (f g : ℕ → Option A) (i n : ℕ) (x y : A) (low : 3 ≤ i) (fi : f i ≡ some x)
        (fp : f (above i) ≡ some y) (gi : g i ≡ some y) (gp : g (above i) ≡ some x)
        (same : (k : ℕ) → k < n → k ≢ i → k ≢ above i → g k ≡ f k)
        (is_better : better x y ≡ true) where
      swapped-AreOrderedBut : AreOrderedBut i n f → IsBridged i n f → AreOrderedBut (above i) n g
      swapped-AreOrderedBut h b c cn c3 cp = elim (ℕ_cases c i) [
        | inl e ↦ rw (e, gi, gp) (strict.asym x y is_better)
        | inr d ↦ rw (same c cn d cp) (elim (ℕ_cases (above c) i) [
          | inl e ↦ rw (e, gi) (rw fp at (b c cn c3 e low))
          | inr d2 ↦ elim (ℕ_cases (above c) (above i)) [
            | inl e ↦
                let edge : Yields (f c) (some y) = rw (e, fp) at (h c cn c3 d) in
                rw (e, gp) (Yields-chain (f c) (some x) y edge (strict.asym x y is_better))
            | inr d3 ↦ rw (same (above c) (omega arith) d2 d3) (h c cn c3 d)
          ]
        ])
      ]

      swapped-IsBridged : i < n → AreOrderedBut i n f → IsBridged (above i) n g
      swapped-IsBridged within h c cn c3 e p3 =
          let top : g (above (above i)) ≡ f (above (above i)) =
            same (above (above i)) (omega arith) (λ q. omega (arith, q)) (λ q. omega (arith, q)) in
          let up : Yields (some y) (f (above (above i))) =
            rw fp at (h (above i) (omega arith) p3 (λ q. omega (arith, q))) in
          rw top (elim (ℕ_cases c i) [
            | inl d ↦ rw (d, gi) up
            | inr d ↦
                let edge : Yields (f c) (some y) = rw (e, fp) at (h c cn c3 d) in
                rw (same c cn d (λ q. omega (arith, q, e))) (Yields-chain (f c) _ y edge up)
          ])

module _ {A : Type 0} (compare_data : A → A → ℤ) where
  abbrev pub better : Bool → A → A → Bool
  better is_min x y = is_swap is_min (compare_data x y)

  abbrev cells : Heap A → ℕ → Option A
  cells h k = get_elem? h.buf k

  -- No slot in use is better than the one above it.
  abbrev pub IsOrdered : Heap A → Type 0
  IsOrdered h =
      (c : ℕ)
      → c < h.cur_buf_len
      → 3 ≤ c
      → Yields (better h.is_min) (get_elem? h.buf c) (get_elem? h.buf (above c))

  abbrev pub Orders : Option (Heap A) → Type 0
  Orders none = ⊥
  Orders (some g) = IsOrdered g

  whole_order :
      (h : Heap A) (i : ℕ)
      → AreOrderedBut (better h.is_min) i h.cur_buf_len (cells h)
      → (3 ≤ i → Yields (better h.is_min) (get_elem? h.buf i) (get_elem? h.buf (above i)))
      → IsOrdered h
  whole_order h i o k c cn c3 = elim (ℕ_cases c i) [
    | inl e ↦ rw e (k (omega (arith, e)))
    | inr d ↦ o c cn c3 d
  ]

  pub up_loop-Orders :
      (fuel : ℕ) (h : Heap A) (i : ℕ)
      → IsStrict (better h.is_min)
      → IsValid h
      → i < h.cur_buf_len
      → i < fuel
      → AreOrderedBut (better h.is_min) i h.cur_buf_len (cells h)
      → IsBridged (better h.is_min) i h.cur_buf_len (cells h)
      → Orders (up_loop compare_data fuel h i)
  unfolding up_loop up_turn
  up_loop-Orders zero h i strict v used f o b = absurd (omega arith)
  up_loop-Orders (suc fuel) h i strict v used f o b = elim (Bool-cases ((i + 1) / 4 == 0)) [
    | inl at_top ↦ rw at_top (whole_order h i o (λ q. absurd (ground arith)))
    | inr not_top ↦
        let low : 3 ≤ i = ground arith in
        let (x, ex) = get_elem?-some h.buf i (omega (arith, v.size, v.spare)) in
        let (y, ey) = get_elem?-some h.buf (above i) (omega (arith, v.size, v.spare)) in
        let (ys, swapped, long, same, is_swapped) =
          swap_lem i (above i) (h.capacity - 1) h.buf (omega (arith, v.spare))
            (omega (arith, v.spare)) (omega (arith, v.size, v.spare)) in
        let g : Heap A = record h { buf = ys } in
        let valid : IsValid g = record { size = long ∙ v.size; spare = v.spare } in
        let gi : get_elem? ys i ≡ some y = is_swapped.first (λ q. omega (arith, q)) ∙ ey in
        let gp : get_elem? ys (above i) ≡ some x = is_swapped.second ∙ ex in
        let others : (k : ℕ)
            → k < h.cur_buf_len
            → k ≢ i
            → k ≢ above i
            → get_elem? ys k ≡ get_elem? h.buf k =
          λ k q. is_swapped.others k (omega (arith, v.spare)) in
        rw not_top (
          rw (ex, compare_slots)
            (rw ey (elim (Bool-cases (better h.is_min x y)) [
              | inr worse ↦ rw worse (whole_order h i o (λ q. rw (ex, ey) worse))
              | inl is_better ↦ rw is_better (
                  rw swapped (
                    up_loop-Orders fuel g (above i) strict valid (omega arith) (omega arith)
                      (swapped-AreOrderedBut (better h.is_min) strict (cells h) (cells g) i
                        h.cur_buf_len x y low ex ey gi gp others is_better o b)
                      (swapped-IsBridged (better h.is_min) strict (cells h) (cells g) i
                        h.cur_buf_len x y low ex ey gi gp others is_better used o)))
            ])))
  ]
