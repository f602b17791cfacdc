-- ===== src/Heap/Sift.antt =====
-- `heap_up` and `heap_down` of moon_code/common/src/moon_max_min_heap.c in a buffer with a spare slot.
use moon_in_water.Prelude.{
  ℕ, zero, suc, ◌+◌, ◌-◌, ◌*◌, ◌/◌, ◌<◌, ◌≡◌, refl, ◌∙◌, inl, inr, Bool, Option, none, some, ltb,
  ◌==◌, arith, length, Bool-cases, ltb→lt, ℤ, ◌⊎◌,
}
use moon_in_water.Heap.{
  Heap, is_swap, compare_slots, up_turn, up_loop, heap_up, min_step, down_turn, down_loop,
  heap_down,
}
use moon_in_water.Heap.Slots.{count_in, get_elem?-some, swap_lem}

-- A buffer of `capacity` slots, the last one free.
pub record IsValid {A : Type 0} (h : Heap A) : Type 0 where
  pub size : length h.buf ≡ h.capacity
  pub spare : h.cur_buf_len < h.capacity

-- The same data, in another order.
pub record IsShuffled {A : Type 0} (h g : Heap A) : Type 0 where
  pub valid : IsValid g
  pub number : g.cur_buf_len ≡ h.cur_buf_len
  pub slots : g.capacity ≡ h.capacity
  pub same : (p : A → Bool) → count_in p h.cur_buf_len g.buf ≡ count_in p h.cur_buf_len h.buf

module _ {A : Type 0} where
  -- A result that is a heap of the same data.
  abbrev pub Shuffles : Heap A → Option (Heap A) → Type 0
  Shuffles h none = ⊥
  Shuffles h (some g) = IsShuffled h g

  IsShuffled-refl : (h : Heap A) → IsValid h → IsShuffled h h
  IsShuffled-refl h v = record { valid = v; number = refl; slots = refl; same = λ p. refl }

  IsShuffled-trans : (h g k : Heap A) → IsShuffled h g → IsShuffled g k → IsShuffled h k
  IsShuffled-trans h g k s t = record {
    valid = t.valid;
    number = t.number ∙ s.number;
    slots = t.slots ∙ s.slots;
    same = λ p. rw s.number at (t.same p) ∙ s.same p;
  }

  Shuffles-trans :
      (h g : Heap A) (o : Option (Heap A)) → IsShuffled h g → Shuffles g o → Shuffles h o
  Shuffles-trans h g none s t = t
  Shuffles-trans h g (some k) s t = IsShuffled-trans h g k s t

module _ {A : Type 0} (compare_data : A → A → ℤ) where
  compare_slots-some :
      (h : Heap A) (i j : ℕ)
      → i < length h.buf
      → j < length h.buf
      → (b : Bool) × (compare_slots compare_data h i j ≡ some b)
  compare_slots-some h i j hi hj =
      let (x, ex) = get_elem?-some h.buf i hi in
      let (y, ey) = get_elem?-some h.buf j hj in
      (is_swap h.is_min (compare_data x y), rw (ex, compare_slots) (rw ey refl))

  up_turn-Shuffles :
      (h : Heap A) (index : ℕ) (next : Heap A → ℕ → Option (Heap A))
      → IsValid h
      → index < h.cur_buf_len
      → ((g : Heap A) (i : ℕ) → IsValid g → i < g.cur_buf_len → i < index → Shuffles g (next g i))
      → Shuffles h (up_turn compare_data h index next)
  unfolding up_turn
  up_turn-Shuffles h index next v below k = elim (Bool-cases ((index + 1) / 4 == 0)) [
    | inl at_top ↦ rw at_top (IsShuffled-refl h v)
    | inr not_top ↦
        let inner : 0 < (index + 1) / 4 = ground arith in
        let parent = (index + 1) / 4 - 1 in
        let (b, test) =
          compare_slots-some h index parent (omega (arith, v.size, v.spare))
            (omega (arith, v.size, v.spare)) in
        let (ys, swapped, long, same, cells) =
          swap_lem index parent (h.capacity - 1) h.buf (omega (arith, v.spare))
            (omega (arith, v.spare)) (omega (arith, v.size, v.spare)) in
        let g : Heap A = record h { buf = ys } in
        let valid : IsValid g = record { size = long ∙ v.size; spare = v.spare } in
        let swaps : IsShuffled h g = record {
          valid = valid;
          number = refl;
          slots = refl;
          same = λ p. same p h.cur_buf_len below (omega arith) (omega (arith, v.spare));
        } in
        elim (Bool-cases b) [
          | inl better ↦ rw not_top (
              rw test (
                rw better (
                  rw swapped (
                    Shuffles-trans h g (next g parent) swaps
                      (k g parent valid (omega arith) (omega arith))))))
          | inr worse ↦ rw not_top (rw test (rw worse (IsShuffled-refl h v)))
        ]
  ]

  up_loop-Shuffles :
      (fuel : ℕ) (h : Heap A) (index : ℕ)
      → IsValid h
      → index < h.cur_buf_len
      → index < fuel
      → Shuffles h (up_loop compare_data fuel h index)
  unfolding up_loop
  up_loop-Shuffles zero h index v below f = absurd (omega arith)
  up_loop-Shuffles (suc fuel) h index v below f =
      up_turn-Shuffles h index (up_loop compare_data fuel) v below
        (λ g i w low less. up_loop-Shuffles fuel g i w low (omega arith))

  -- `heap_up` from a slot in use stays in the buffer, ends, and leaves the same data.
  pub heap_up-Shuffles :
      (h : Heap A) (index : ℕ)
      → IsValid h
      → index < h.cur_buf_len
      → Shuffles h (heap_up compare_data h index)
  unfolding heap_up
  heap_up-Shuffles h index v below = up_loop-Shuffles (suc index) h index v below (omega arith)

  -- A step of the inner loop gives one of the two slots, and the old one past the end.
  min_step-some :
      (h : Heap A) (i j : ℕ)
      → IsValid h
      → i < h.cur_buf_len
      → (m : ℕ) × (min_step compare_data h i j ≡ some m) × (m < h.cur_buf_len) × ((m ≡ i) ⊎ (m ≡ j))
  min_step-some h i j v hi = elim (Bool-cases (ltb j h.cur_buf_len)) [
    | inl there ↦
        let hj : j < h.cur_buf_len = ltb→lt j h.cur_buf_len there in
        let (b, test) =
          compare_slots-some h i j (omega (arith, v.size, v.spare))
            (omega (arith, v.size, v.spare)) in
        elim (Bool-cases b) [
          | inl better ↦ (j, rw (there, min_step) (rw test (rw better refl)), hj, inr refl)
          | inr worse ↦ (i, rw (there, min_step) (rw test (rw worse refl)), hi, inl refl)
        ]
    | inr past ↦ (i, rw (past, min_step) refl, hi, inl refl)
  ]

  down_loop_lem :
      (fuel : ℕ) (h : Heap A) (index : ℕ)
      → IsValid h
      → index < h.cur_buf_len
      → h.cur_buf_len < fuel + index
      → down_loop compare_data fuel h index ≡ some h
  unfolding down_loop down_turn
  down_loop_lem zero h index v below f = absurd (omega arith)
  down_loop_lem (suc fuel) h index v below f =
      elim (Bool-cases (ltb (2 * index + 1) h.cur_buf_len)) [
        | inr bottom ↦ rw bottom refl
        | inl inner ↦
            let (m1, step1, in1, which1) = min_step-some h index (2 * index + 1) v below in
            let (m2, step2, in2, which2) = min_step-some h m1 (2 * index + 1 + 1) v in1 in
            elim (Bool-cases (index == m2)) [
              | inl same ↦ rw step1 (rw step2 (rw same (rw inner refl)))
              | inr other ↦
                  let further : index < m2 = ground arith in
                  rw step1
                    (rw step2 (rw other (rw inner (down_loop_lem fuel h m2 v in2 (omega arith)))))
            ]
      ]

  -- `heap_down` from a slot in use stays in the buffer and ends, and it moves no data at all.
  pub heap_down_lem :
      (h : Heap A) (index : ℕ)
      → IsValid h
      → index < h.cur_buf_len
      → heap_down compare_data h index ≡ some h
  unfolding heap_down
  heap_down_lem h index v below = down_loop_lem (suc h.cur_buf_len) h index v below (omega arith)
