-- ===== src/Heap/Keep.antt =====
-- `heap_push` and `heap_pop` of moon_code/common/src/moon_max_min_heap.c.
use moon_in_water.Prelude.{
  ℕ, zero, suc, ◌+◌, ◌-◌, ◌*◌, ◌/◌, ◌≤◌, ◌<◌, ◌≡◌, refl, sym, ap, ◌∙◌, inl, inr, Bool, true, false,
  Option, none, some, List, [], ◌∷◌, ◌++◌, ltb, leb, ◌==◌, arith, length, get_elem?, set,
  length-set, length-append, lt→ltb, Bool-cases, ℤ, pos,
}
use moon_in_water.Heap.{
  Heap, heap_up, with_ret, push_slot, heap_push, heap_pop, heap_top, up_turn, up_loop,
}
use moon_in_water.Heap.Slots.{
  one, count_in, get_elem?-some, get_elem?-set, get_elem?-set_other, copy_slot_lem,
}
use moon_in_water.Heap.Sift.{IsValid, Shuffles, heap_up-Shuffles, heap_down_lem}

module _ {A : Type 0} where
  -- The heap `g` holds the data of `h` and `x`.
  pub record IsPushed (h : Heap A) (x : A) (g : Heap A) : Type 0 where
    pub valid : IsValid g
    pub number : g.cur_buf_len ≡ suc h.cur_buf_len
    pub same :
        (p : A → Bool)
        → count_in p (suc h.cur_buf_len) g.buf ≡ one p x + count_in p h.cur_buf_len h.buf

  -- What `heap_push` gives when there is room or `realloc` does not fail.
  abbrev pub Pushes : Heap A → A → Option (Heap A × ℤ) → Type 0
  Pushes h x none = ⊥
  Pushes h x (some (g, ret)) = (ret ≡ pos 0) × IsPushed h x g

  count_in-suc :
      (p : A → Bool) (n : ℕ) (xs : List A) (x : A)
      → n < length xs
      → count_in p (suc n) (set xs n x) ≡ one p x + count_in p n xs
  count_in-suc p n [] x h = absurd (omega arith)
  count_in-suc p zero (y ∷ xs) x h = refl
  count_in-suc p (suc n) (y ∷ xs) x h = omega (arith, count_in-suc p n xs x (omega arith))

  count_in-append :
      (p : A → Bool) (n : ℕ) (xs ys : List A)
      → n ≤ length xs
      → count_in p n (xs ++ ys) ≡ count_in p n xs
  count_in-append p zero xs ys h = refl
  count_in-append p (suc n) [] ys h = absurd (omega arith)
  count_in-append p (suc n) (x ∷ xs) ys h =
      ap (λ k. one p x + k) (count_in-append p n xs ys (omega arith))

  with_ret-Pushes :
      (h : Heap A) (x : A) (o : Option (Heap A))
      → h.cur_buf_len < length h.buf
      → Shuffles (record h { buf = set h.buf h.cur_buf_len x; cur_buf_len = h.cur_buf_len + 1 }) o
      → Pushes h x (with_ret (pos 0) o)
  with_ret-Pushes h x none b s = s
  with_ret-Pushes h x (some g) b s =
      let next : h.cur_buf_len + 1 ≡ suc h.cur_buf_len = omega arith in
      (
        refl,
        record {
          valid = s.valid;
          number = s.number ∙ next;
          same = λ p. rw next at (s.same p) ∙ count_in-suc p h.cur_buf_len h.buf x b;
        },
      )

  -- A buffer with more slots holds the same data.
  grown-Pushes :
      (h : Heap A) (x : A) (slots : List A) (o : Option (Heap A × ℤ))
      → h.cur_buf_len ≤ length h.buf
      → Pushes (record h { buf = h.buf ++ slots; capacity = h.capacity * 2 }) x o
      → Pushes h x o
  grown-Pushes h x slots none b s = s
  grown-Pushes h x slots (some (g, ret)) b (e, s) = (
    e,
    record {
      valid = s.valid;
      number = s.number;
      same = λ p. s.same p ∙ ap (λ k. one p x + k) (count_in-append p h.cur_buf_len h.buf slots b);
    },
  )

module _ {A : Type 0} (compare_data : A → A → ℤ) where
  push_slot-Pushes :
      (h : Heap A) (x : A)
      → length h.buf ≡ h.capacity
      → h.cur_buf_len + 1 < h.capacity
      → Pushes h x (push_slot compare_data h x)
  unfolding push_slot
  push_slot-Pushes h x e room =
      let n = h.cur_buf_len in
      let g : Heap A = record h { buf = set h.buf n x; cur_buf_len = n + 1 } in
      let valid : IsValid g = record { size = length-set h.buf n x ∙ e; spare = room } in
      rw (lt→ltb n (length h.buf) (omega (arith, e))) (
        with_ret-Pushes h x (heap_up compare_data g n) (omega (arith, e))
          (heap_up-Shuffles compare_data g n valid (omega arith)))

  -- `heap_push` on a heap whose buffer has its capacity and a spare slot, `realloc` giving as many new slots
  -- as there were, stays in the buffer, ends, returns 0, and leaves such a buffer with the old data and the new one.
  pub heap_push-Pushes :
      (h : Heap A) (x : A) (slots : List A)
      → IsValid h
      → length slots ≡ h.capacity
      → Pushes h x (heap_push compare_data h x (some slots))
  unfolding heap_push
  heap_push-Pushes h x slots v e = elim (Bool-cases (leb (h.capacity - 1) h.cur_buf_len)) [
    | inl full ↦
        let long : length (h.buf ++ slots) ≡ h.capacity * 2 =
          omega (arith, length-append h.buf slots, v.size, e) in
        rw full (
          grown-Pushes h x slots _ (omega (arith, v.size, v.spare)) (
            push_slot-Pushes (record h { buf = h.buf ++ slots; capacity = h.capacity * 2 }) x long
              (omega (arith, v.spare))))
    | inr room ↦ rw room (push_slot-Pushes h x v.size (ground arith))
  ]

  -- `heap_push` on a heap of one or two data leaves the first one where it is, whatever the order is:
  -- the new one is not compared with it.
  pub heap_push-keeps_top :
      (h : Heap A) (x : A) (more : Option (List A))
      → IsValid h
      → h.cur_buf_len + 1 < h.capacity
      → 0 < h.cur_buf_len
      → h.cur_buf_len ≤ 2
      → (g : Heap A) × (heap_push compare_data h x more ≡ some (g, pos 0))
        × (heap_top compare_data g ≡ heap_top compare_data h)
  unfolding heap_push push_slot heap_up up_loop up_turn heap_top
  heap_push-keeps_top h x more v room some_data few =
      let n = h.cur_buf_len in
      let g : Heap A = record h { buf = set h.buf n x; cur_buf_len = n + 1 } in
      let fits : leb (h.capacity - 1) n ≡ false = ground arith in
      let inside : ltb n (length h.buf) ≡ true = lt→ltb n (length h.buf) (omega (arith, v.size)) in
      let no_parent : ((n + 1) / 4 == 0) ≡ true = ground arith in
      let empty : (n == 0) ≡ false = ground arith in
      let not_empty : (n + 1 == 0) ≡ false = ground arith in
      (
        g,
        rw fits (rw inside (rw no_parent refl)),
        rw (empty, not_empty)
            (ap (λ o. (pos 0, o)) (get_elem?-set_other h.buf n 0 x (λ e. omega (arith, e)))),
      )

  -- `heap_pop` on a heap with data, whose buffer has its capacity and a spare slot, stays in the buffer,
  -- ends and leaves such a buffer. It gives the first of the data; the last one has taken its place, and
  -- all others stand where they stood, whatever the order is.
  pub heap_pop_lem :
      (h : Heap A)
      → IsValid h
      → 0 < h.cur_buf_len
      → (g : Heap A) × (heap_pop compare_data h ≡ some (g, pos 0, get_elem? h.buf 0))
        × IsValid g
        × (g.cur_buf_len + 1 ≡ h.cur_buf_len)
        × (0 < g.cur_buf_len → get_elem? g.buf 0 ≡ get_elem? h.buf (h.cur_buf_len - 1))
        × ((i : ℕ) → 0 < i → i < g.cur_buf_len → get_elem? g.buf i ≡ get_elem? h.buf i)
  unfolding heap_pop
  heap_pop_lem h v some_data =
      let (x, ex) = get_elem?-some h.buf 0 (omega (arith, v.size, v.spare)) in
      let (y, ey) = get_elem?-some h.buf (h.cur_buf_len - 1) (omega (arith, v.size, v.spare)) in
      let not_empty : (h.cur_buf_len == 0) ≡ false = ground arith in
      elim (Bool-cases (h.cur_buf_len == 1)) [
        | inl single ↦ (
          record h { cur_buf_len = 0 },
          rw not_empty (rw ex (rw single refl)),
          record { size = v.size; spare = omega (arith, v.spare) },
          ground arith,
          λ q. absurd (omega (arith, q)),
          λ i q r. absurd (omega (arith, r)),
        )
        | inr several ↦
            let moved =
              copy_slot_lem 0 (h.cur_buf_len - 1) h.buf y ey (omega (arith, v.size, v.spare)) in
            let g : Heap A = record h { buf = set h.buf 0 y; cur_buf_len = h.cur_buf_len - 1 } in
            let valid : IsValid g = record {
              size = length-set h.buf 0 y ∙ v.size;
              spare = omega (arith, v.spare);
            } in
            let sifted = heap_down_lem compare_data g 0 valid (ground arith) in
            (
              g,
              rw not_empty (rw ex (rw several (rw moved (rw sifted refl)))),
              valid,
              omega arith,
              λ q. get_elem?-set h.buf 0 y (omega (arith, v.size, v.spare)) ∙ sym ey,
              λ i q r. get_elem?-set_other h.buf 0 i y (λ e. omega (arith, e)),
            )
      ]
