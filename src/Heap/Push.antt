-- ===== src/Heap/Push.antt =====
-- The order of a heap of moon_code/common/src/moon_max_min_heap.c after a `heap_push`.
use moon_in_water.Prelude.{
  ℕ, zero, suc, ◌+◌, ◌-◌, ◌*◌, ◌<◌, ◌≡◌, refl, ap, ◌∙◌, inl, inr, Option, none, some, List, [], ◌∷◌,
  ◌++◌, leb, arith, length, get_elem?, set, length-set, length-append, lt→ltb, Bool-cases, ℤ, pos,
}
use moon_in_water.Heap.{Heap, heap_up, with_ret, push_slot, heap_push}
use moon_in_water.Heap.Slots.{get_elem?-set_other}
use moon_in_water.Heap.Sift.{IsValid}
use moon_in_water.Heap.Order.{
  above, IsStrict, AreOrderedBut, better, IsOrdered, Orders, up_loop-Orders,
}
use moon_in_water.Heap.Keep.{IsPushed, Pushes, heap_push-Pushes}

module _ {A : Type 0} where
  get_elem?-append :
      (xs ys : List A) (i : ℕ) → i < length xs → get_elem? (xs ++ ys) i ≡ get_elem? xs i
  get_elem?-append [] ys i h = absurd (omega arith)
  get_elem?-append (x ∷ xs) ys zero h = refl
  get_elem?-append (x ∷ xs) ys (suc i) h = get_elem?-append xs ys i (omega arith)

module _ {A : Type 0} (compare_data : A → A → ℤ) where
  abbrev OrdersRet : Option (Heap A × ℤ) → Type 0
  OrdersRet none = ⊥
  OrdersRet (some (g, ret)) = IsOrdered compare_data g

  with_ret-Orders : (o : Option (Heap A)) → Orders compare_data o → OrdersRet (with_ret (pos 0) o)
  with_ret-Orders none h = h
  with_ret-Orders (some g) h = h

  push_slot-Orders :
      (h : Heap A) (x : A)
      → IsStrict (better compare_data h.is_min)
      → length h.buf ≡ h.capacity
      → h.cur_buf_len + 1 < h.capacity
      → IsOrdered compare_data h
      → OrdersRet (push_slot compare_data h x)
  unfolding push_slot heap_up
  push_slot-Orders h x strict e room ordered =
      let n = h.cur_buf_len in
      let g : Heap A = record h { buf = set h.buf n x; cur_buf_len = n + 1 } in
      let valid : IsValid g = record { size = length-set h.buf n x ∙ e; spare = room } in
      let kept : (k : ℕ) → k < n → get_elem? g.buf k ≡ get_elem? h.buf k =
        λ k q. get_elem?-set_other h.buf n k x (λ d. omega (arith, d)) in
      let edges : AreOrderedBut (better compare_data h.is_min) n (n + 1) (λ k. get_elem? g.buf k) =
        λ c cn c3 d.
          let below : c < n = ground arith in
          rw (kept c below, kept (above c) (omega arith)) (ordered c below c3) in
      rw (lt→ltb n (length h.buf) (omega (arith, e))) (
        with_ret-Orders _ (
          up_loop-Orders compare_data (suc n) g n strict valid (omega arith) (omega arith) edges
            (λ c cn c3 q p. absurd (omega (arith, q)))))

  heap_push-Orders :
      (h : Heap A) (x : A) (slots : List A)
      → IsStrict (better compare_data h.is_min)
      → IsValid h
      → length slots ≡ h.capacity
      → IsOrdered compare_data h
      → OrdersRet (heap_push compare_data h x (some slots))
  unfolding heap_push
  heap_push-Orders h x slots strict v e ordered =
      elim (Bool-cases (leb (h.capacity - 1) h.cur_buf_len)) [
        | inr room ↦ rw room (push_slot-Orders h x strict v.size (ground arith) ordered)
        | inl full ↦
            let g : Heap A = record h { buf = h.buf ++ slots; capacity = h.capacity * 2 } in
            let long : length (h.buf ++ slots) ≡ h.capacity * 2 =
              omega (arith, length-append h.buf slots, v.size, e) in
            let kept : (k : ℕ) → k < h.cur_buf_len → get_elem? g.buf k ≡ get_elem? h.buf k =
              λ k q. get_elem?-append h.buf slots k (omega (arith, v.size, v.spare)) in
            rw full (
              push_slot-Orders g x strict long (omega (arith, v.spare))
                (λ c cn c3. rw (kept c cn, kept (above c) (omega arith)) (ordered c cn c3)))
      ]

  together :
      (h : Heap A) (x : A) (o : Option (Heap A × ℤ))
      → Pushes h x o
      → OrdersRet o
      → (g : Heap A) × (o ≡ some (g, pos 0)) × IsPushed h x g × IsOrdered compare_data g
  together h x none p q = absurd p
  together h x (some (g, ret)) (e, p) q = (g, ap (λ r. some (g, r)) e, p, q)

  -- `heap_push` on a heap whose buffer has its capacity and a spare slot, `realloc` giving as many new slots as
  -- there were, stays in the buffer, ends and returns 0. The heap then has such a buffer and holds the old data and the new one; and if IS_SWAP held of no slot and the one at
  -- ( ( index + 1 ) >> 2 ) - 1, it holds of none afterwards, where the order is a strict one.
  pub heap_push-IsOrdered :
      (h : Heap A) (x : A) (slots : List A)
      → IsStrict (better compare_data h.is_min)
      → IsValid h
      → length slots ≡ h.capacity
      → IsOrdered compare_data h
      → (g : Heap A) × (heap_push compare_data h x (some slots) ≡ some (g, pos 0))
        × IsPushed h x g
        × IsOrdered compare_data g
  heap_push-IsOrdered h x slots strict v e ordered =
      together h x _ (heap_push-Pushes compare_data h x slots v e)
        (heap_push-Orders h x slots strict v e ordered)
