-- ===== src/Heap.antt =====
-- moon_code/common/src/moon_max_min_heap.c: the heap. The buffer is a list of slots, one for each `elem_size`
-- bytes; the last slot is the one that `swap` goes through.
pub mod Slots
pub mod Sift
pub mod Order
pub mod Keep
pub mod Push
mod Tests
use moon_in_water.Prelude.{
  ℕ, zero, suc, ◌+◌, ◌-◌, ◌*◌, ◌/◌, Bool, true, false, Option, none, some, List, [], ◌∷◌, ◌++◌,
  ◌==◌, ltb, leb, if◌then◌else◌, ◌&&◌, ◌||◌, not, ℤ, pos, negsuc, ltb_ℤ, leb_ℤ, pos_part, length,
  get_elem?, set,
}

-- `max_min_heap_s`; `elem_size` and `compare` stand outside, and `p_last_elem` is the last slot.
pub record Heap (A : Type 0) : Type 0 where
  pub is_min : Bool
  pub buf : List A
  pub cur_buf_len : ℕ
  pub capacity : ℕ

module _ {A : Type 0} where
  -- A `memcpy` of one slot to another: `none` if one of them is outside the buffer.
  unfoldable pub copy_slot : ℕ → ℕ → List A → Option (List A)
  copy_slot dst src xs = elim (get_elem? xs src) [
    | none ↦ none
    | some x ↦ if ltb dst (length xs) then some (set xs dst x) else none
  ]

  abbrev pub then_slots : Option (List A) → (List A → Option (List A)) → Option (List A)
  then_slots none f = none
  then_slots (some xs) f = f xs

  unfoldable pub swap : ℕ → ℕ → ℕ → List A → Option (List A)
  swap p1 p2 swap_buf xs =
      then_slots (copy_slot swap_buf p1 xs)
        (λ ys. then_slots (copy_slot p1 p2 ys) (λ zs. copy_slot p2 swap_buf zs))

  abbrev pub with_buf : Heap A → Option (List A) → Option (Heap A)
  with_buf h none = none
  with_buf h (some xs) = some (record h { buf = xs })

  abbrev pub then_heap : {B : Type 0} → Option B → (B → Option (Heap A)) → Option (Heap A)
  then_heap none f = none
  then_heap (some b) f = f b

  abbrev pub with_ret : ℤ → Option (Heap A) → Option (Heap A × ℤ)
  with_ret ret none = none
  with_ret ret (some h) = some (h, ret)

-- IS_SWAP
abbrev pub is_swap : Bool → ℤ → Bool
is_swap is_min cmp = (is_min && ltb_ℤ cmp (pos 0)) || (not is_min && ltb_ℤ (pos 0) cmp)

module _ {A : Type 0} (compare_data : A → A → ℤ) where
  -- Whether IS_SWAP holds of the data in two slots: `none` if one of them is outside the buffer.
  abbrev pub compare_slots : Heap A → ℕ → ℕ → Option Bool
  compare_slots h i j = elim (get_elem? h.buf i) [
    | none ↦ none
    | some x ↦ elim (get_elem? h.buf j) [
      | none ↦ none
      | some y ↦ some (is_swap h.is_min (compare_data x y))
    ]
  ]

  -- One turn of the loop of `heap_up`, the parent being `( ( index + 1 ) >> 2 ) - 1`; `next` goes on.
  unfoldable pub up_turn : Heap A → ℕ → (Heap A → ℕ → Option (Heap A)) → Option (Heap A)
  up_turn h index next =
      let quarter = (index + 1) / 4 in
      if quarter == 0
      then some h
      else then_heap (compare_slots h index (quarter - 1)) (λ swaps.
        if swaps
        then then_heap (with_buf h (swap index (quarter - 1) (h.capacity - 1) h.buf))
            (λ g. next g (quarter - 1))
        else some h)

  unfoldable pub up_loop : ℕ → Heap A → ℕ → Option (Heap A)
  up_loop zero h index = none
  up_loop (suc fuel) h index = up_turn h index (up_loop fuel)

  unfoldable pub heap_up : Heap A → ℕ → Option (Heap A)
  heap_up h index = up_loop (suc index) h index

  -- One step of the inner loop of `heap_down`: the better of `min_index` and the child, if there is one.
  abbrev pub min_step : Heap A → ℕ → ℕ → Option ℕ
  min_step h min_index child =
      if ltb child h.cur_buf_len
      then elim (compare_slots h min_index child) [
        | none ↦ none
        | some swaps ↦ some (if swaps then child else min_index)
      ]
      else some min_index

  -- One turn of the loop of `heap_down`, which moves the index only.
  unfoldable pub down_turn : Heap A → ℕ → (ℕ → Option (Heap A)) → Option (Heap A)
  down_turn h index next =
      let child_index = 2 * index + 1 in
      if ltb child_index h.cur_buf_len
      then then_heap (min_step h index child_index) (λ first.
        then_heap (min_step h first (child_index + 1))
          (λ min_index. if index == min_index then some h else next min_index))
      else some h

  unfoldable pub down_loop : ℕ → Heap A → ℕ → Option (Heap A)
  down_loop zero h index = none
  down_loop (suc fuel) h index = down_turn h index (down_loop fuel h)

  unfoldable pub heap_down : Heap A → ℕ → Option (Heap A)
  heap_down h index = down_loop (suc h.cur_buf_len) h index

  -- `heap_push` from the copy of the data on: `none` if a slot is outside the buffer.
  unfoldable pub push_slot : Heap A → A → Option (Heap A × ℤ)
  push_slot h x =
      if ltb h.cur_buf_len (length h.buf)
      then with_ret (pos 0) (
          heap_up (record h { buf = set h.buf h.cur_buf_len x; cur_buf_len = h.cur_buf_len + 1 })
            h.cur_buf_len)
      else none

  -- What `realloc` gives is the slots that come on top of the old ones, or NULL.
  unfoldable pub heap_push : Heap A → A → Option (List A) → Option (Heap A × ℤ)
  heap_push h x more =
      if leb (h.capacity - 1) h.cur_buf_len
      then elim more [
        | none ↦ some (h, negsuc 0)
        | some slots ↦ push_slot (record h { buf = h.buf ++ slots; capacity = h.capacity * 2 }) x
      ]
      else push_slot h x

  -- The heap, what `heap_pop` returns, and what it has copied to `p_data`.
  unfoldable pub heap_pop : Heap A → Option (Heap A × ℤ × Option A)
  heap_pop h = if h.cur_buf_len == 0 then some (h, negsuc 0, none) else elim (get_elem? h.buf 0) [
    | none ↦ none
    | some x ↦
        if h.cur_buf_len == 1
        then some (record h { cur_buf_len = 0 }, pos 0, some x)
        else elim (then_heap (with_buf h (copy_slot 0 (h.cur_buf_len - 1) h.buf))
            (λ g. heap_down (record g { cur_buf_len = h.cur_buf_len - 1 }) 0)) [
              | none ↦ none
              | some g ↦ some (g, pos 0, some x)
            ]
  ]

  unfoldable pub heap_top : Heap A → ℤ × Option A
  heap_top h = if h.cur_buf_len == 0 then (negsuc 0, none) else (pos 0, get_elem? h.buf 0)

module _ {A : Type 0} where
  -- `heap_init` with the slots that `malloc` gives for a buffer of the capacity; `compare` is not NULL.
  unfoldable pub heap_init : Bool → ℤ → ℤ → (ℕ → List A) → Option (Heap A)
  heap_init is_min elem_size capacity slots =
      let n = if leb_ℤ capacity (pos 0) then 1024 else suc (pos_part capacity) in
      if leb_ℤ elem_size (pos 0)
      then none
      else some (record { is_min = is_min; buf = slots n; cur_buf_len = 0; capacity = n })
