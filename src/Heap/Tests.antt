-- ===== src/Heap/Tests.antt =====
-- A heap at concrete inputs, and the theorems about it applied to them.
use moon_in_water.Prelude.{
  ℕ, ◌+◌, ◌<◌, ◌≡◌, refl, Bool, true, false, none, some, [], ◌∷◌, arith, pos, sub_ℕ, get_elem?,
}
use moon_in_water.Heap.{
  Heap, copy_slot, up_turn, up_loop, heap_up, down_turn, down_loop, heap_down, push_slot, heap_push,
  heap_pop, heap_init,
}
use moon_in_water.Heap.Sift.{IsValid}
use moon_in_water.Heap.Order.{IsStrict, better, IsOrdered}
use moon_in_water.Heap.Keep.{IsPushed, heap_pop_lem}
use moon_in_water.Heap.Push.{heap_push-IsOrdered}

-- 5 and 7 in a heap of the least data first.
abbrev two : Heap ℕ
two = record { is_min = true; buf = 5 ∷ 7 ∷ 0 ∷ 0 ∷ []; cur_buf_len = 2; capacity = 4 }

-- 1 is the least of the three, and 5 stays on top.
push_run :
    heap_push sub_ℕ two 1 none
    ≡ some
        (record { is_min = true; buf = 5 ∷ 7 ∷ 1 ∷ 0 ∷ []; cur_buf_len = 3; capacity = 4 }, pos 0)
unfolding heap_push push_slot heap_up up_loop up_turn
push_run = refl

-- 7 comes before 6 after a pop.
pop_run :
    heap_pop sub_ℕ
      (record { is_min = true; buf = 5 ∷ 6 ∷ 7 ∷ 0 ∷ []; cur_buf_len = 3; capacity = 4 })
    ≡ some (
      record { is_min = true; buf = 7 ∷ 6 ∷ 7 ∷ 0 ∷ []; cur_buf_len = 2; capacity = 4 },
      pos 0,
      some 5,
    )
unfolding heap_pop heap_down down_loop down_turn copy_slot
pop_run = refl

init_run :
    heap_init {A = ℕ} true (pos 4) (pos 2) (λ n. 0 ∷ 0 ∷ 0 ∷ [])
    ≡ some (record { is_min = true; buf = 0 ∷ 0 ∷ 0 ∷ []; cur_buf_len = 0; capacity = 3 })
unfolding heap_init
init_run = refl

-- Four data, with no room left; slot 3 is the first that has one above it.
abbrev four : Heap ℕ
four = record { is_min = true; buf = 5 ∷ 7 ∷ 6 ∷ 9 ∷ 0 ∷ []; cur_buf_len = 4; capacity = 5 }

sub_ℕ-IsStrict : (is_min : Bool) → IsStrict (better sub_ℕ is_min)
sub_ℕ-IsStrict true = record { asym = λ x y h. ground arith; chain = λ x y z h k. ground arith }
sub_ℕ-IsStrict false = record { asym = λ x y h. ground arith; chain = λ x y z h k. ground arith }

four-IsOrdered : IsOrdered sub_ℕ four
four-IsOrdered c below low = let last : c ≡ 3 = omega arith in rw last refl

heap_push-IsOrdered_example :
    (g : Heap ℕ) × (heap_push sub_ℕ four 1 (some (0 ∷ 0 ∷ 0 ∷ 0 ∷ 0 ∷ [])) ≡ some (g, pos 0))
    × IsPushed four 1 g
    × IsOrdered sub_ℕ g
heap_push-IsOrdered_example =
    heap_push-IsOrdered sub_ℕ four 1 (0 ∷ 0 ∷ 0 ∷ 0 ∷ 0 ∷ []) (sub_ℕ-IsStrict true)
      (record { size = refl; spare = omega arith }) refl four-IsOrdered

heap_pop_lem_example :
    (g : Heap ℕ) × (heap_pop sub_ℕ two ≡ some (g, pos 0, some 5))
    × IsValid g
    × (g.cur_buf_len + 1 ≡ 2)
    × (0 < g.cur_buf_len → get_elem? g.buf 0 ≡ some 7)
    × ((i : ℕ) → 0 < i → i < g.cur_buf_len → get_elem? g.buf i ≡ get_elem? two.buf i)
heap_pop_lem_example =
    heap_pop_lem sub_ℕ two (record { size = refl; spare = omega arith }) (omega arith)
