-- ===== src/Changes/Blocks.antt =====
-- Whole lists of blocks of moon_code/sync/src/moon_runtime.c, behind the count.
use moon_in_water.Prelude.{
  ℕ, ◌+◌, ◌*◌, ◌^◌, ◌<◌, ◌≤◌, ◌≡◌, refl, arith, List, [], ◌∷◌, ◌++◌, some, length, map, ℤ,
}
use moon_in_water.Wire.{Host}
use moon_in_water.Changes.{
  MemBlock, Entry, add64, sub64, del_loop, new_loop, write_id_loop, new_id_loop, unpacked,
  undel_loop, unnew_loop, unnew_id_loop, unwrite_id_loop,
}
use moon_in_water.Changes.Loops.{
  put_num-some, sub64-lt, add64-sub64, add64-sub64_left, get_two_lem, get_three_lem,
  undel_loop_step, unnew_loop_step, unnew_id_loop_step, unwrite_id_loop_step,
}

-- The ids do not fall, and they fit a number of the packet.
abbrev pub AreAscending : ℕ → List MemBlock → Type 0
AreAscending prev [] = Unit {0}
AreAscending prev (b ∷ bs) = (prev ≤ b.id) × (b.id < 2 ^ 62) × AreAscending b.id bs

abbrev pub del_entry : MemBlock → Entry
del_entry b = record { id_0 = b.id; id_1 = 0; id_2 = 0 }

pub undel_loop-del_loop :
    (h : Host) (prev : ℕ) (bs : List MemBlock)
    → AreAscending prev bs
    → (bytes : List ℕ) × (del_loop h prev bs ≡ some bytes)
      × ((h' : Host) (num : ℤ) (size i : ℕ) (rest : List ℕ)
          → 24 * (i + length bs) ≤ size
          → undel_loop h' num size (length bs) i prev (bytes ++ rest)
            ≡ unpacked num (map del_entry bs) rest)
unfolding del_loop undel_loop
undel_loop-del_loop h prev [] a = ([], refl, λ h' num size i rest k. refl)
undel_loop-del_loop h prev (b ∷ bs) a =
    let (tail, w, ih) = undel_loop-del_loop h b.id bs a.2 in
    let (bytes, v, r) =
      put_num-some h (sub64 b.id prev) (del_loop h b.id bs) tail (sub64-lt _ _ a.0 a.1) w in
    (
      bytes,
      v,
      λ h' num size i rest k.
          let e : add64 prev (sub64 b.id prev) ≡ b.id = add64-sub64 b.id prev a.0 a.1 in
          rw e at (
            undel_loop_step h' num size (length bs) i prev (map del_entry bs) (bytes ++ rest) rest
              (tail ++ rest) (sub64 b.id prev) (r h' rest) (omega arith)
              (rw e (ih h' num size (i + 1) rest (omega arith)))),
    )

-- The types and the counts of new blocks fit a number of the packet.
abbrev pub AreTyped : List MemBlock → Type 0
AreTyped [] = Unit {0}
AreTyped (b ∷ bs) = (b.type_id < 2 ^ 62) × (b.type_num < 2 ^ 62) × AreTyped bs

abbrev pub new_entry : MemBlock → Entry
new_entry b = record { id_0 = b.type_id; id_1 = b.type_num; id_2 = 0 }

pub unnew_loop-new_loop :
    (h : Host) (bs : List MemBlock)
    → AreTyped bs
    → (bytes : List ℕ) × (new_loop h bs ≡ some bytes)
      × ((h' : Host) (num : ℤ) (size i : ℕ) (rest : List ℕ)
          → 24 * (i + length bs) ≤ size
          → unnew_loop h' num size (length bs) i (bytes ++ rest)
            ≡ unpacked num (map new_entry bs) rest)
unfolding new_loop unnew_loop
unnew_loop-new_loop h [] a = ([], refl, λ h' num size i rest k. refl)
unnew_loop-new_loop h (b ∷ bs) a =
    let (tail, w, ih) = unnew_loop-new_loop h bs a.2 in
    let (mid, v, r) = put_num-some h b.type_num (new_loop h bs) tail a.1 w in
    let (bytes, u, q) = put_num-some h b.type_id _ mid a.0 v in
    (
      bytes,
      u,
      λ h' num size i rest k.
          unnew_loop_step h' num size (length bs) i (map new_entry bs) (bytes ++ rest) rest
            (tail ++ rest) b.type_id b.type_num (get_two_lem h' _ _ _ _ _ (q h' rest) (r h' rest))
            (omega arith) (ih h' num size (i + 1) rest (omega arith)),
    )

abbrev pub new_id_entry : MemBlock → Entry
new_id_entry b = record { id_0 = b.type_id; id_1 = b.type_num; id_2 = b.id }

pub unnew_id_loop-new_id_loop :
    (h : Host) (prev : ℕ) (bs : List MemBlock)
    → AreTyped bs
    → AreAscending prev bs
    → (bytes : List ℕ) × (new_id_loop h prev bs ≡ some bytes)
      × ((h' : Host) (num : ℤ) (size i : ℕ) (rest : List ℕ)
          → 24 * (i + length bs) ≤ size
          → unnew_id_loop h' num size (length bs) i prev (bytes ++ rest)
            ≡ unpacked num (map new_id_entry bs) rest)
unfolding new_id_loop unnew_id_loop
unnew_id_loop-new_id_loop h prev [] t a = ([], refl, λ h' num size i rest k. refl)
unnew_id_loop-new_id_loop h prev (b ∷ bs) t a =
    let (tail, w, ih) = unnew_id_loop-new_id_loop h b.id bs t.2 a.2 in
    let (low, x, p) =
      put_num-some h (sub64 b.id prev) (new_id_loop h b.id bs) tail (sub64-lt _ _ a.0 a.1) w in
    let (mid, v, r) = put_num-some h b.type_num _ low t.1 x in
    let (bytes, u, q) = put_num-some h b.type_id _ mid t.0 v in
    (
      bytes,
      u,
      λ h' num size i rest k.
          let e : add64 prev (sub64 b.id prev) ≡ b.id = add64-sub64 b.id prev a.0 a.1 in
          rw e at (
            unnew_id_loop_step h' num size (length bs) i prev (map new_id_entry bs) (bytes ++ rest)
              rest (tail ++ rest) b.type_id b.type_num (sub64 b.id prev)
              (get_three_lem h' _ _ _ _ _ _ _ (q h' rest) (r h' rest) (p h' rest)) (omega arith)
              (rw e (ih h' num size (i + 1) rest (omega arith)))),
    )

-- A written block has no smaller id than the block that it had been, and these do not fall.
abbrev pub ArePaired : ℕ → List (MemBlock × MemBlock) → Type 0
ArePaired prev [] = Unit {0}
ArePaired prev ((b, old) ∷ bs) =
    (prev ≤ old.id) × (old.id ≤ b.id) × (b.id < 2 ^ 62) × ArePaired old.id bs

abbrev pub write_id_entry : MemBlock × MemBlock → Entry
write_id_entry (b, old) = record { id_0 = old.id; id_1 = b.id; id_2 = 0 }

pub unwrite_id_loop-write_id_loop :
    (h : Host) (prev : ℕ) (bs : List (MemBlock × MemBlock))
    → ArePaired prev bs
    → (bytes : List ℕ) × (write_id_loop h prev bs ≡ some bytes)
      × ((h' : Host) (num : ℤ) (size i : ℕ) (rest : List ℕ)
          → 24 * (i + length bs) ≤ size
          → unwrite_id_loop h' num size (length bs) i prev (bytes ++ rest)
            ≡ unpacked num (map write_id_entry bs) rest)
unfolding write_id_loop unwrite_id_loop
unwrite_id_loop-write_id_loop h prev [] a = ([], refl, λ h' num size i rest k. refl)
unwrite_id_loop-write_id_loop h prev ((b, old) ∷ bs) a =
    let (tail, w, ih) = unwrite_id_loop-write_id_loop h old.id bs a.3 in
    let (mid, v, r) =
      put_num-some h (sub64 b.id old.id) (write_id_loop h old.id bs) tail (sub64-lt _ _ a.1 a.2)
        w in
    let (bytes, u, q) =
      put_num-some h (sub64 old.id prev) _ mid (sub64-lt _ _ a.0 (omega arith)) v in
    (
      bytes,
      u,
      λ h' num size i rest k.
          let e : add64 prev (sub64 old.id prev) ≡ old.id =
            add64-sub64 old.id prev a.0 (omega arith) in
          let d : add64 (sub64 b.id old.id) old.id ≡ b.id = add64-sub64_left b.id old.id a.1 a.2 in
          rw (e, d) at
            (unwrite_id_loop_step h' num size (length bs) i prev (map write_id_entry bs)
              (bytes ++ rest) rest (tail ++ rest) (sub64 old.id prev) (sub64 b.id old.id)
              (get_two_lem h' _ _ _ _ _ (q h' rest) (r h' rest)) (omega arith)
              (rw e (ih h' num size (i + 1) rest (omega arith)))),
    )
