-- ===== src/Structs/Target.antt =====
-- `get_target_offset` of moon_code/sync/src/shell/append.c.
use moon_in_water.Prelude.{
  ℕ, zero, suc, ◌*◌, ◌/◌, ◌%◌, ◌^◌, ◌<◌, ◌≡◌, refl, ap, arith, ltb, ◌==◌, ◌&&◌, if◌then◌else◌, List,
  [], ◌∷◌, some, length, get_elem?, pos, negsuc, to_int, lt→ltb,
}
use native.Mathlib.Nat.{mul-div_cancel, mul-mod_left}
use moon_in_water.Structs.{StructOne, Var, target_round, target_at, get_target_offset}

-- The offset is inside the block.
target_round_lem :
    (src dst : StructOne) (o num : ℕ)
    → src.size * num < 2 ^ 31
    → o < src.size * num
    → target_round src dst o num ≡ (
        if length src.vars == 0 && o % src.size == 0
        then to_int (o / src.size * dst.size % 2 ^ 32)
        else negsuc 0)
unfolding target_round to_int
target_round_lem src dst o num k l =
    let e : src.size * num % 2 ^ 32 ≡ src.size * num = omega arith in rw e (ground arith)

target_round_basic :
    (src dst : StructOne) (k num : ℕ)
    → src.vars ≡ []
    → 0 < src.size
    → k < num
    → src.size * num < 2 ^ 31
    → dst.size * num < 2 ^ 31
    → target_round src dst (k * src.size) num ≡ pos (k * dst.size)
unfolding to_int
target_round_basic src dst k num e p l a b =
    let m : k * src.size < src.size * num = grind arith in
    let n : k * dst.size < 2 ^ 31 = grind arith in
    let d : k * src.size / src.size ≡ k = mul-div_cancel k p in
    let r : k * src.size % src.size ≡ 0 = mul-mod_left k src.size in
    let w : k * dst.size % 2 ^ 32 ≡ k * dst.size = omega arith in
    rw (target_round_lem src dst (k * src.size) num a m) (rw (e, r, d, w) (ground arith))

basic_target :
    (src dst : StructOne) (k num : ℕ)
    → src.vars ≡ []
    → 0 < src.size
    → k < num
    → src.size * num < 2 ^ 31
    → dst.size * num < 2 ^ 31
    → (if ltb 0 (k * src.size) then target_round src dst (k * src.size) num else pos 0)
      ≡ pos (k * dst.size)
basic_target src dst zero num e p l a b =
    let z : 0 * src.size ≡ 0 = omega arith in
    let y : 0 * dst.size ≡ 0 = omega arith in rw (z, y) refl
basic_target src dst (suc k) num e p l a b =
    let m : 0 < suc k * src.size = grind arith in
    rw (lt→ltb 0 _ m) (target_round_basic src dst (suc k) num e p l a b)

module _ (src_all dst_all : List StructOne) (t num : ℕ) (src dst : StructOne)
    (in_src : get_elem? src_all t ≡ some src) (in_dst : get_elem? dst_all t ≡ some dst)
    (here : t < length src_all) where
  target_at_lem :
      (o : ℕ)
      → get_target_offset src_all dst_all (pos o) (pos t) (pos num)
        ≡ some (if ltb 0 o then target_round src dst o num else pos 0)
  unfolding get_target_offset target_at
  target_at_lem o = rw (in_src, in_dst, get_target_offset) (ground arith)

  -- A pointer into an array of a basic type keeps its element: its offset is turned into that of the same
  -- element on the other side. A pointer into a block of a type with fields, other than to its start, is refused,
  -- whatever field it points to. The sizes of the block on both sides fit an int.
  pub get_target_offset_lem :
      src.size * num < 2 ^ 31
      → dst.size * num < 2 ^ 31
      → ((k : ℕ)
          → src.vars ≡ []
          → 0 < src.size
          → k < num
          → get_target_offset src_all dst_all (pos (k * src.size)) (pos t) (pos num)
            ≡ some (pos (k * dst.size)))
        × ((o : ℕ) (v : Var) (vs : List Var)
            → src.vars ≡ v ∷ vs
            → 0 < o
            → o < src.size * num
            → get_target_offset src_all dst_all (pos o) (pos t) (pos num) ≡ some (negsuc 0))
  get_target_offset_lem a b = (
    λ k e p l. rw (target_at_lem (k * src.size)) (ap some (basic_target src dst k num e p l a b)),
    λ o v vs e l m.
        rw (target_at_lem o) (rw (target_round_lem src dst o num a m) (rw e (ground arith))),
  )
