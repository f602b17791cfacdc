-- ===== src/Ring/New.antt =====
-- A ring as `ring_new` of moon_code/ring_buffer/src/ring_buffer.c leaves it.
use moon_in_water.Prelude.{
  ℕ, suc, ◌+◌, ◌^◌, ◌<◌, ◌≡◌, refl, inl, inr, Bool-cases, sym, ap, subst, ◌∙◌, some, [], arith,
  length, Bool, pos, add32_small, ◌&&◌, add32, zero,
}
use moon_in_water.Ring.{Ring, ring_new, zeros}
use moon_in_water.Ring.Memory.{window}
use moon_in_water.Ring.Valid.{IsValid, count, contents, room, count_forward}

pub some_eq {ℓ} : {A : Type ℓ} {a b : A} → some a ≡ some b → a ≡ b
some_eq e = cc

length-zeros : (n : ℕ) → length (zeros n) ≡ n
length-zeros zero = refl
length-zeros (suc n) = ap suc (length-zeros n)

-- What `ring_new` promises of a ring for `len` bytes.
abbrev pub IsNewFor : ℕ → Ring → Type 0
IsNewFor len r =
    IsValid r × (contents r ≡ []) × (room r ≡ len) × (r.ref_num ≡ pos 1) × (r.is_destroy ≡ 0)

abbrev fresh : ℕ → ℕ → Ring
fresh len flags = record {
  ref_num = pos 1;
  is_destroy = 0;
  cur = 0;
  «end» = 0;
  size = add32 len 1;
  flags = flags;
  buffer = zeros (len + 1);
}

fresh-IsNewFor : (len flags : ℕ) → 0 < len → len + 1 < 2 ^ 31 → IsNewFor len (fresh len flags)
fresh-IsNewFor len flags h k =
    let size : add32 len 1 ≡ len + 1 = add32_small len 1 (omega arith) in
    let none_yet : count (fresh len flags) ≡ 0 =
      count_forward (add32 len 1) 0 0 (omega arith) (omega (arith, size)) in
    let empty = ap (window (zeros (len + 1)) (add32 len 1) 0) none_yet in
    (
      record {
        pos_size = omega (arith, size);
        small = omega (arith, size);
        cur_in = omega (arith, size);
        end_in = omega (arith, size);
        storage = length-zeros (len + 1) ∙ sym size;
      },
      empty,
      omega (arith, size, none_yet),
      refl,
      refl,
    )

-- A ring of at least one byte of room and less than 2 GB that `ring_new` gives is well formed, open
-- and empty, has one reference, and holds as many bytes as were asked for.
pub ring_new-IsValid :
    (len flags : ℕ) (a b c d : Bool) {r : Ring}
    → 0 < len
    → len + 1 < 2 ^ 31
    → ring_new len flags a b c d ≡ some r
    → IsNewFor len r
unfolding ring_new
ring_new-IsValid len flags a b c d {r} h k e = elim (Bool-cases (a && b && c && d)) [
  | inr failed ↦ absurd (ground arith)
  | inl made ↦ subst (IsNewFor len) (some_eq (rw made at e)) (fresh-IsNewFor len flags h k)
]
