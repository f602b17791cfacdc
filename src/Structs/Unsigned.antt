-- ===== src/Structs/Unsigned.antt =====
-- `unsigned_int_copy` of moon_code/sync/src/shell/append.c on the bytes of one number.
use moon_in_water.Prelude.{
  ℕ, zero, suc, ◌/◌, ◌%◌, ◌≡◌, refl, ap, sym, ◌∙◌, arith, ltb, ◌==◌, if◌then◌else◌, List, [], ◌∷◌,
  ◌++◌, inl, inr, Bool-cases, length, take, drop,
}
use mathlib.Core.List.{reverse, reverse-append, reverse-reverse}
use moon_in_water.Wire.{Host, little_endian, big_endian, is_little, store, low_first, high_first}
use moon_in_water.Structs.Copy.{
  Flag, to_wire, to_host, copy_len, unsigned_low, unsigned_high, unsigned_one,
}

-- A number of at most n bytes.
abbrev pub Fits : ℕ → ℕ → Type 0
Fits zero v = v ≡ 0
Fits (suc n) v = Fits n (v / 256)

unfoldable pub zero_bytes : ℕ → List ℕ
zero_bytes zero = []
zero_bytes (suc n) = 0 ∷ zero_bytes n

pub length-low_first : (n v : ℕ) → length (low_first n v) ≡ n
unfolding low_first
length-low_first zero v = refl
length-low_first (suc n) v = ap suc (length-low_first n (v / 256))

pub length-zero_bytes : (n : ℕ) → length (zero_bytes n) ≡ n
unfolding zero_bytes
length-zero_bytes zero = refl
length-zero_bytes (suc n) = ap suc (length-zero_bytes n)

low_first_zero : (n : ℕ) → low_first n 0 ≡ zero_bytes n
unfolding low_first zero_bytes
low_first_zero zero = refl
low_first_zero (suc n) = ap (◌∷◌ 0) (low_first_zero n)

-- The bytes of a number in an element of another size.
take-low_first :
    (k n m v : ℕ)
    → Fits n v
    → Fits m v
    → k ≡ (if ltb n m then n else m)
    → take k (low_first n v) ++ drop k (zero_bytes m) ≡ low_first m v
unfolding low_first zero_bytes
take-low_first k zero m v a b e = let z : k ≡ 0 = ground arith in rw (z, a) (sym (low_first_zero m))
take-low_first k (suc n) zero v a b e = let z : k ≡ 0 = ground arith in rw z refl
take-low_first zero (suc n) (suc m) v a b e = absurd (ground arith)
take-low_first (suc k) (suc n) (suc m) v a b e =
    ap (◌∷◌ (v % 256)) (take-low_first k n m (v / 256) a b (ground arith))

pub unsigned_low-low_first :
    (n m v : ℕ) → Fits n v → Fits m v → unsigned_low (low_first n v) (zero_bytes m) ≡ low_first m v
unfolding unsigned_low copy_len
unsigned_low-low_first n m v a b =
    rw (length-low_first n v, length-zero_bytes m) (take-low_first _ n m v a b refl)

pub reverse-high_first : (n v : ℕ) → reverse (high_first n v) ≡ low_first n v
unfolding low_first high_first
reverse-high_first zero v = refl
reverse-high_first (suc n) v =
    reverse-append (high_first n (v / 256)) ((v % 256) ∷ [])
    ∙ ap (◌∷◌ (v % 256)) (reverse-high_first n (v / 256))

reverse-low_first : (n v : ℕ) → reverse (low_first n v) ≡ high_first n v
reverse-low_first n v = rw (sym (reverse-high_first n v)) (reverse-reverse (high_first n v))

zero_bytes_last : (n : ℕ) → zero_bytes n ++ (0 ∷ []) ≡ zero_bytes (suc n)
unfolding zero_bytes
zero_bytes_last zero = refl
zero_bytes_last (suc n) = ap (◌∷◌ 0) (zero_bytes_last n)

high_first_zero : (n : ℕ) → high_first n 0 ≡ zero_bytes n
unfolding high_first zero_bytes
high_first_zero zero = refl
high_first_zero (suc n) = ap (λ bs. bs ++ (0 ∷ [])) (high_first_zero n) ∙ zero_bytes_last n

reverse-zero_bytes : (n : ℕ) → reverse (zero_bytes n) ≡ zero_bytes n
reverse-zero_bytes n =
    ap reverse (sym (low_first_zero n)) ∙ reverse-low_first n 0 ∙ high_first_zero n

-- Elements of one size and of two, on a host of each order.
module _ (flag : Flag) (src dst : List ℕ) where
  unsigned_one_low :
      unsigned_one little_endian flag src dst
      ≡ (if length src == length dst then src else unsigned_low src dst)
  unfolding unsigned_one is_little
  unsigned_one_low = ground arith

  unsigned_one_high : unsigned_one big_endian flag src dst ≡ unsigned_high flag src dst
  unfolding unsigned_one is_little
  unsigned_one_high = ground arith

-- One element that a host sends, and one that it receives.
unsigned_one_sized :
    (flag : Flag) (n m v : ℕ)
    → Fits n v
    → Fits m v
    → unsigned_one little_endian flag (low_first n v) (zero_bytes m) ≡ low_first m v
unsigned_one_sized flag n m v a b =
    rw (unsigned_one_low flag (low_first n v) (zero_bytes m)) (elim (Bool-cases (n == m)) [
      | inl same ↦
          let e : n ≡ m = ground arith in
          rw (length-low_first n v, length-zero_bytes m, same) (ap (λ k. low_first k v) e)
      | inr other ↦
          rw (length-low_first n v, length-zero_bytes m, other) (unsigned_low-low_first n m v a b)
    ])

pub unsigned_one-store :
    (h : Host) (n m v : ℕ)
    → Fits n v
    → Fits m v
    → unsigned_one h to_wire (store h n v) (zero_bytes m) ≡ low_first m v
unfolding store unsigned_high
unsigned_one-store little_endian n m v a b = unsigned_one_sized to_wire n m v a b
unsigned_one-store big_endian n m v a b =
    unsigned_one_high to_wire (high_first n v) (zero_bytes m)
    ∙ rw (reverse-high_first n v) (unsigned_low-low_first n m v a b)

pub unsigned_one-low_first :
    (h : Host) (n m v : ℕ)
    → Fits n v
    → Fits m v
    → unsigned_one h to_host (low_first n v) (zero_bytes m) ≡ store h m v
unfolding store unsigned_high
unsigned_one-low_first little_endian n m v a b = unsigned_one_sized to_host n m v a b
unsigned_one-low_first big_endian n m v a b =
    unsigned_one_high to_host (low_first n v) (zero_bytes m)
    ∙ rw (reverse-zero_bytes m)
        (ap reverse (unsigned_low-low_first n m v a b) ∙ reverse-low_first m v)
