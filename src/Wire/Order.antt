-- ===== src/Wire/Order.antt =====
-- What the conversions of moon_code/common/src/moon_common.h leave in memory, and read from it.
use moon_in_water.Prelude.{
  ℕ, ◌+◌, ◌*◌, ◌/◌, ◌%◌, ◌^◌, ◌<◌, ◌++◌, ◌≡◌, refl, ap, ap₂, sym, subst, ◌∙◌, arith,
}
use moon_in_water.Wire.{
  Host, is_little, little_endian, big_endian, low_first, high_first, store, load, convert_num,
  convert_uint16, convert_uint32, convert_uint64,
}

pub store-convert_uint16 :
    (h : Host) (v : ℕ) → v < 2 ^ 16 → store h 2 (convert_uint16 h v) ≡ low_first 2 v
unfolding store convert_uint16
store-convert_uint16 little_endian v k = refl
store-convert_uint16 big_endian v k = ground arith

pub store-convert_uint32 :
    (h : Host) (v : ℕ) → v < 2 ^ 32 → store h 4 (convert_uint32 h v) ≡ low_first 4 v
unfolding store convert_uint32
store-convert_uint32 little_endian v k = refl
store-convert_uint32 big_endian v k = ground arith

-- The 64-bit conversion as two of 32 bits, with the words exchanged.
abbrev swap32 : ℕ → ℕ
swap32 v = convert_num 32 1 (convert_num 16 2 v)

convert_num-lt : (v : ℕ) → v < 2 ^ 32 → convert_num 16 2 v < 2 ^ 32
unfolding convert_num
convert_num-lt v k = omega arith

swap32-lt : (v : ℕ) → v < 2 ^ 32 → swap32 v < 2 ^ 32
unfolding convert_num
swap32-lt v k = omega arith

four_words :
    (a b : ℕ)
    → a < 2 ^ 32
    → convert_num 16 4 (a + 2 ^ 32 * b) ≡ convert_num 16 2 a + 2 ^ 32 * convert_num 16 2 b
unfolding convert_num
four_words a b k = omega arith

two_words :
    (a b : ℕ)
    → a < 2 ^ 32
    → convert_num 32 2 (a + 2 ^ 32 * b) ≡ convert_num 32 1 a + 2 ^ 32 * convert_num 32 1 b
unfolding convert_num
two_words a b k = omega arith

one_word : (a b : ℕ) → a < 2 ^ 32 → b < 2 ^ 32 → convert_num 64 1 (a + 2 ^ 32 * b) ≡ b + 2 ^ 32 * a
unfolding convert_num
one_word a b k l = omega arith

high_first-words :
    (a b : ℕ) → a < 2 ^ 32 → high_first 8 (a + 2 ^ 32 * b) ≡ high_first 4 b ++ high_first 4 a
unfolding high_first
high_first-words a b k = ground arith

low_first-words :
    (a b : ℕ) → a < 2 ^ 32 → low_first 8 (a + 2 ^ 32 * b) ≡ low_first 4 a ++ low_first 4 b
unfolding low_first
low_first-words a b k = ground arith

swap64-words :
    (a b : ℕ)
    → a < 2 ^ 32
    → b < 2 ^ 32
    → convert_num 64 1 (convert_num 32 2 (convert_num 16 4 (a + 2 ^ 32 * b)))
      ≡ swap32 b + 2 ^ 32 * swap32 a
swap64-words a b k l =
    ap (λ x. convert_num 64 1 (convert_num 32 2 x)) (four_words a b k)
    ∙ ap (convert_num 64 1) (two_words _ _ (convert_num-lt a k))
    ∙ one_word _ _ (swap32-lt a k) (swap32-lt b l)

high_first-swap32 : (v : ℕ) → v < 2 ^ 32 → high_first 4 (swap32 v) ≡ low_first 4 v
unfolding high_first low_first convert_num
high_first-swap32 v k = ground arith

high_first-swap64 :
    (a b : ℕ)
    → a < 2 ^ 32
    → b < 2 ^ 32
    → high_first 8 (convert_num 64 1 (convert_num 32 2 (convert_num 16 4 (a + 2 ^ 32 * b))))
      ≡ low_first 8 (a + 2 ^ 32 * b)
high_first-swap64 a b k l =
    ap (high_first 8) (swap64-words a b k l)
    ∙ high_first-words _ _ (swap32-lt b l)
    ∙ ap₂ ◌++◌ (high_first-swap32 a k) (high_first-swap32 b l)
    ∙ sym (low_first-words a b k)

pub store-convert_uint64 :
    (h : Host) (v : ℕ) → v < 2 ^ 64 → store h 8 (convert_uint64 h v) ≡ low_first 8 v
unfolding store convert_uint64 is_little
store-convert_uint64 little_endian v k = refl
store-convert_uint64 big_endian v k =
    let e : v ≡ v % 2 ^ 32 + 2 ^ 32 * (v / 2 ^ 32) = omega arith in
    subst
      (λ x. high_first 8 (convert_num 64 1 (convert_num 32 2 (convert_num 16 4 x))) ≡ low_first 8 x)
      (sym e) (high_first-swap64 (v % 2 ^ 32) (v / 2 ^ 32) (omega arith) (omega arith))

-- The bytes that a number's conversion leaves in memory are its bytes, the lowest first, on every host.
pub wire_bytes :
    (h : Host)
    → ((v : ℕ) → v < 2 ^ 16 → store h 2 (convert_uint16 h v) ≡ low_first 2 v)
      × ((v : ℕ) → v < 2 ^ 32 → store h 4 (convert_uint32 h v) ≡ low_first 4 v)
      × ((v : ℕ) → v < 2 ^ 64 → store h 8 (convert_uint64 h v) ≡ low_first 8 v)
wire_bytes h = (store-convert_uint16 h, store-convert_uint32 h, store-convert_uint64 h)

-- A host of either order reads back the number whose bytes are on the wire.
pub convert_uint16-load :
    (h : Host) (v : ℕ) → v < 2 ^ 16 → convert_uint16 h (load h (low_first 2 v)) ≡ v
unfolding load low_first convert_uint16
convert_uint16-load little_endian v k = omega arith
convert_uint16-load big_endian v k = omega arith

pub convert_uint32-load :
    (h : Host) (v : ℕ) → v < 2 ^ 32 → convert_uint32 h (load h (low_first 4 v)) ≡ v
unfolding load low_first convert_uint32
convert_uint32-load little_endian v k = omega arith
convert_uint32-load big_endian v k = omega arith
