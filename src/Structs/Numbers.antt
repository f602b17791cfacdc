-- ===== src/Structs/Numbers.antt =====
-- Arrays of numbers under `unsigned_int_copy`, and a number under `signed_int_copy`, of
-- moon_code/sync/src/shell/append.c.
use moon_in_water.Prelude.{
  ℕ, zero, suc, ◌-◌, ◌/◌, ◌%◌, ◌<◌, ◌≤◌, ◌≡◌, refl, ap, ap₂, ◌∙◌, arith, leb, if◌then◌else◌, List,
  [], ◌∷◌, ◌++◌, length, length-append, take, map, lt→ltb,
}
use mathlib.Core.List.{reverse}
use moon_in_water.Wire.{Host, big_endian, is_little, store, low_first, high_first}
use moon_in_water.Structs.Copy.{
  to_wire, to_host, copy_len, copy_all, unsigned_int_copy, unsigned_low, sign_extend, byte_at,
  signed_high, signed_one, full_bytes,
}
use moon_in_water.Structs.Unsigned.{
  Fits, zero_bytes, length-low_first, length-zero_bytes, unsigned_low-low_first, reverse-high_first,
  unsigned_one-store, unsigned_one-low_first,
}

-- Numbers of at most n bytes each.
abbrev pub AllFit : ℕ → List ℕ → Type 0
AllFit n [] = Unit {0}
AllFit n (v ∷ vs) = Fits n v × AllFit n vs

-- As many elements of zeros.
unfoldable pub zeros_for : ℕ → List ℕ → List (List ℕ)
unfolding zero_bytes
zeros_for m vs = map (λ v. zero_bytes m) vs

sent_array :
    (h : Host) (n m : ℕ) (vs : List ℕ)
    → AllFit n vs
    → AllFit m vs
    → unsigned_int_copy h to_wire (map (store h n) vs) (zeros_for m vs) ≡ map (low_first m) vs
unfolding unsigned_int_copy copy_all zeros_for
sent_array h n m [] a b = refl
sent_array h n m (v ∷ vs) a b =
    ap₂ (λ x xs. x ∷ xs) (unsigned_one-store h n m v a.0 b.0) (sent_array h n m vs a.1 b.1)

received_array :
    (h : Host) (n m : ℕ) (vs : List ℕ)
    → AllFit n vs
    → AllFit m vs
    → unsigned_int_copy h to_host (map (low_first n) vs) (zeros_for m vs) ≡ map (store h m) vs
unfolding unsigned_int_copy copy_all zeros_for
received_array h n m [] a b = refl
received_array h n m (v ∷ vs) a b =
    ap₂ (λ x xs. x ∷ xs) (unsigned_one-low_first h n m v a.0 b.0) (received_array h n m vs a.1 b.1)

-- An array of unsigned numbers of n bytes, sent as elements of m bytes to a host that keeps k bytes, is there the
-- array of the same numbers, if each of them fits n, m and k bytes and both targets have been cleared. The two
-- hosts may be of either order.
pub unsigned_int_copy-twice :
    (h h' : Host) (n m k : ℕ) (vs : List ℕ)
    → AllFit n vs
    → AllFit m vs
    → AllFit k vs
    → unsigned_int_copy h' to_host
        (unsigned_int_copy h to_wire (map (store h n) vs) (zeros_for m vs))
        (zeros_for k vs)
      ≡ map (store h' k) vs
unsigned_int_copy-twice h h' n m k vs a b c =
    ap (λ xs. unsigned_int_copy h' to_host xs (zeros_for k vs)) (sent_array h n m vs a b)
    ∙ received_array h' m k vs b c

length-high_first : (n v : ℕ) → length (high_first n v) ≡ n
unfolding high_first
length-high_first zero v = refl
length-high_first (suc n) v =
    omega (
      arith,
      length-append (high_first n (v / 256)) ((v % 256) ∷ []),
      length-high_first n (v / 256),
    )

take-low_first_lt : (n m v : ℕ) → n ≤ m → take n (low_first m v) ≡ low_first n v
unfolding low_first
take-low_first_lt zero m v h = refl
take-low_first_lt (suc n) zero v h = absurd (omega arith)
take-low_first_lt (suc n) (suc m) v h =
    ap (◌∷◌ (v % 256)) (take-low_first_lt n m (v / 256) (omega arith))

Fits-lt : (n m v : ℕ) → n ≤ m → Fits n v → Fits m v
Fits-lt zero zero v h a = a
Fits-lt zero (suc m) v h a = Fits-lt zero m (v / 256) (omega arith) (omega arith)
Fits-lt (suc n) zero v h a = absurd (omega arith)
Fits-lt (suc n) (suc m) v h a = Fits-lt n m (v / 256) (omega arith) a

signed_one_high :
    (src dst : List ℕ)
    → signed_one big_endian to_wire src dst
      ≡ sign_extend (byte_at (reverse src) 0) (copy_len src dst) (unsigned_low (reverse src) dst)
unfolding signed_one signed_high is_little
signed_one_high src dst = ground arith

store_big : (n v : ℕ) → store big_endian n v ≡ high_first n v
unfolding store
store_big n v = refl

sign_extend_longer :
    (b len : ℕ) (dst : List ℕ)
    → len < length dst
    → sign_extend b len dst
      ≡ (if leb 0x80 b then take len dst ++ full_bytes (length dst - len) else dst)
unfolding sign_extend
sign_extend_longer b len dst h = rw (lt→ltb len (length dst) h) (ground arith)

copy_len_lem : (src dst : List ℕ) (n : ℕ) → length src ≡ n → n < length dst → copy_len src dst ≡ n
unfolding copy_len
copy_len_lem src dst n e h = ground arith

lowest_byte : (n v : ℕ) → byte_at (low_first (suc n) v) 0 ≡ v % 256
unfolding byte_at low_first
lowest_byte n v = refl

-- A host with the highest byte first that sends a number as a longer element fills it up by the top bit of the
-- lowest byte of the number, not by that of the highest: a positive number with that bit comes out negative,
-- and a negative one without it positive.
pub signed_one-store :
    (n m v : ℕ)
    → suc n < m
    → Fits (suc n) v
    → signed_one big_endian to_wire (store big_endian (suc n) v) (zero_bytes m) ≡ (
        if leb 0x80 (v % 256) then low_first (suc n) v ++ full_bytes (m - suc n) else low_first m v)
signed_one-store n m v h a =
    let longer : suc n < length (low_first m v) = rw (length-low_first m v) h in
    let len : copy_len (high_first (suc n) v) (zero_bytes m) ≡ suc n =
      copy_len_lem (high_first (suc n) v) (zero_bytes m) (suc n) (length-high_first (suc n) v)
        (omega (arith, length-zero_bytes m)) in
    rw (store_big (suc n) v) (
      signed_one_high (high_first (suc n) v) (zero_bytes m)
      ∙ rw (reverse-high_first (suc n) v, len)
          (rw (lowest_byte n v) (
            rw (unsigned_low-low_first (suc n) m v a (Fits-lt (suc n) m v (omega arith) a)) (
              sign_extend_longer (v % 256) (suc n) (low_first m v) longer
              ∙ rw (take-low_first_lt (suc n) m v (omega arith), length-low_first m v) refl))))
