-- ===== src/Ring/Memory.antt =====
-- The bytes of a ring: `memcpy` from and to its buffer, and the bytes met going round it.
use moon_in_water.Prelude.{
  ℕ, zero, suc, ◌+◌, ◌%◌, ◌≤◌, ◌<◌, ◌≡◌, ◌≢◌, refl, ap, ◌∙◌, Option, none, some, List, [], ◌∷◌,
  ◌++◌, arith, mod-add-mod, mod-eq_of_lt, add-zero, length, set, take, drop, leb, if◌then◌else◌,
  length-set,
}

abbrev pub get_or : List ℕ → ℕ → ℕ → ℕ
get_or [] i d = d
get_or (x ∷ xs) zero d = x
get_or (x ∷ xs) (suc i) d = get_or xs i d

-- `n` bytes from index `i` on, all inside.
abbrev pub bytes_at : List ℕ → ℕ → ℕ → List ℕ
bytes_at buf i zero = []
bytes_at buf i (suc n) = get_or buf i 0 ∷ bytes_at buf (i + 1) n

abbrev pub put_bytes : List ℕ → ℕ → List ℕ → List ℕ
put_bytes buf i [] = buf
put_bytes buf i (x ∷ xs) = put_bytes (set buf i x) (i + 1) xs

-- `memcpy( out, buf + i, n )`: `none` is a read outside the buffer.
unfoldable pub copy_from : List ℕ → ℕ → ℕ → Option (List ℕ)
copy_from buf i n = if leb (i + n) (length buf) then some (bytes_at buf i n) else none

-- `memcpy( buf + i, xs, n )`: `none` is a write outside the buffer.
unfoldable pub copy_to : List ℕ → ℕ → List ℕ → Option (List ℕ)
copy_to buf i xs = if leb (i + length xs) (length buf) then some (put_bytes buf i xs) else none

-- The `n` bytes from index `h` on, going round at `size`.
abbrev pub window : List ℕ → ℕ → ℕ → ℕ → List ℕ
window buf size h zero = []
window buf size h (suc n) = get_or buf h 0 ∷ window buf size ((h + 1) % size) n

-- Bytes written one after the other, going round at `size`.
abbrev pub put_round : List ℕ → ℕ → ℕ → List ℕ → List ℕ
put_round buf size i [] = buf
put_round buf size i (x ∷ xs) = put_round (set buf i x) size ((i + 1) % size) xs

pub get_or-set_self : (xs : List ℕ) (i v d : ℕ) → i < length xs → get_or (set xs i v) i d ≡ v
get_or-set_self [] i v d h = absurd (omega arith)
get_or-set_self (x ∷ xs) zero v d h = refl
get_or-set_self (x ∷ xs) (suc i) v d h = get_or-set_self xs i v d (omega arith)

pub get_or-set_ne : (xs : List ℕ) (i j v d : ℕ) → i ≢ j → get_or (set xs i v) j d ≡ get_or xs j d
get_or-set_ne [] i j v d h = refl
get_or-set_ne (x ∷ xs) zero zero v d h = absurd (h refl)
get_or-set_ne (x ∷ xs) zero (suc j) v d h = refl
get_or-set_ne (x ∷ xs) (suc i) zero v d h = refl
get_or-set_ne (x ∷ xs) (suc i) (suc j) v d h = get_or-set_ne xs i j v d (λ e. h (ap suc e))

pub length-window : (buf : List ℕ) (size h n : ℕ) → length (window buf size h n) ≡ n
length-window buf size h zero = refl
length-window buf size h (suc n) = ap suc (length-window buf size ((h + 1) % size) n)

pub length-bytes_at : (buf : List ℕ) (i n : ℕ) → length (bytes_at buf i n) ≡ n
length-bytes_at buf i zero = refl
length-bytes_at buf i (suc n) = ap suc (length-bytes_at buf (i + 1) n)

pub length-put_bytes :
    (buf : List ℕ) (i : ℕ) (xs : List ℕ) → length (put_bytes buf i xs) ≡ length buf
length-put_bytes buf i [] = refl
length-put_bytes buf i (x ∷ xs) = length-put_bytes (set buf i x) (i + 1) xs ∙ length-set buf i x

pub length-put_round :
    (buf : List ℕ) (size i : ℕ) (xs : List ℕ) → length (put_round buf size i xs) ≡ length buf
length-put_round buf size i [] = refl
length-put_round buf size i (x ∷ xs) =
    length-put_round (set buf i x) size ((i + 1) % size) xs ∙ length-set buf i x

-- Up to the end of the buffer, going round is going straight on.
pub window-straight :
    (buf : List ℕ) (size i n : ℕ) → i + n ≤ size → window buf size i n ≡ bytes_at buf i n
window-straight buf size i zero h = refl
window-straight buf size i (suc zero) h = refl
window-straight buf size i (suc (suc n)) h = ap (◌∷◌ (get_or buf i 0)) (
    rw (mod-eq_of_lt {n = i + 1} {m = size} (omega arith))
      (window-straight buf size (i + 1) (suc n) (omega arith)))

pub put_round-straight :
    (buf : List ℕ) (size i : ℕ) (xs : List ℕ)
    → i + length xs ≤ size
    → put_round buf size i xs ≡ put_bytes buf i xs
put_round-straight buf size i [] h = refl
put_round-straight buf size i (x ∷ []) h = refl
put_round-straight buf size i (x ∷ y ∷ xs) h =
    rw (mod-eq_of_lt {n = i + 1} {m = size} (omega arith))
      (put_round-straight (set buf i x) size (i + 1) (y ∷ xs) (omega arith))

pub mod-shift : (h m size : ℕ) → ((h + 1) % size + m) % size ≡ (h + suc m) % size
mod-shift h m size = rw mod-add-mod (ap (λ k. k % size) (omega arith))

pub window-append :
    (buf : List ℕ) (size h m n : ℕ)
    → h < size
    → window buf size h (m + n) ≡ window buf size h m ++ window buf size ((h + m) % size) n
window-append buf size h zero n p =
    let e : 0 + n ≡ n = omega arith in
    let s : (h + 0) % size ≡ h = rw add-zero (mod-eq_of_lt p) in rw (e, s)
window-append buf size h (suc m) n p =
    let e : suc m + n ≡ suc (m + n) = omega arith in
    rw e (
      ap (◌∷◌ (get_or buf h 0)) (
        window-append buf size ((h + 1) % size) m n (omega arith)
        ∙ ap (λ k. window buf size ((h + 1) % size) m ++ window buf size k n) (mod-shift h m size)))

pub drop-window :
    (buf : List ℕ) (size h k n : ℕ)
    → h < size
    → drop k (window buf size h (k + n)) ≡ window buf size ((h + k) % size) n
drop-window buf size h zero n p =
    let e : 0 + n ≡ n = omega arith in
    let s : (h + 0) % size ≡ h = rw add-zero (mod-eq_of_lt p) in rw (e, s)
drop-window buf size h (suc k) n p =
    let e : suc k + n ≡ suc (k + n) = omega arith in
    rw e (
      drop-window buf size ((h + 1) % size) k n (omega arith)
      ∙ ap (λ j. window buf size j n) (mod-shift h k size))

pub take-window :
    (buf : List ℕ) (size h k n : ℕ) → take k (window buf size h (k + n)) ≡ window buf size h k
take-window buf size h zero n = refl
take-window buf size h (suc k) n =
    let e : suc k + n ≡ suc (k + n) = omega arith in
    rw e (ap (◌∷◌ (get_or buf h 0)) (take-window buf size ((h + 1) % size) k n))
