-- ===== src/Structs/Copy.antt =====
-- The copies of numbers between two hosts: `unsigned_int_copy`, `signed_int_copy` and `float_copy` of
-- moon_code/sync/src/shell/append.c. An array is the list of its elements, and these are lists of bytes.
use moon_in_water.Prelude.{
  ℕ, zero, suc, ◌-◌, ltb, leb, ◌==◌, ◌&&◌, if◌then◌else◌, List, [], ◌∷◌, ◌++◌, Option, none, some,
  length, take, drop,
}
use mathlib.Core.List.{reverse}
use moon_in_water.Wire.{Host, is_little}

-- `flag` of a copy: 0 from the host to the wire, 1 from the wire to the host.
pub data Flag : Type 0 where
  to_wire to_host : Flag

unfoldable pub copy_len : List ℕ → List ℕ → ℕ
copy_len src dst = if ltb (length src) (length dst) then length src else length dst

-- One element, where the host keeps the lowest byte first, where it does not and sends, and where it does not
-- and receives: `pc_src` or `pc_dst` then starts at the last byte and goes down.
unfoldable pub unsigned_low : List ℕ → List ℕ → List ℕ
unfolding copy_len
unsigned_low src dst = take (copy_len src dst) src ++ drop (copy_len src dst) dst

unfoldable pub unsigned_high : Flag → List ℕ → List ℕ → List ℕ
unfolding unsigned_low
unsigned_high to_wire src dst = unsigned_low (reverse src) dst
unsigned_high to_host src dst = reverse (unsigned_low src (reverse dst))

-- Elements of the same size on a host with the lowest byte first are copied whole.
unfoldable pub unsigned_one : Host → Flag → List ℕ → List ℕ → List ℕ
unfolding unsigned_low unsigned_high
unsigned_one h flag src dst =
    if length src == length dst && is_little h
    then src
    else (if is_little h then unsigned_low src dst else unsigned_high flag src dst)

unfoldable pub copy_all : (List ℕ → List ℕ → List ℕ) → List (List ℕ) → List (List ℕ) → List (List ℕ)
copy_all one [] dsts = dsts
copy_all one (src ∷ srcs) [] = []
copy_all one (src ∷ srcs) (dst ∷ dsts) = one src dst ∷ copy_all one srcs dsts

unfoldable pub unsigned_int_copy : Host → Flag → List (List ℕ) → List (List ℕ) → List (List ℕ)
unfolding unsigned_one copy_all
unsigned_int_copy h flag = copy_all (unsigned_one h flag)

unfoldable pub full_bytes : ℕ → List ℕ
full_bytes zero = []
full_bytes (suc n) = 0xff ∷ full_bytes n

-- The bytes from `copy_len` on become 0xff where `sign_byte` has its top bit, `sign_byte & 0x80`.
unfoldable pub sign_extend : ℕ → ℕ → List ℕ → List ℕ
unfolding full_bytes
sign_extend sign_byte len dst =
    if ltb len (length dst) && leb 0x80 sign_byte
    then take len dst ++ full_bytes (length dst - len)
    else dst

unfoldable pub byte_at : List ℕ → ℕ → ℕ
byte_at [] i = 0
byte_at (b ∷ bs) zero = b
byte_at (b ∷ bs) (suc i) = byte_at bs i

unfoldable pub signed_low : List ℕ → List ℕ → List ℕ
unfolding unsigned_low sign_extend byte_at
signed_low src dst =
    sign_extend (byte_at src (copy_len src dst - 1)) (copy_len src dst) (unsigned_low src dst)

-- Where the host sends, the code tests `pc_src[ 0 ]`, and `pc_src` is at the last byte.
unfoldable pub signed_high : Flag → List ℕ → List ℕ → List ℕ
unfolding signed_low
signed_high to_wire src dst =
    sign_extend (byte_at (reverse src) 0) (copy_len src dst) (unsigned_low (reverse src) dst)
signed_high to_host src dst = reverse (signed_low src (reverse dst))

unfoldable pub signed_one : Host → Flag → List ℕ → List ℕ → List ℕ
unfolding signed_low signed_high
signed_one h flag src dst =
    if length src == length dst && is_little h
    then src
    else (if is_little h then signed_low src dst else signed_high flag src dst)

unfoldable pub signed_int_copy : Host → Flag → List (List ℕ) → List (List ℕ) → List (List ℕ)
unfolding signed_one copy_all
signed_int_copy h flag = copy_all (signed_one h flag)

-- `float_copy` refuses elements of different sizes.
unfoldable pub float_one : Host → Flag → List ℕ → List ℕ → List ℕ
float_one h to_wire src dst = if is_little h then src else reverse src
float_one h to_host src dst = if is_little h then src else reverse src

unfoldable pub float_copy :
    Host → Flag → ℕ → ℕ → List (List ℕ) → List (List ℕ) → Option (List (List ℕ))
unfolding float_one copy_all
float_copy h flag src_size dst_size srcs dsts =
    if src_size == dst_size then some (copy_all (float_one h flag) srcs dsts) else none
