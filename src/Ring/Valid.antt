-- ===== src/Ring/Valid.antt =====
-- The representation invariant of a ring, and what its index arithmetic comes to when it holds.
use moon_in_water.Prelude.{
  ℕ, ◌+◌, ◌-◌, ◌%◌, ◌^◌, ◌≤◌, ◌<◌, ◌≡◌, arith, List, length, pos, sub_ℕ, to_int, add32, sub32,
  dec_le, mod-eq_of_lt, mod-eq-sub-mod,
}
use moon_in_water.Ring.{Ring}
use moon_in_water.Ring.Memory.{window, length-window}
use moon_in_water.Ring.Read.{cur_can_read}
use moon_in_water.Ring.Write.{cur_can_write}

pub record IsValid (r : Ring) : Type 0 where
  pub pos_size : 1 < r.size
  pub small : r.size < 2 ^ 31
  pub cur_in : r.cur < r.size
  pub end_in : r.«end» < r.size
  pub storage : length r.buffer ≡ r.size

-- The number of unread bytes.
abbrev pub count : Ring → ℕ
count r = (r.size - r.cur + r.«end») % r.size

-- The unread bytes, oldest first.
abbrev pub contents : Ring → List ℕ
contents r = window r.buffer r.size r.cur (count r)

pub length-contents : (r : Ring) → length (contents r) ≡ count r
length-contents r = length-window r.buffer r.size r.cur (count r)

-- The unread bytes and the free bytes make up one less than the size.
abbrev pub room : Ring → ℕ
room r = r.size - 1 - count r

-- The two ways that the indices can lie.
pub count_forward : (size cur e : ℕ) → cur ≤ e → e < size → (size - cur + e) % size ≡ e - cur
count_forward size cur e h k = omega (
  arith,
  mod-eq-sub-mod {n = size - cur + e} {m = size} (omega arith),
  mod-eq_of_lt {n = size - cur + e - size} {m = size} (omega arith),
)

pub count_wrapped :
    (size cur e : ℕ) → e < cur → cur < size → (size - cur + e) % size ≡ size - cur + e
count_wrapped size cur e h k = mod-eq_of_lt (omega arith)

pub count-lt : {r : Ring} → IsValid r → count r < r.size
count-lt v = omega arith

-- Where the unread bytes end.
pub end-eq : {r : Ring} → IsValid r → (r.cur + count r) % r.size ≡ r.«end»
end-eq {r} v = elim (dec_le r.cur r.«end») [
  | yes p ↦
      rw (count_forward r.size r.cur r.«end» p v.end_in)
        (omega (arith, mod-eq_of_lt {n = r.cur + (r.«end» - r.cur)} {m = r.size} (omega arith)))
  | no p ↦ rw (count_wrapped r.size r.cur r.«end» (omega arith) v.cur_in) (
      omega (
        arith,
        mod-eq-sub-mod {n = r.cur + (r.size - r.cur + r.«end»)} {m = r.size} (omega arith),
        mod-eq_of_lt {n = r.cur + (r.size - r.cur + r.«end») - r.size} {m = r.size} (omega arith),
      ))
]

-- `cur_can_read` is the number of unread bytes past the skipped ones, negative if there are fewer.
pub cur_can_read_lem :
    {r : Ring} (skip : ℕ) → IsValid r → skip < r.size → cur_can_read r skip ≡ sub_ℕ (count r) skip
unfolding cur_can_read to_int sub32 add32
cur_can_read_lem {r} skip v h =
    let bytes : add32 (sub32 r.size r.cur) r.«end» ≡ r.size - r.cur + r.«end» = omega arith in
    rw bytes (ground (arith, count-lt v))

free_bytes : {r : Ring} → IsValid r → (r.size - r.«end» + r.cur - 1) % r.size ≡ room r
free_bytes {r} v = elim (dec_le r.cur r.«end») [
  | yes p ↦ omega (
    arith,
    count_forward r.size r.cur r.«end» p v.end_in,
    mod-eq_of_lt {n = r.size - r.«end» + r.cur - 1} {m = r.size} (omega arith),
  )
  | no p ↦ omega (
    arith,
    count_wrapped r.size r.cur r.«end» (omega arith) v.cur_in,
    mod-eq-sub-mod {n = r.size - r.«end» + r.cur - 1} {m = r.size} (omega arith),
    mod-eq_of_lt {n = r.size - r.«end» + r.cur - 1 - r.size} {m = r.size} (omega arith),
  )
]

-- `cur_can_write` is the room that is left.
pub cur_can_write_lem : {r : Ring} → IsValid r → cur_can_write r ≡ pos (room r)
unfolding cur_can_write to_int sub32 add32
cur_can_write_lem {r} v =
    let bytes : sub32 (add32 (sub32 r.size r.«end») r.cur) 1 ≡ r.size - r.«end» + r.cur - 1 =
      omega arith in
    rw bytes (ground (arith, free_bytes v))
