-- ===== src/Ring/Accept.antt =====
-- What one round of `ring_write` stores, what it pushes out, and when it runs over the buffer.
use moon_in_water.Prelude.{
  ℕ, ◌+◌, ◌-◌, ◌%◌, ◌^◌, ◌≤◌, ◌<◌, ◌≡◌, ◌≢◌, sym, ap, ◌∙◌, List, ◌++◌, arith, dec_lt, mod-add-mod,
  mod-eq_of_lt, mod-eq-sub-mod, add-zero, length, drop, ltb, if◌then◌else◌, min, pos, ltb_ℤ,
  pos_part, to_int, sub32, add32,
}
use moon_in_water.Ring.{Ring, has, ring_replace_old, ring_msgmode}
use moon_in_water.Ring.Memory.{window, put_round, length-put_round}
use moon_in_water.Ring.Write.{WriteCall, skip_input, cur_need_write, really_write, advance_end}
use moon_in_water.Ring.Valid.{IsValid, count, contents, room, count-lt, cur_can_write_lem, end-eq}
use moon_in_water.Ring.Store.{excess, window-put_round}
use moon_in_water.Ring.Deliver.{share}

-- A call on an open ring that has `already` bytes behind it.
pub record IsWriting (r : Ring) (c : WriteCall) (already : ℕ) : Type 0 where
  pub valid : IsValid r
  pub open_ring : r.is_destroy ≢ 1
  pub short : length c.input < 2 ^ 31
  pub within : already ≤ length c.input

-- The bytes that a round stores and those that it passes over.
abbrev pub write_want : WriteCall → ℕ → ℕ
write_want c already = length c.input - already

abbrev pub passed : Ring → WriteCall → ℕ → ℕ
passed r c already = if has c.flags ring_replace_old then write_want c already - (r.size - 1) else 0

abbrev pub write_size : Ring → WriteCall → ℕ → ℕ
write_size r c already =
    if has c.flags ring_replace_old
    then min (write_want c already) (r.size - 1)
    else share (has c.flags ring_msgmode) (write_want c already) (room r)

pub skip_input_lem :
    {r : Ring} {c : WriteCall} {already : ℕ}
    → IsWriting r c already
    → skip_input r c already ≡ already + passed r c already
unfolding skip_input sub32 add32
skip_input_lem {r} {c} {already} v =
    let need : sub32 (length c.input) already ≡ length c.input - already = omega arith in
    rw need (ground arith)

pub cur_need_write_lem :
    {r : Ring} {c : WriteCall} {already : ℕ}
    → IsWriting r c already
    → cur_need_write r c already
      ≡ pos (
          if has c.flags ring_replace_old
          then min (write_want c already) (r.size - 1)
          else write_want c already)
unfolding cur_need_write sub32 to_int
cur_need_write_lem {r} {c} {already} v =
    let need : sub32 (length c.input) already ≡ length c.input - already = omega arith in
    rw need (ground arith)

pub really_write_lem :
    {r : Ring} {c : WriteCall} {already : ℕ}
    → IsWriting r c already
    → (pos_part (really_write r c already) ≡ write_size r c already)
      × (ltb_ℤ (pos 0) (really_write r c already) ≡ ltb 0 (write_size r c already))
unfolding really_write
really_write_lem {r} {c} {already} v =
    rw (cur_can_write_lem v.valid, cur_need_write_lem v) (ground arith)

dist-mod : (size a m : ℕ) → a < size → m < size → (size - a + (a + m) % size) % size ≡ m
dist-mod size a m ha hm = elim (dec_lt (a + m) size) [
  | yes p ↦ rw (mod-eq_of_lt p) (
      omega (
        arith,
        mod-eq-sub-mod {n = size - a + (a + m)} {m = size} (omega arith),
        mod-eq_of_lt {n = size - a + (a + m) - size} {m = size} (omega arith),
      ))
  | no p ↦
      let at : (a + m) % size ≡ a + m - size = omega (
        arith,
        mod-eq-sub-mod {n = a + m} {m = size} (omega arith),
        mod-eq_of_lt {n = a + m - size} {m = size} (omega arith),
      ) in
      rw at (omega (arith, mod-eq_of_lt {n = size - a + (a + m - size)} {m = size} (omega arith)))
]

-- The ring that `k` stored bytes leave.
abbrev pub stored : Ring → List ℕ → Ring
stored r xs =
    let x = excess r.size (count r) (length xs) in
    record r {
      buffer = put_round r.buffer r.size r.«end» xs;
      «end» = (r.«end» + length xs) % r.size;
      cur = (r.cur + x) % r.size;
    }

pub advance_end-eq :
    {r : Ring} (xs : List ℕ)
    → IsValid r
    → advance_end r (put_round r.buffer r.size r.«end» xs) (pos (room r)) (length xs) ≡ stored r xs
unfolding advance_end
advance_end-eq {r} xs v =
    let out : excess r.size (count r) (length xs) ≡ length xs - room r =
      omega (arith, count-lt v) in
    rw out (ground (arith, mod-eq_of_lt v.cur_in, add-zero r.cur))

pub stored-IsValid : {r : Ring} (xs : List ℕ) → IsValid r → IsValid (stored r xs)
stored-IsValid {r} xs v = record {
  pos_size = v.pos_size;
  small = v.small;
  cur_in = omega arith;
  end_in = omega arith;
  storage = length-put_round r.buffer r.size r.«end» xs ∙ v.storage;
}

count-stored :
    {r : Ring} (xs : List ℕ)
    → IsValid r
    → length xs < r.size
    → count (stored r xs) ≡ count r + length xs - excess r.size (count r) (length xs)
count-stored {r} xs v h =
    let n = count r in
    let k = length xs in
    let x = excess r.size n k in
    let m = n + k - x in
    let last : (r.«end» + k) % r.size ≡ ((r.cur + x) % r.size + m) % r.size =
      ap (λ e. (e + k) % r.size) (sym (end-eq v))
      ∙ mod-add-mod (r.cur + n) r.size k
      ∙ ap (λ e. e % r.size) (omega (arith, count-lt v))
      ∙ sym (mod-add-mod (r.cur + x) r.size m) in
    rw last (dist-mod r.size ((r.cur + x) % r.size) m (omega arith) (omega (arith, count-lt v)))

-- The unread bytes afterwards: those before and the new ones, less the oldest that do not fit.
pub contents-stored :
    {r : Ring} (xs : List ℕ)
    → IsValid r
    → length xs < r.size
    → contents (stored r xs) ≡ drop (excess r.size (count r) (length xs)) (contents r ++ xs)
contents-stored {r} xs v h =
    let x = excess r.size (count r) (length xs) in
    ap (window (put_round r.buffer r.size r.«end» xs) r.size ((r.cur + x) % r.size))
      (count-stored xs v h)
    ∙ window-put_round xs r.buffer r.size r.cur (count r) r.«end» (omega arith) v.cur_in
        (count-lt v) (sym (end-eq v))
