-- ===== src/Ring/Write.antt =====
-- `ring_write`: its prologue, one round of its loop under the mutex, and the loop.
use moon_in_water.Prelude.{
  ℕ, ◌+◌, ◌-◌, ◌%◌, not, ◌&&◌, ◌||◌, Option, none, some, List, [], ◌∷◌, ◌++◌, ltb, leb, ◌==◌,
  if◌then◌else◌, ℤ, pos, negsuc, ltb_ℤ, leb_ℤ, pos_part, to_int, add32, sub32, length, take, drop,
}
use moon_in_water.Ring.{
  Ring, Signal, signal_reader, signal_writer, has, ring_nowait, ring_replace_old, ring_waitall,
  ring_timeout, ring_msgmode,
}
use moon_in_water.Ring.Memory.{copy_to}
use moon_in_water.Ring.Time.{Timeval, tv_addup, tv_compare}
use moon_in_water.Ring.Read.{
  Next, return, wait_until, wait, Wake, Outcome, fault, blocked, returned,
}

-- The locals of a call that its prologue fixes. `input` is the caller's buffer of `len` bytes.
pub record WriteCall : Type 0 where
  pub input : List ℕ
  pub flags : ℕ
  pub tv : Timeval

-- `none` is the early return of 0, before the mutex is taken.
unfoldable pub write_prologue : Ring → List ℕ → ℕ → Timeval → Timeval → Option WriteCall
write_prologue r input flags timeout now =
    if length input == 0 || (has flags ring_msgmode && ltb (sub32 r.size 1) (length input))
    then none
    else some (record { input = input; flags = flags; tv = tv_addup timeout now })

-- `already` is `already_write`: the bytes of the input that are written or passed over.
pub record WriteRound : Type 0 where
  pub ring : Ring
  pub already : ℕ
  pub signals : List Signal
  pub next : Next

unfoldable pub cur_can_write : Ring → ℤ
cur_can_write r = to_int (sub32 (add32 (sub32 r.size r.«end») r.cur) 1 % r.size)

-- RING_REPLACE_OLD passes over what a full ring could not keep: the new `already_write`.
unfoldable pub skip_input : Ring → WriteCall → ℕ → ℕ
skip_input r c already =
    let need = sub32 (length c.input) already in
    if has c.flags ring_replace_old && ltb (sub32 r.size 1) need
    then add32 already (add32 (sub32 need r.size) 1)
    else already

unfoldable pub cur_need_write : Ring → WriteCall → ℕ → ℤ
cur_need_write r c already =
    let need = sub32 (length c.input) already in
    if has c.flags ring_replace_old && ltb (sub32 r.size 1) need
    then to_int (sub32 r.size 1)
    else to_int need

unfoldable pub really_write : Ring → WriteCall → ℕ → ℤ
really_write r c already =
    let can = cur_can_write r in
    let need = cur_need_write r c already in
    let n = if has c.flags ring_replace_old then need else if ltb_ℤ can need then can else need in
    if has c.flags ring_msgmode && ltb_ℤ n need then pos 0 else n

-- The one or two `memcpy` into the buffer: `none` is a write outside it.
unfoldable pub copy_in : Ring → List ℕ → Option (List ℕ)
unfolding copy_to
copy_in r xs =
    let tmp = sub32 r.size r.«end» in
    if leb r.cur r.«end» && ltb tmp (length xs)
    then elim (copy_to r.buffer r.«end» (take tmp xs)) [
      | none ↦ none
      | some buf ↦ copy_to buf 0 (drop tmp xs)
    ]
    else copy_to r.buffer r.«end» xs

-- The indices after `n` bytes are stored: `cur` moves on when they took the place of old ones.
unfoldable pub advance_end : Ring → List ℕ → ℤ → ℕ → Ring
advance_end r buf can n = record r {
  buffer = buf;
  «end» = (r.«end» + n) % r.size;
  cur = if ltb_ℤ can (pos n) then (r.cur + (n - pos_part can)) % r.size else r.cur;
}

-- The branch taken when fewer bytes fitted than were needed. The deadline test is the source's.
unfoldable pub write_short : Ring → WriteCall → Timeval → ℕ → Next
write_short r c now already =
    if has c.flags ring_replace_old
      || (has c.flags ring_nowait || has r.flags ring_nowait)
      || (not (has c.flags ring_waitall) && ltb 0 already)
    then return (to_int already)
    else if has c.flags ring_timeout
    then (if leb_ℤ (pos 0) (tv_compare c.tv now) then return (to_int already) else wait_until)
    else wait

unfoldable pub write_after : Ring → WriteCall → Timeval → ℕ → ℤ → ℤ → Next × List Signal
unfolding write_short
write_after r c now already can need =
    if ltb_ℤ need can
    then (return (to_int already), signal_writer ∷ [])
    else if leb_ℤ need can
    then (return (to_int already), [])
    else (write_short r c now already, [])

unfoldable pub finish_write : WriteCall → Timeval → ℤ → ℤ → ℕ → Ring → List Signal → WriteRound
finish_write c now can need already r sent =
    let (next, more) = write_after r c now already can need in
    record { ring = r; already = already; signals = sent ++ more; next = next }

-- A closed ring takes no more bytes.
unfoldable pub write_closed : Ring → ℕ → WriteRound
write_closed r already = record {
  ring = r;
  already = already;
  signals = [];
  next = return (if ltb_ℤ (pos 0) (to_int already) then to_int already else negsuc 0);
}

-- One round of `while(1)`: `none` is an access outside the buffer.
unfoldable pub write_round : Ring → WriteCall → Timeval → ℕ → Option WriteRound
write_round r c now already =
    let can = cur_can_write r in
    let need = cur_need_write r c already in
    let n = really_write r c already in
    let from = skip_input r c already in
    if r.is_destroy == 1
    then some (write_closed r already)
    else if ltb_ℤ (pos 0) n
    then elim (copy_in r (take (pos_part n) (drop from c.input))) [
      | none ↦ none
      | some buf ↦ some (
          finish_write c now can need (from + pos_part n) (advance_end r buf can (pos_part n))
            (signal_reader ∷ []))
    ]
    else some (finish_write c now can need from r [])

abbrev pub WriteResult : Type 0
WriteResult = Ring × ℤ

-- After a round with no wake to come.
unfoldable pub write_settle : WriteRound → Outcome WriteResult
write_settle round = elim round.next [ return n ↦ returned (round.ring, n) | _ ↦ blocked ]

-- After a round, with the wake that ends its wait and what the call does then.
unfoldable pub write_resume : Wake → (ℕ → Outcome WriteResult) → WriteRound → Outcome WriteResult
write_resume w again round = elim round.next [
  | return n ↦ returned (round.ring, n)
  | wait_until ↦
      if w.timed_out then returned (w.found, to_int round.already) else again round.already
  | wait ↦ again round.already
]

-- The loop, over the wakes that the call meets; it is still waiting when they are used up.
unfoldable pub write_loop : List Wake → Ring → WriteCall → Timeval → ℕ → Outcome WriteResult
write_loop [] r c now already = elim (write_round r c now already) [
  | none ↦ fault
  | some round ↦ write_settle round
]
write_loop (w ∷ ws) r c now already =
    let again = λ (k : ℕ). write_loop ws w.found c w.now k in
    elim (write_round r c now already) [ none ↦ fault | some round ↦ write_resume w again round ]

-- The whole call.
unfoldable pub ring_write : List Wake → Ring → List ℕ → ℕ → Timeval → Timeval → Outcome WriteResult
unfolding write_prologue write_loop
ring_write ws r input flags timeout now = elim (write_prologue r input flags timeout now) [
  | none ↦ returned (r, pos 0)
  | some c ↦ write_loop ws r c now 0
]
