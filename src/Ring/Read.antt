-- ===== src/Ring/Read.antt =====
-- `ring_read`: its prologue, one round of its loop under the mutex, and the loop.
use moon_in_water.Prelude.{
  ℕ, ◌+◌, ◌-◌, ◌%◌, Bool, not, ◌&&◌, ◌||◌, Option, none, some, List, [], ◌∷◌, ◌++◌, ltb, leb, ◌==◌,
  if◌then◌else◌, ℤ, pos, negsuc, ◌-ℤ◌, ltb_ℤ, leb_ℤ, pos_part, to_int, add32, sub32, length,
}
use moon_in_water.Ring.{
  Ring, Signal, signal_reader, signal_writer, has, ring_nowait, ring_waitall, ring_peek,
  ring_timeout, ring_msgmode,
}
use moon_in_water.Ring.Memory.{copy_from}
use moon_in_water.Ring.Time.{Timeval, tv_addup, tv_compare}

-- The locals of a call that its prologue fixes: `out_len`, `flags`, `peek_skip` and the deadline.
pub record ReadCall : Type 0 where
  pub out_len : ℤ
  pub flags : ℕ
  pub peek_skip : ℕ
  pub tv : Timeval

-- The `int` argument of RING_PEEK: `none` where the prologue returns 0.
unfoldable pub peek_bounds : Ring → ℕ → ℕ → ℤ → Option (ℤ × ℕ)
peek_bounds r len flags skip = elim skip [
  | negsuc _ ↦ none
  | pos s ↦
      let room = sub32 (sub32 r.size 1) s in
      if leb (sub32 r.size 1) s
      then none
      else if ltb room len
      then (if has flags ring_msgmode then none else some (to_int room, s))
      else some (to_int len, s)
]

-- `none` is the early return of 0, before the mutex is taken.
unfoldable pub read_prologue : Ring → ℕ → ℕ → Timeval → Timeval → ℤ → Option ReadCall
unfolding peek_bounds
read_prologue r len flags timeout now skip =
    let bounds : Option (ℤ × ℕ) =
      if has flags ring_peek then peek_bounds r len flags skip else some (to_int len, 0) in
    if len == 0 then none else elim bounds [
      | none ↦ none
      | some (out_len, peek_skip) ↦ some (record {
        out_len = out_len;
        flags = flags;
        peek_skip = peek_skip;
        tv = tv_addup timeout now;
      })
    ]

-- How a round ends: the call returns, or it waits on `con_reader`, until the deadline or without one.
pub data Next : Type 0 where
  return : ℤ → Next
  wait_until : Next
  wait : Next

-- The bytes put at `out` so far; `already_read` is their number.
pub record ReadRound : Type 0 where
  pub ring : Ring
  pub out : List ℕ
  pub signals : List Signal
  pub next : Next

unfoldable pub cur_can_read : Ring → ℕ → ℤ
cur_can_read r skip = to_int (sub32 (add32 (sub32 r.size r.cur) r.«end» % r.size) skip)

unfoldable pub cur_need_read : ReadCall → List ℕ → ℤ
cur_need_read c out = c.out_len -ℤ pos (length out)

unfoldable pub really_read : Ring → ReadCall → List ℕ → ℤ
really_read r c out =
    let can = cur_can_read r c.peek_skip in
    let need = cur_need_read c out in
    let n = if ltb_ℤ can need then can else need in
    if has c.flags ring_msgmode && ltb_ℤ n need then pos 0 else n

-- The one or two `memcpy` from the buffer: `none` is a read outside it.
unfoldable pub copy_out : Ring → ℕ → ℕ → Option (List ℕ)
unfolding copy_from
copy_out r skip n =
    let tmp = sub32 r.size r.cur in
    let first = tmp - skip in
    if ltb r.«end» r.cur && ltb skip tmp && ltb first n
    then elim (copy_from r.buffer (r.cur + skip) first) [
      | none ↦ none
      | some xs ↦ elim (copy_from r.buffer 0 (n - first)) [
        | none ↦ none
        | some ys ↦ some (xs ++ ys)
      ]
    ]
    else copy_from r.buffer (r.cur + skip) n

-- The ring after a copy: a peek leaves it alone.
unfoldable pub advance_cur : Ring → ReadCall → ℕ → Ring × List Signal
advance_cur r c n =
    if has c.flags ring_peek
    then (r, [])
    else (record r { cur = (r.cur + n) % r.size }, signal_writer ∷ [])

unfoldable pub read_over : Ring → ReadCall → List Signal
read_over r c = if has c.flags ring_peek && not (r.«end» == r.cur) then signal_reader ∷ [] else []

-- The branch taken when fewer bytes were there than were needed.
unfoldable pub read_short : Ring → ReadCall → Timeval → ℕ → Next × List Signal
unfolding read_over
read_short r c now already =
    let over : Next × List Signal = (return (pos already), read_over r c) in
    if r.is_destroy == 1
    then (return (if ltb 0 already then pos already else negsuc 0), [])
    else if (not (has c.flags ring_waitall) && ltb 0 already)
        || (has c.flags ring_nowait || has r.flags ring_nowait)
    then over
    else if has c.flags ring_timeout
    then (if leb_ℤ (pos 0) (tv_compare now c.tv) then over else (wait_until, []))
    else (wait, [])

-- What follows the copy; `can` and `need` are from before it.
unfoldable pub read_after : Ring → ReadCall → Timeval → ℕ → ℤ → ℤ → Next × List Signal
unfolding read_short read_over
read_after r c now already can need =
    if ltb_ℤ need can
    then (return (pos already), signal_reader ∷ [])
    else if leb_ℤ need can
    then (return (pos already), read_over r c)
    else read_short r c now already

unfoldable pub finish_read : ReadCall → Timeval → ℤ → ℤ → List ℕ → Ring × List Signal → ReadRound
finish_read c now can need out (r, sent) =
    let (next, more) = read_after r c now (length out) can need in
    record { ring = r; out = out; signals = sent ++ more; next = next }

-- One round of `while( 1 )`: `none` is an access outside the buffer.
unfoldable pub read_round : Ring → ReadCall → Timeval → List ℕ → Option ReadRound
read_round r c now out =
    let can = cur_can_read r c.peek_skip in
    let need = cur_need_read c out in
    let n = really_read r c out in
    if ltb_ℤ (pos 0) n
    then elim (copy_out r c.peek_skip (pos_part n)) [
      | none ↦ none
      | some xs ↦ some (finish_read c now can need (out ++ xs) (advance_cur r c (pos_part n)))
    ]
    else some (finish_read c now can need out (r, []))

-- How a wait ends: the ring as the other threads left it, the time, and whether the deadline passed.
pub record Wake : Type 0 where
  pub found : Ring
  pub now : Timeval
  pub timed_out : Bool

pub data Outcome (A : Type 0) : Type 0 where
  fault : Outcome A
  blocked : Outcome A
  returned : A → Outcome A

abbrev pub ReadResult : Type 0
ReadResult = Ring × List ℕ × ℤ

-- After a round with no wake to come.
unfoldable pub read_settle : ReadRound → Outcome ReadResult
read_settle round = elim round.next [ return n ↦ returned (round.ring, round.out, n) | _ ↦ blocked ]

-- After a round, with the wake that ends its wait and what the call does then.
unfoldable pub read_resume : Wake → (List ℕ → Outcome ReadResult) → ReadRound → Outcome ReadResult
read_resume w again round = elim round.next [
  | return n ↦ returned (round.ring, round.out, n)
  | wait_until ↦
      if w.timed_out then returned (w.found, round.out, pos (length round.out)) else again round.out
  | wait ↦ again round.out
]

-- The loop, over the wakes that the call meets; it is still waiting when they are used up.
unfoldable pub read_loop : List Wake → Ring → ReadCall → Timeval → List ℕ → Outcome ReadResult
read_loop [] r c now out = elim (read_round r c now out) [
  | none ↦ fault
  | some round ↦ read_settle round
]
read_loop (w ∷ ws) r c now out =
    let again = λ (xs : List ℕ). read_loop ws w.found c w.now xs in
    elim (read_round r c now out) [ none ↦ fault | some round ↦ read_resume w again round ]

-- The whole call.
unfoldable pub ring_read : List Wake → Ring → ℕ → ℕ → Timeval → Timeval → ℤ → Outcome ReadResult
unfolding read_prologue read_loop
ring_read ws r len flags timeout now skip = elim (read_prologue r len flags timeout now skip) [
  | none ↦ returned (r, [], pos 0)
  | some c ↦ read_loop ws r c now []
]
