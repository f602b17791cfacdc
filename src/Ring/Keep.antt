-- ===== src/Ring/Keep.antt =====
-- The rounds of `ring_write` against the queue of unread bytes: what is appended, what is lost.
use moon_in_water.Prelude.{
  ℕ, ◌+◌, ◌-◌, ◌≤◌, ◌<◌, ◌≡◌, refl, sym, ap, ap₂, drop-drop, drop-append_past, take_all,
  drop-append, ◌∙◌, ◌⊎◌, inl, inr, none, some, List, [], ◌∷◌, ◌++◌, arith, length, take, drop, min,
  true, false, lt→ltb, ℕ_discrete, append-nil, add-zero, length-take, length-drop, ◌==◌, dec_le,
}
use moon_in_water.Ring.{Ring, Signal, signal_reader, has, ring_replace_old, ring_msgmode}
use moon_in_water.Ring.Time.{Timeval}
use moon_in_water.Ring.Write.{
  WriteCall, WriteRound, cur_can_write, cur_need_write, finish_write, write_round,
}
use moon_in_water.Ring.Valid.{
  IsValid, count, contents, room, count-lt, count_wrapped, cur_can_write_lem, length-contents,
}
use moon_in_water.Ring.Store.{copy_in-some, copy_in-none, excess}
use moon_in_water.Ring.Deliver.{share}
use moon_in_water.Ring.Accept.{
  IsWriting, write_want, passed, write_size, skip_input_lem, really_write_lem, stored,
  advance_end-eq, stored-IsValid, contents-stored,
}

-- The part of the input that a round stores.
abbrev pub round_bytes : Ring → WriteCall → ℕ → List ℕ
round_bytes r c already =
    take (write_size r c already) (drop (already + passed r c already) c.input)

length-round_bytes :
    {r : Ring} {c : WriteCall} {already : ℕ}
    → IsWriting r c already
    → length (round_bytes r c already) ≡ write_size r c already
length-round_bytes {r} {c} {already} v = ground (
  arith,
  length-take (write_size r c already) (drop (already + passed r c already) c.input),
  length-drop (already + passed r c already) c.input,
)

abbrev after : Ring → WriteCall → Timeval → ℕ → Ring → List Signal → WriteRound
after r c now already r' sent =
    finish_write c now (cur_can_write r) (cur_need_write r c already)
      (already + passed r c already + write_size r c already) r' sent

storing :
    {r : Ring} {c : WriteCall} {already : ℕ} (now : Timeval)
    → IsWriting r c already
    → 0 < write_size r c already
    → ((r.cur ≤ r.«end») ⊎ (r.«end» + write_size r c already ≤ r.size))
    → write_round r c now already
      ≡ some (after r c now already (stored r (round_bytes r c already)) (signal_reader ∷ []))
unfolding write_round
storing {r} {c} {already} now v h fits =
    let (size, test) = really_write_lem v in
    let long = length-round_bytes v in
    let is_open : (r.is_destroy == 1) ≡ false = ground (arith, v.open_ring) in
    let small : length (round_bytes r c already) < r.size =
      ground (arith, long, v.valid.pos_size) in
    let copied = copy_in-some (round_bytes r c already) v.valid small (ground (arith, long)) in
    let moved =
      rw (long, ← cur_can_write_lem v.valid) at
        (advance_end-eq (round_bytes r c already) v.valid) in
    rw (is_open, test, lt→ltb _ _ h, size, skip_input_lem v, copied)
      (rw (size, skip_input_lem v, moved, long))

idling :
    {r : Ring} {c : WriteCall} {already : ℕ} (now : Timeval)
    → IsWriting r c already
    → write_size r c already ≡ 0
    → write_round r c now already ≡ some (after r c now already r [])
unfolding write_round
idling {r} {c} {already} now v h =
    let (size, test) = really_write_lem v in
    let is_open : (r.is_destroy == 1) ≡ false = ground (arith, v.open_ring) in
    rw (is_open, test, h) (rw (skip_input_lem v, add-zero))

-- What a round must leave: the next bytes of the input are appended, and `lost` of the oldest go.
pub record Stores (r : Ring) (c : WriteCall) (already lost : ℕ) (round : WriteRound) : Type 0 where
  pub valid : IsValid round.ring
  pub queue : contents round.ring ≡ drop lost (contents r ++ round_bytes r c already)
  pub done : round.already ≡ already + passed r c already + write_size r c already

nothing_lost :
    (r : Ring) (c : WriteCall) (already : ℕ)
    → write_size r c already ≡ 0
    → contents r ≡ drop (write_size r c already - room r) (contents r ++ round_bytes r c already)
nothing_lost r c already e =
    let none_out : write_size r c already - room r ≡ 0 = omega (arith, e) in
    rw (none_out, e, append-nil)

round-Stores :
    {r : Ring} {c : WriteCall} {already : ℕ} (now : Timeval)
    → IsWriting r c already
    → ((r.cur ≤ r.«end») ⊎ (r.«end» + write_size r c already ≤ r.size))
    → (round : WriteRound) × (write_round r c now already ≡ some round)
      × Stores r c already (write_size r c already - room r) round
unfolding finish_write
round-Stores {r} {c} {already} now v fits = elim (ℕ_discrete (write_size r c already) 0) [
  | yes e ↦ (
    after r c now already r [],
    idling now v e,
    record { valid = v.valid; queue = nothing_lost r c already e; done = refl },
  )
  | no ne ↦ (
    after r c now already (stored r (round_bytes r c already)) (signal_reader ∷ []),
    storing now v (omega arith) fits,
    record {
      valid = stored-IsValid (round_bytes r c already) v.valid;
      queue =
          let long = length-round_bytes v in
          let lost : excess r.size (count r) (length (round_bytes r c already))
              ≡ write_size r c already - room r =
            omega (arith, long, count-lt v.valid) in
          contents-stored (round_bytes r c already) v.valid (ground (arith, long, v.valid.pos_size))
          ∙ ap (λ x. drop x (contents r ++ round_bytes r c already)) lost;
      done = refl;
    },
  )
]

fits-below :
    {r : Ring} {n : ℕ} → IsValid r → n ≤ room r → ((r.cur ≤ r.«end») ⊎ (r.«end» + n ≤ r.size))
fits-below {r} {n} v h = elim (dec_le r.cur r.«end») [
  | yes p ↦ inl p
  | no p ↦ inr (omega (arith, count_wrapped r.size r.cur r.«end» (omega arith) v.cur_in))
]

-- Without RING_REPLACE_OLD: a round appends to the queue as many of the next input bytes as fit (in
-- message mode all or none), loses none of the old ones, and counts what it wrote.
pub write_round-appends :
    {r : Ring} {c : WriteCall} {already : ℕ} (now : Timeval)
    → IsWriting r c already
    → has c.flags ring_replace_old ≡ false
    → let n = share (has c.flags ring_msgmode) (write_want c already) (room r) in
      (round : WriteRound) × (write_round r c now already ≡ some round)
      × IsValid round.ring
      × (contents round.ring ≡ contents r ++ take n (drop already c.input))
      × (round.already ≡ already + n)
write_round-appends {r} {c} {already} now v plain =
    let n = share (has c.flags ring_msgmode) (write_want c already) (room r) in
    let size : write_size r c already ≡ n = rw plain in
    let fits : write_size r c already ≤ room r = rw size (ground arith) in
    let nothing : write_size r c already - room r ≡ 0 = omega (arith, fits) in
    let start : already + passed r c already ≡ already = rw (plain, add-zero) in
    let (round, done, s) = round-Stores now v (fits-below v.valid fits) in
    (
      round,
      done,
      s.valid,
      s.queue
          ∙ ap₂ (λ x k. drop x (contents r ++ take k (drop (already + passed r c already) c.input)))
              nothing size
          ∙ ap (λ p. contents r ++ take n (drop p c.input)) start,
      s.done ∙ ap₂ ◌+◌ start size,
    )

-- Passing over the first of the new bytes leaves the same last bytes.
last_bytes :
    (old new : List ℕ) (most : ℕ)
    → length old ≤ most
    → let over = length new - most in
      drop (min (length new) most - (most - length old)) (old ++ drop over new)
      ≡ drop (length old + length new - most) (old ++ new)
last_bytes old new most h = elim (dec_le (length new) most) [
  | yes p ↦
      let over : length new - most ≡ 0 = omega arith in
      let same : min (length new) most - (most - length old) ≡ length old + length new - most =
        omega arith in
      rw (over, same)
  | no p ↦
      let over = length new - most in
      let left : min (length new) most - (most - length old) ≡ length old = omega arith in
      let right : length old + length new - most ≡ length old + over = omega arith in
      rw (left, right) (drop-append old (drop over new) ∙ sym (drop-append_past over old new))
]

-- With RING_REPLACE_OLD on an open well-formed ring, when the free bytes do not lie wholly before the unread ones or the new bytes
-- reach at most the end of the buffer: the queue keeps the last bytes of the old ones and the input,
-- as many as it can hold, and the whole input is accounted for.
pub write_round-replaces :
    {r : Ring} {c : WriteCall} {already : ℕ} (now : Timeval)
    → IsWriting r c already
    → has c.flags ring_replace_old ≡ true
    → ((r.cur ≤ r.«end») ⊎ (r.«end» + min (write_want c already) (r.size - 1) ≤ r.size))
    → (round : WriteRound) × (write_round r c now already ≡ some round)
      × IsValid round.ring
      × (contents round.ring
          ≡ drop
              (count r + write_want c already - (r.size - 1))
              (contents r ++ drop already c.input))
      × (round.already ≡ length c.input)
write_round-replaces {r} {c} {already} now v replace fits =
    let want = write_want c already in
    let size : write_size r c already ≡ min want (r.size - 1) = rw replace in
    let over : passed r c already ≡ want - (r.size - 1) = rw replace in
    let (round, done, s) = round-Stores now v (rw size fits) in
    let tail = drop already c.input in
    let bytes : round_bytes r c already ≡ drop (passed r c already) tail =
      ap (take (write_size r c already)) (sym (drop-drop (passed r c already) already c.input))
      ∙ take_all _ _ (
          omega (
            arith,
            size,
            over,
            length-drop (passed r c already) tail,
            length-drop already c.input,
          )) in
    let wanted : length tail ≡ want = length-drop already c.input in
    let old = length-contents r in
    let kept =
      rw (wanted, old, ← over, ← size) at
        (last_bytes (contents r) tail (r.size - 1) (omega (arith, old, count-lt v.valid))) in
    (
      round,
      done,
      s.valid,
      s.queue ∙ ap (λ b. drop (write_size r c already - room r) (contents r ++ b)) bytes ∙ kept,
      s.done ∙ omega (arith, size, over, v.within),
    )

-- With RING_REPLACE_OLD on an open well-formed ring and the unread bytes round the end of the buffer, a write that reaches past
-- the end is not split: it stores outside the buffer.
pub write_round-overflows :
    {r : Ring} {c : WriteCall} {already : ℕ} (now : Timeval)
    → IsWriting r c already
    → has c.flags ring_replace_old ≡ true
    → r.«end» < r.cur
    → r.size < r.«end» + min (write_want c already) (r.size - 1)
    → write_round r c now already ≡ none
unfolding write_round
write_round-overflows {r} {c} {already} now v replace wrapped over =
    let (size, test) = really_write_lem v in
    let long = length-round_bytes v in
    let want : write_size r c already ≡ min (write_want c already) (r.size - 1) = rw replace in
    let is_open : (r.is_destroy == 1) ≡ false = ground (arith, v.open_ring) in
    let some_bytes : 0 < write_size r c already = omega (arith, want, v.valid.end_in) in
    let outside =
      copy_in-none (round_bytes r c already) v.valid wrapped (omega (arith, long, want)) in
    rw (is_open, test, lt→ltb _ _ some_bytes, size, skip_input_lem v, outside)
