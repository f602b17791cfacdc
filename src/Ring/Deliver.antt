-- ===== src/Ring/Deliver.antt =====
-- What one round of `ring_read` delivers and what it leaves in the ring.
use moon_in_water.Prelude.{
  ℕ, ◌+◌, ◌-◌, ◌%◌, ◌≤◌, ◌<◌, ◌≡◌, refl, sym, ap, subst, ◌∙◌, none, some, List, [], ◌++◌, arith,
  dec_lt, dec_le, mod-eq_of_lt, mod-eq-sub-mod, length, take, drop, ltb, if◌then◌else◌, min, Bool,
  true, false, ◌&&◌, pos, ltb_ℤ, pos_part, ◌-ℤ◌, lt→ltb, ℕ_discrete, append-nil,
}
use moon_in_water.Ring.{Ring, has, ring_peek, ring_msgmode}
use moon_in_water.Ring.Memory.{window, drop-window}
use moon_in_water.Ring.Time.{Timeval}
use moon_in_water.Ring.Read.{
  ReadCall, ReadRound, cur_can_read, cur_need_read, really_read, copy_out, advance_cur, finish_read,
  read_round,
}
use moon_in_water.Ring.Valid.{
  IsValid, count, contents, count_forward, count_wrapped, cur_can_read_lem,
}
use moon_in_water.Ring.Copy.{copy_out-some, copy_out-none}

-- The bytes that a round moves when `want` are asked for and `there` are to be had: as many as there
-- are, or in message mode all or nothing.
abbrev pub share : Bool → ℕ → ℕ → ℕ
share msg want there = if msg && ltb there want then 0 else min want there

-- A call for `n` bytes of which `out` are there already.
pub record IsReading (r : Ring) (c : ReadCall) (n : ℕ) (out : List ℕ) : Type 0 where
  pub valid : IsValid r
  pub asked : c.out_len ≡ pos n
  pub skip_in : c.peek_skip < r.size
  pub got : length out ≤ n

abbrev pub read_size : Ring → ReadCall → ℕ → List ℕ → ℕ
read_size r c n out = share (has c.flags ring_msgmode) (n - length out) (count r - c.peek_skip)

need_lem :
    (c : ReadCall) (n : ℕ) (out : List ℕ)
    → c.out_len ≡ pos n
    → length out ≤ n
    → cur_need_read c out ≡ pos (n - length out)
unfolding cur_need_read ◌-ℤ◌
need_lem c n out e h = rw e (ground arith)

really_read_lem :
    {r : Ring} {c : ReadCall} {n : ℕ} {out : List ℕ}
    → IsReading r c n out
    → (pos_part (really_read r c out) ≡ read_size r c n out)
      × (ltb_ℤ (pos 0) (really_read r c out) ≡ ltb 0 (read_size r c n out))
unfolding really_read
really_read_lem {r} {c} {n} {out} v =
    rw (cur_can_read_lem c.peek_skip v.valid v.skip_in, need_lem c n out v.asked v.got)
      (ground arith)

-- Taking `k` unread bytes moves `cur` over them.
count-take :
    (size cur e k : ℕ)
    → cur < size
    → e < size
    → k ≤ (size - cur + e) % size
    → (size - (cur + k) % size + e) % size ≡ (size - cur + e) % size - k
count-take size cur e k hc he hk = elim (dec_le cur e) [
  | yes p ↦
      let before = count_forward size cur e p he in
      rw (mod-eq_of_lt {n = cur + k} {m = size} (omega (arith, before)))
        (omega (arith, before, count_forward size (cur + k) e (omega (arith, before)) he))
  | no p ↦
      let before = count_wrapped size cur e (omega arith) hc in
      elim (dec_lt (cur + k) size) [
        | yes q ↦
            rw (mod-eq_of_lt {n = cur + k} {m = size} q)
              (omega (arith, before, count_wrapped size (cur + k) e (omega arith) q))
        | no q ↦
            let at : (cur + k) % size ≡ cur + k - size = omega (
              arith,
              mod-eq-sub-mod {n = cur + k} {m = size} (omega arith),
              mod-eq_of_lt {n = cur + k - size} {m = size} (omega arith),
            ) in
            rw at (
              omega
                (arith, before, count_forward size (cur + k - size) e (omega (arith, before)) he))
      ]
]

abbrev pub taken : Ring → ℕ → Ring
taken r k = record r { cur = (r.cur + k) % r.size }

taken-IsValid : {r : Ring} (k : ℕ) → IsValid r → IsValid (taken r k)
taken-IsValid k v = record {
  pos_size = v.pos_size;
  small = v.small;
  cur_in = omega arith;
  end_in = v.end_in;
  storage = v.storage;
}

contents-taken :
    {r : Ring} (k : ℕ) → IsValid r → k ≤ count r → contents (taken r k) ≡ drop k (contents r)
contents-taken {r} k v h =
    let left = count-take r.size r.cur r.«end» k v.cur_in v.end_in h in
    let split : count r ≡ k + (count r - k) = omega arith in
    ap (window r.buffer r.size ((r.cur + k) % r.size)) left
    ∙ sym (drop-window r.buffer r.size r.cur k (count r - k) v.cur_in)
    ∙ ap (λ j. drop k (window r.buffer r.size r.cur j)) (sym split)

-- A round that copies, and one that does not.
copying :
    {r : Ring} {c : ReadCall} {n : ℕ} {out : List ℕ} (now : Timeval) (xs : List ℕ)
    → IsReading r c n out
    → 0 < read_size r c n out
    → copy_out r c.peek_skip (read_size r c n out) ≡ some xs
    → read_round r c now out
      ≡ some (
          finish_read c now
            (cur_can_read r c.peek_skip)
            (cur_need_read c out)
            (out ++ xs)
            (advance_cur r c (read_size r c n out)))
unfolding read_round
copying {r} {c} {n} {out} now xs v h e =
    let (size, test) = really_read_lem v in rw (test, size, lt→ltb _ _ h, e, size)

resting :
    {r : Ring} {c : ReadCall} {n : ℕ} {out : List ℕ} (now : Timeval)
    → IsReading r c n out
    → read_size r c n out ≡ 0
    → read_round r c now out
      ≡ some (finish_read c now (cur_can_read r c.peek_skip) (cur_need_read c out) out (r, []))
unfolding read_round
resting {r} {c} {n} {out} now v h = let (size, test) = really_read_lem v in rw (test, h)

-- Without RING_PEEK: the round appends the oldest `read_size` unread bytes to the output, and exactly
-- these leave the ring.
pub read_round-takes :
    {r : Ring} {c : ReadCall} {n : ℕ} {out : List ℕ} (now : Timeval)
    → IsReading r c n out
    → has c.flags ring_peek ≡ false
    → c.peek_skip ≡ 0
    → (round : ReadRound) × (read_round r c now out ≡ some round)
      × (round.out ≡ out ++ take (read_size r c n out) (contents r))
      × (contents round.ring ≡ drop (read_size r c n out) (contents r))
      × IsValid round.ring
unfolding finish_read advance_cur
read_round-takes {r} {c} {n} {out} now v p z = elim (ℕ_discrete (read_size r c n out) 0) [
  | yes e ↦ (
    finish_read c now (cur_can_read r c.peek_skip) (cur_need_read c out) out (r, []),
    resting now v e,
    rw (e, append-nil),
    rw e,
    v.valid,
  )
  | no ne ↦
      let k = read_size r c n out in
      let k_pos : 0 < k = omega arith in
      let k_le : k ≤ count r = ground arith in
      let bytes : copy_out r c.peek_skip k ≡ some (take k (contents r)) =
        subst (λ s. copy_out r s k ≡ some (take k (contents r))) (sym z)
          (copy_out-some 0 k v.valid k_pos (omega arith) (omega (arith, v.valid.cur_in))) in
      (
        finish_read c now (cur_can_read r c.peek_skip) (cur_need_read c out)
            (out ++ take k (contents r)) (advance_cur r c k),
        copying now (take k (contents r)) v k_pos bytes,
        refl,
        rw p (contents-taken k v.valid k_le),
        rw p (taken-IsValid k v.valid),
      )
]

-- With RING_PEEK, and a skip that stays before the end of the buffer: the round appends the first
-- `read_size` unread bytes past the skipped ones to the output, and the ring stays as it is.
pub read_round-peeks :
    {r : Ring} {c : ReadCall} {n : ℕ} {out : List ℕ} (now : Timeval)
    → IsReading r c n out
    → has c.flags ring_peek ≡ true
    → r.cur + c.peek_skip < r.size
    → (round : ReadRound) × (read_round r c now out ≡ some round)
      × (round.out ≡ out ++ take (read_size r c n out) (drop c.peek_skip (contents r)))
      × (round.ring ≡ r)
unfolding finish_read advance_cur
read_round-peeks {r} {c} {n} {out} now v p inside = elim (ℕ_discrete (read_size r c n out) 0) [
  | yes e ↦ (
    finish_read c now (cur_can_read r c.peek_skip) (cur_need_read c out) out (r, []),
    resting now v e,
    rw (e, append-nil),
    refl,
  )
  | no ne ↦
      let k = read_size r c n out in
      let k_pos : 0 < k = omega arith in
      let k_le : c.peek_skip + k ≤ count r = ground arith in
      let xs = take k (drop c.peek_skip (contents r)) in
      (
        finish_read c now (cur_can_read r c.peek_skip) (cur_need_read c out) (out ++ xs)
            (advance_cur r c k),
        copying now xs v k_pos (copy_out-some c.peek_skip k v.valid k_pos k_le inside),
        refl,
        rw p,
      )
]

-- If the skip reaches the end of the buffer and there are bytes to show, the copy starts outside the
-- buffer: the bytes past the wrap cannot be peeked at.
pub read_round_peek_fault :
    {r : Ring} {c : ReadCall} {n : ℕ} {out : List ℕ} (now : Timeval)
    → IsReading r c n out
    → r.size ≤ r.cur + c.peek_skip
    → 0 < read_size r c n out
    → read_round r c now out ≡ none
unfolding read_round
read_round_peek_fault {r} {c} {n} {out} now v outside h =
    let (size, test) = really_read_lem v in
    let k_le : c.peek_skip + read_size r c n out ≤ count r = ground arith in
    rw (
      test,
      size,
      lt→ltb _ _ h,
      copy_out-none c.peek_skip (read_size r c n out) v.valid h k_le outside,
    )
