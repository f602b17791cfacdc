-- ===== src/Ring/Answer.antt =====
-- How a call of `ring_read` ends: what each round answers, and what the whole loop returns.
use moon_in_water.Prelude.{
  ℕ, ◌≤◌, ◌≡◌, ◌≢◌, subst, ◌⊎◌, inl, inr, some, List, [], ◌∷◌, ◌++◌, arith, length, take, true,
  false, ℤ, pos, negsuc, ltb_ℤ, pos_part, Bool-cases, Option-cases, length-take, length-append,
}
use moon_in_water.Ring.{Ring, Signal, has, ring_peek, ring_nowait, ring_timeout}
use moon_in_water.Ring.Time.{Timeval}
use moon_in_water.Ring.Read.{
  ReadCall, ReadRound, cur_can_read, cur_need_read, really_read, copy_out, advance_cur, finish_read,
  read_round, read_after, read_short, Next, return, wait, wait_until, Wake, Outcome, fault, blocked,
  returned, read_loop, ReadResult, read_settle, read_resume,
}
use moon_in_water.Ring.Valid.{IsValid, contents}
use moon_in_water.Ring.Deliver.{IsReading, read_size, read_round-takes}

-- What a round may answer that has `out` of the call: the number of bytes, -1 on a closed ring when
-- there are none, or a wait, never on a closed ring nor for a call that is not to wait.
abbrev pub Answers : Ring → ReadCall → List ℕ → Next → Type 0
Answers r c out (return z) =
    (z ≡ pos (length out)) ⊎ ((z ≡ negsuc 0) × (r.is_destroy ≡ 1) × (length out ≡ 0))
Answers r c out wait_until =
    (r.is_destroy ≢ 1) × (has c.flags ring_nowait ≡ false) × (has c.flags ring_timeout ≡ true)
Answers r c out wait =
    (r.is_destroy ≢ 1) × (has c.flags ring_nowait ≡ false) × (has c.flags ring_timeout ≡ false)

read_short-Answers :
    (r : Ring) (c : ReadCall) (now : Timeval) (out : List ℕ)
    → Answers r c out (read_short r c now (length out)).0
unfolding read_short
read_short-Answers r c now out = ground arith

read_after-Answers :
    (r : Ring) (c : ReadCall) (now : Timeval) (out : List ℕ) (can need : ℤ)
    → Answers r c out (read_after r c now (length out) can need).0
unfolding read_after
read_after-Answers r c now out can need = ground arith

finish_read-Answers :
    (c : ReadCall) (now : Timeval) (can need : ℤ) (out : List ℕ) (s : Ring × List Signal)
    → let round = finish_read c now can need out s in Answers round.ring c round.out round.next
unfolding finish_read
finish_read-Answers c now can need out s = read_after-Answers s.0 c now out can need

read_round_shape :
    (r : Ring) (c : ReadCall) (now : Timeval) (out : List ℕ) {round : ReadRound}
    → read_round r c now out ≡ some round
    → (xs : List ℕ) × (s : Ring × List Signal) × (finish_read c now
          (cur_can_read r c.peek_skip)
          (cur_need_read c out)
          xs
          s
        ≡ round)
unfolding read_round
read_round_shape r c now out e = elim (Bool-cases (ltb_ℤ (pos 0) (really_read r c out))) [
  | inr rests ↦ (out, (r, []), ground arith)
  | inl copies ↦ elim (Option-cases (copy_out r c.peek_skip (pos_part (really_read r c out)))) [
    | inl outside ↦ absurd (ground arith)
    | inr (xs, copied) ↦ (out ++ xs, advance_cur r c (pos_part (really_read r c out)), ground arith)
  ]
]

read_round-is_destroy :
    (r : Ring) (c : ReadCall) (now : Timeval) (out : List ℕ) {round : ReadRound}
    → read_round r c now out ≡ some round
    → round.ring.is_destroy ≡ r.is_destroy
unfolding read_round finish_read advance_cur
read_round-is_destroy r c now out e = elim (Bool-cases (ltb_ℤ (pos 0) (really_read r c out))) [
  | inr rests ↦ ground arith
  | inl copies ↦ elim (Option-cases (copy_out r c.peek_skip (pos_part (really_read r c out)))) [
    | inl outside ↦ absurd (ground arith)
    | inr (xs, copied) ↦ ground arith
  ]
]

-- Every round that makes no access outside the buffer answers so, whatever the call.
pub read_round-Answers :
    (r : Ring) (c : ReadCall) (now : Timeval) (out : List ℕ) {round : ReadRound}
    → read_round r c now out ≡ some round
    → Answers round.ring c round.out round.next
read_round-Answers r c now out {round} e =
    let (xs, s, shaped) = read_round_shape r c now out e in
    subst (λ (w : ReadRound). Answers w.ring c w.out w.next) shaped
      (finish_read-Answers c now (cur_can_read r c.peek_skip) (cur_need_read c out) xs s)

-- A whole call asked for `n` bytes.
pub record Sound (n : ℕ) (result : ReadResult) : Type 0 where
  pub bounded : length result.1 ≤ n
  pub counted : (result.2 ≡ pos (length result.1)) ⊎ ((result.2 ≡ negsuc 0) × (length result.1 ≡ 0))

abbrev pub EachFound : (Ring → Type 0) → List Wake → Type 0
EachFound P [] = Unit
EachFound P (w ∷ ws) = P w.found × EachFound P ws

-- No access outside the buffer, and a result, if there is one, of which `P` holds.
abbrev pub Returns : {A : Type 0} → (A → Type 0) → Outcome A → Type 0
Returns P fault = ⊥
Returns P blocked = Unit
Returns P (returned a) = P a

grown :
    {r : Ring} {c : ReadCall} {n : ℕ} {out : List ℕ}
    → IsReading r c n out
    → length (out ++ take (read_size r c n out) (contents r)) ≤ n
grown {r} {c} {n} {out} v =
    let size = read_size r c n out in
    ground (arith, length-append out (take size (contents r)), length-take size (contents r), v.got)

read_settle-Sound :
    (c : ReadCall) (n : ℕ) (round : ReadRound)
    → Answers round.ring c round.out round.next
    → length round.out ≤ n
    → Returns (Sound n) (read_settle round)
unfolding read_settle
read_settle-Sound c n round a h = ground arith

read_resume-Sound :
    (w : Wake) (again : List ℕ → Outcome ReadResult) (c : ReadCall) (n : ℕ) (round : ReadRound)
    → Answers round.ring c round.out round.next
    → length round.out ≤ n
    → Returns (Sound n) (again round.out)
    → Returns (Sound n) (read_resume w again round)
unfolding read_resume
read_resume-Sound w again c n round a h later = ground arith

-- A call without RING_PEEK, whatever valid rings it finds at its wakes, makes no access outside the
-- buffer; if it returns, it has delivered at most the bytes asked for and returns their number, or
-- -1 and has delivered none.
pub read_loop-Sound :
    (ws : List Wake) (r : Ring) (c : ReadCall) (n : ℕ) (now : Timeval) (out : List ℕ)
    → IsReading r c n out
    → has c.flags ring_peek ≡ false
    → c.peek_skip ≡ 0
    → EachFound IsValid ws
    → Returns (Sound n) (read_loop ws r c now out)
unfolding read_loop
read_loop-Sound [] r c n now out v p z all =
    let (round, done, bytes, left, valid) = read_round-takes now v p z in
    let fits : length round.out ≤ n = rw bytes (grown v) in
    rw (read_loop, done) (read_settle-Sound c n round (read_round-Answers r c now out done) fits)
read_loop-Sound (w ∷ ws) r c n now out v p z all =
    let (round, done, bytes, left, valid) = read_round-takes now v p z in
    let fits : length round.out ≤ n = rw bytes (grown v) in
    let reading : IsReading w.found c n round.out = record {
      valid = all.0;
      asked = v.asked;
      skip_in = omega (arith, all.0.pos_size);
      got = fits;
    } in
    let later = read_loop-Sound ws w.found c n w.now round.out reading p z all.1 in
    rw (read_loop, done)
      (read_resume-Sound w (λ xs. read_loop ws w.found c w.now xs) c n round
        (read_round-Answers r c now out done) fits later)

-- A result in any case.
abbrev pub Ends : {A : Type 0} → (A → Type 0) → Outcome A → Type 0
Ends P fault = ⊥
Ends P blocked = ⊥
Ends P (returned a) = P a

read_settle-Ends :
    (c : ReadCall) (n : ℕ) (round : ReadRound)
    → Answers round.ring c round.out round.next
    → length round.out ≤ n
    → ((has c.flags ring_nowait ≡ true) ⊎ (round.ring.is_destroy ≡ 1))
    → Ends (Sound n) (read_settle round)
unfolding read_settle
read_settle-Ends c n round a h quick = ground arith

read_resume-Ends :
    (w : Wake) (again : List ℕ → Outcome ReadResult) (c : ReadCall) (n : ℕ) (round : ReadRound)
    → Answers round.ring c round.out round.next
    → length round.out ≤ n
    → ((has c.flags ring_nowait ≡ true) ⊎ (round.ring.is_destroy ≡ 1))
    → Ends (Sound n) (read_resume w again round)
unfolding read_resume
read_resume-Ends w again c n round a h quick = ground arith

-- A call without RING_PEEK that has RING_NOWAIT, or that finds the ring closed, returns from its first
-- round, whatever wakes are to come: with the number of the bytes delivered, or with -1 and none.
pub read_loop-Ends :
    (ws : List Wake) (r : Ring) (c : ReadCall) (n : ℕ) (now : Timeval) (out : List ℕ)
    → IsReading r c n out
    → has c.flags ring_peek ≡ false
    → c.peek_skip ≡ 0
    → ((has c.flags ring_nowait ≡ true) ⊎ (r.is_destroy ≡ 1))
    → Ends (Sound n) (read_loop ws r c now out)
unfolding read_loop
read_loop-Ends [] r c n now out v p z quick =
    let (round, done, bytes, left, valid) = read_round-takes now v p z in
    let fits : length round.out ≤ n = rw bytes (grown v) in
    let quick' = rw (← read_round-is_destroy r c now out done) at quick in
    rw (read_loop, done)
      (read_settle-Ends c n round (read_round-Answers r c now out done) fits quick')
read_loop-Ends (w ∷ ws) r c n now out v p z quick =
    let (round, done, bytes, left, valid) = read_round-takes now v p z in
    let fits : length round.out ≤ n = rw bytes (grown v) in
    let quick' = rw (← read_round-is_destroy r c now out done) at quick in
    rw (read_loop, done)
      (read_resume-Ends w (λ xs. read_loop ws w.found c w.now xs) c n round
        (read_round-Answers r c now out done) fits quick')
