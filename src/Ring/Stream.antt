-- ===== src/Ring/Stream.antt =====
-- A ring between threads: rounds of `ring_read` and `ring_write` in any order, each under the mutex.
use moon_in_water.Prelude.{
  ℕ, ◌+◌, ◌-◌, ◌^◌, ◌≤◌, ◌<◌, ◌≡◌, ◌≢◌, inl, inr, Bool-cases, sym, ap, ap₂, subst, ◌∙◌, some, true,
  ◌==◌, append-nil, List, [], ◌∷◌, ◌++◌, arith, length, take, drop, Bool, false, pos, append_assoc,
  take-append-drop,
}
use moon_in_water.Ring.{Ring, has, ring_peek, ring_replace_old, ring_msgmode, ring_new, ring_close}
use moon_in_water.Ring.Time.{Timeval}
use moon_in_water.Ring.Read.{ReadCall, ReadRound, read_round}
use moon_in_water.Ring.Write.{WriteCall, WriteRound, write_round, write_closed}
use moon_in_water.Ring.Valid.{IsValid, count, contents, room}
use moon_in_water.Ring.Deliver.{IsReading, read_size, read_round-takes, share}
use moon_in_water.Ring.Accept.{IsWriting, write_want}
use moon_in_water.Ring.Keep.{write_round-appends}
use moon_in_water.Ring.New.{some_eq, ring_new-IsValid}

-- The ring, with the bytes that writers have stored and those that readers have taken so far.
pub record Stream : Type 0 where
  pub ring : Ring
  pub sent : List ℕ
  pub got : List ℕ

-- What a round of a write has stored is sent, nothing where the ring is closed.
abbrev pub after_write : Stream → WriteCall → ℕ → WriteRound → Stream
after_write s c already round = record {
  ring = round.ring;
  sent = s.sent ++ take (round.already - already) (drop already c.input);
  got = s.got;
}

-- A round of some thread's call, or a close. `out` is what the reader had before the round.
pub data Step (s : Stream) : Stream → Type 0 where
  reads :
      (c : ReadCall) (n : ℕ) (now : Timeval) (out : List ℕ) (round : ReadRound) (xs : List ℕ)
      → c.out_len ≡ pos n
      → length out ≤ n
      → has c.flags ring_peek ≡ false
      → c.peek_skip ≡ 0
      → read_round s.ring c now out ≡ some round
      → round.out ≡ out ++ xs
      → {t : Stream} → t ≡ record { ring = round.ring; sent = s.sent; got = s.got ++ xs }
      → Step s t
  writes :
      (c : WriteCall) (now : Timeval) (already : ℕ) (round : WriteRound)
      → length c.input < 2 ^ 31
      → already ≤ length c.input
      → has c.flags ring_replace_old ≡ false
      → write_round s.ring c now already ≡ some round
      → {t : Stream} → t ≡ after_write s c already round
      → Step s t
  closes : {t : Stream} → t ≡ record s { ring = (ring_close s.ring).0 } → Step s t

pub data Reach (s : Stream) : Stream → Type 0 where
  here : Reach s s
  next : {t u : Stream} → Reach s t → Step t u → Reach s u

-- Nothing is lost, doubled or reordered: what was sent is what was taken and what is still there.
pub record IsFlowing (s : Stream) : Type 0 where
  pub valid : IsValid s.ring
  pub conserved : s.sent ≡ s.got ++ contents s.ring

append_cancel : (xs : List ℕ) {ys zs : List ℕ} → xs ++ ys ≡ xs ++ zs → ys ≡ zs
append_cancel [] e = e
append_cancel (x ∷ xs) e = append_cancel xs (cc)

close-contents :
    (r : Ring) → IsValid r → IsValid (ring_close r).0 × (contents (ring_close r).0 ≡ contents r)
unfolding ring_close
close-contents r v = ground arith

-- After a write that was done, and after one that met a closed ring.
open_write :
    (s : Stream) (c : WriteCall) (now : Timeval) (already : ℕ) (round : WriteRound)
    → s.ring.is_destroy ≢ 1
    → length c.input < 2 ^ 31
    → already ≤ length c.input
    → has c.flags ring_replace_old ≡ false
    → write_round s.ring c now already ≡ some round
    → IsFlowing s
    → IsFlowing (after_write s c already round)
open_write s c now already round is_open short within p done f =
    let v : IsWriting s.ring c already = record {
      valid = f.valid;
      open_ring = is_open;
      short = short;
      within = within;
    } in
    let (round', done', valid, queue, count) = write_round-appends now v p in
    let same : round' ≡ round = some_eq (sym done' ∙ done) in
    let n = share (has c.flags ring_msgmode) (write_want c already) (room s.ring) in
    let new = take n (drop already c.input) in
    let wrote : round.already - already ≡ n =
      omega (arith, sym (ap (λ (w : WriteRound). w.already) same) ∙ count) in
    let longer : contents round.ring ≡ contents s.ring ++ new =
      sym (ap (λ (w : WriteRound). contents w.ring) same) ∙ queue in
    rw wrote (record {
      valid = subst (λ (w : WriteRound). IsValid w.ring) same valid;
      conserved =
          ap (λ x. x ++ new) f.conserved
          ∙ append_assoc s.got (contents s.ring) new
          ∙ ap (◌++◌ s.got) (sym longer);
    })

closed_write :
    (s : Stream) (c : WriteCall) (now : Timeval) (already : ℕ) (round : WriteRound)
    → (s.ring.is_destroy == 1) ≡ true
    → write_round s.ring c now already ≡ some round
    → IsFlowing s
    → IsFlowing (after_write s c already round)
unfolding write_round write_closed
closed_write s c now already round closed done f =
    let same : write_closed s.ring already ≡ round = some_eq (rw closed at done) in
    let none_new : already - already ≡ 0 = omega arith in
    subst (λ w. IsFlowing (after_write s c already w)) same
      (rw none_new (record {
        valid = f.valid;
        conserved =
            ap (λ xs. xs ++ []) f.conserved
            ∙ append_assoc s.got (contents s.ring) []
            ∙ ap (◌++◌ s.got) (append-nil (contents s.ring));
      }))

pub Step-IsFlowing : {s t : Stream} → Step s t → IsFlowing s → IsFlowing t
Step-IsFlowing {s} (reads c n now out round xs asked short p z done got e) f =
    let v : IsReading s.ring c n out = record {
      valid = f.valid;
      asked = asked;
      skip_in = omega (arith, f.valid.pos_size);
      got = short;
    } in
    let (round', done', bytes, left, valid) = read_round-takes now v p z in
    let same : round' ≡ round = some_eq (sym done' ∙ done) in
    let k = read_size s.ring c n out in
    let taken : xs ≡ take k (contents s.ring) =
      append_cancel out (sym got ∙ sym (ap (λ (w : ReadRound). w.out) same) ∙ bytes) in
    let kept : contents round.ring ≡ drop k (contents s.ring) =
      sym (ap (λ (w : ReadRound). contents w.ring) same) ∙ left in
    rw e (record {
      valid = subst (λ (w : ReadRound). IsValid w.ring) same valid;
      conserved =
          f.conserved
          ∙ ap (◌++◌ s.got) (sym (take-append-drop k (contents s.ring)))
          ∙ sym (append_assoc s.got (take k (contents s.ring)) (drop k (contents s.ring)))
          ∙ ap₂ (λ x y. (s.got ++ x) ++ y) (sym taken) (sym kept);
    })
Step-IsFlowing {s} (writes c now already round short within p done e) f =
    elim (Bool-cases (s.ring.is_destroy == 1)) [
      | inl closed ↦ rw e (closed_write s c now already round closed done f)
      | inr is_open ↦
          rw e (open_write s c now already round (λ d. ground arith) short within p done f)
    ]
Step-IsFlowing {s} (closes e) f =
    let (valid, same) = close-contents s.ring f.valid in
    rw e (record { valid = valid; conserved = f.conserved ∙ ap (◌++◌ s.got) (sym same) })

abbrev pub start : Ring → Stream
start r = record { ring = r; sent = []; got = [] }

Reach-IsFlowing : {s t : Stream} → IsFlowing s → Reach s t → IsFlowing t
Reach-IsFlowing f here = f
Reach-IsFlowing f (next r st) = Step-IsFlowing st (Reach-IsFlowing f r)

-- From a new ring of at least one byte of room and less than 2^31 bytes, whatever rounds of reads without
-- RING_PEEK and of writes of less than 2^31 bytes without RING_REPLACE_OLD and whatever closes the threads
-- make, in any order, writes to a closed ring included: the bytes sent are the bytes taken followed by the
-- unread bytes of the ring, and the ring is well formed.
pub ring_fifo :
    (len flags : ℕ) (a b c d : Bool) {r : Ring} {t : Stream}
    → 0 < len
    → len + 1 < 2 ^ 31
    → ring_new len flags a b c d ≡ some r
    → Reach (start r) t
    → (t.sent ≡ t.got ++ contents t.ring) × IsValid t.ring
ring_fifo len flags a b c d {r} {t} h k made reach =
    let (valid, empty, free, refs, is_open) = ring_new-IsValid len flags a b c d h k made in
    let f = Reach-IsFlowing (record { valid = valid; conserved = sym empty }) reach in
    (f.conserved, f.valid)
