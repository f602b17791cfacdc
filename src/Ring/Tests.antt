-- ===== src/Ring/Tests.antt =====
-- The ring at concrete inputs, and the theorems about it applied to them.
use moon_in_water.Prelude.{
  ℕ, ◌^◌, ◌<◌, ◌≡◌, ◌≢◌, refl, inl, inr, none, some, List, [], ◌∷◌, arith, length, true, false, pos,
  to_int, add32, sub32, ◌-ℤ◌,
}
use moon_in_water.Ring.{Ring, signal_reader, signal_writer, has, ring_new}
use moon_in_water.Ring.Time.{Timeval}
use moon_in_water.Ring.Read.{
  ReadCall, ReadRound, return, read_round, cur_can_read, cur_need_read, really_read, copy_out,
  advance_cur, finish_read, read_after, Wake, returned, read_loop, ring_read,
}
use moon_in_water.Ring.Write.{
  WriteCall, WriteRound, write_round, cur_can_write, skip_input, cur_need_write, really_write,
  copy_in, advance_end, finish_write, write_after, ring_write, write_settle,
}
use moon_in_water.Ring.Valid.{IsValid, contents}
use moon_in_water.Ring.Deliver.{IsReading, read_round-takes, read_round_peek_fault}
use moon_in_water.Ring.Answer.{Sound, Returns, Ends, read_loop-Sound, read_loop-Ends}
use moon_in_water.Ring.Accept.{IsWriting}
use moon_in_water.Ring.Keep.{write_round-appends, write_round-replaces, write_round-overflows}
use moon_in_water.Ring.Stream.{here, next, reads, writes, ring_fifo}

abbrev noon : Timeval
noon = record { tv_sec = 12; tv_usec = 0 }

-- A ring for three bytes, of which `fill` are unread from `cur` on.
abbrev ring_at : ℕ → ℕ → List ℕ → Ring
ring_at cur e buffer = record {
  ref_num = pos 1;
  is_destroy = 0;
  cur = cur;
  «end» = e;
  size = 4;
  flags = 0;
  buffer = buffer;
}

abbrev fresh : Ring
fresh = ring_at 0 0 (0 ∷ 0 ∷ 0 ∷ 0 ∷ [])

-- 7, then 8, round the end of the buffer.
abbrev wrapped : Ring
wrapped = ring_at 3 1 (8 ∷ 0 ∷ 0 ∷ 7 ∷ [])

abbrev reading : ℕ → ℕ → ℕ → ReadCall
reading n flags skip = record { out_len = pos n; flags = flags; peek_skip = skip; tv = noon }

abbrev writing : List ℕ → ℕ → WriteCall
writing xs flags = record { input = xs; flags = flags; tv = noon }

fresh-IsValid : IsValid fresh
fresh-IsValid = omega arith

wrapped-IsValid : IsValid wrapped
wrapped-IsValid = omega arith

ring_new-fresh : ring_new 3 0 true true true true ≡ some fresh
unfolding ring_new add32
ring_new-fresh = refl

abbrev one_read : ReadRound
one_read = record {
  ring = ring_at 0 1 (8 ∷ 0 ∷ 0 ∷ 7 ∷ []);
  out = 7 ∷ [];
  signals = signal_writer ∷ signal_reader ∷ [];
  next = return (pos 1);
}

read-wrapped : read_round wrapped (reading 1 0 0) noon [] ≡ some one_read
unfolding read_round cur_can_read cur_need_read really_read copy_out advance_cur finish_read
    read_after has to_int add32 sub32 ◌-ℤ◌
read-wrapped = refl

abbrev two_written : WriteRound
two_written = record {
  ring = ring_at 0 2 (5 ∷ 6 ∷ 0 ∷ 0 ∷ []);
  already = 2;
  signals = signal_reader ∷ signal_writer ∷ [];
  next = return (pos 2);
}

write-fresh : write_round fresh (writing (5 ∷ 6 ∷ []) 0) noon 0 ≡ some two_written
unfolding write_round cur_can_write skip_input cur_need_write really_write copy_in advance_end
    finish_write write_after has to_int add32 sub32
write-fresh = refl

abbrev then_read : ReadRound
then_read = record {
  ring = ring_at 1 2 (5 ∷ 6 ∷ 0 ∷ 0 ∷ []);
  out = 5 ∷ [];
  signals = signal_writer ∷ signal_reader ∷ [];
  next = return (pos 1);
}

read-written : read_round two_written.ring (reading 1 0 0) noon [] ≡ some then_read
unfolding read_round cur_can_read cur_need_read really_read copy_out advance_cur finish_read
    read_after has to_int add32 sub32 ◌-ℤ◌
read-written = refl

-- Five bytes into a ring for three, replacing: the last three stay.
replaced :
    ring_write [] fresh (1 ∷ 2 ∷ 3 ∷ 4 ∷ 5 ∷ []) 2 noon noon
    ≡ returned (ring_at 0 3 (3 ∷ 4 ∷ 5 ∷ 0 ∷ []), pos 5)
unfolding ring_write write_round cur_can_write skip_input cur_need_write really_write copy_in
    advance_end finish_write write_after has to_int add32 sub32 write_settle
replaced = refl

-- A read past the prologue's limits returns 0 at once.
peek_refused : ring_read [] wrapped 1 8 noon noon (pos 3) ≡ returned (wrapped, [], pos 0)
unfolding ring_read has sub32
peek_refused = refl

wrapped-IsReading : (n flags : ℕ) → IsReading wrapped (reading n flags 0) n []
wrapped-IsReading n flags = record {
  valid = wrapped-IsValid;
  asked = refl;
  skip_in = omega arith;
  got = omega arith;
}

ring_fifo_example : (◌≡◌ {A = List ℕ} (5 ∷ 6 ∷ []) (5 ∷ 6 ∷ [])) × IsValid then_read.ring
unfolding has
ring_fifo_example = ring_fifo 3 0 true true true true (omega arith) (omega arith) ring_new-fresh (
    next
      (next here (
        writes (writing (5 ∷ 6 ∷ []) 0) noon 0 two_written (omega arith) (omega arith) refl
          write-fresh refl))
      (reads (reading 1 0 0) 1 noon [] then_read (5 ∷ []) refl (omega arith) refl refl read-written
        refl refl))

read_round-takes_example :
    (round : ReadRound) × (read_round wrapped (reading 1 0 0) noon [] ≡ some round)
    × (round.out ≡ 7 ∷ [])
    × (contents round.ring ≡ 8 ∷ [])
    × IsValid round.ring
unfolding has
read_round-takes_example = read_round-takes noon (wrapped-IsReading 1 0) refl refl

-- A peek past the wrap would start outside the buffer.
abbrev two_past : Ring
two_past = ring_at 2 1 (8 ∷ 0 ∷ 6 ∷ 7 ∷ [])

peeking : (skip : ℕ) → skip < 4 → IsReading two_past (reading 1 8 skip) 1 []
peeking skip h = record { valid = omega arith; asked = refl; skip_in = h; got = omega arith }

read_round_peek_fault_example : read_round two_past (reading 1 8 2) noon [] ≡ none
unfolding has
read_round_peek_fault_example =
    read_round_peek_fault noon (peeking 2 (omega arith)) (omega arith) (omega arith)

abbrev wakes : List Wake
wakes = record { found = wrapped; now = noon; timed_out = false } ∷ []

read_loop-Sound_example : Returns (Sound 3) (read_loop wakes wrapped (reading 3 4 0) noon [])
unfolding has
read_loop-Sound_example =
    read_loop-Sound wakes wrapped (reading 3 4 0) 3 noon [] (wrapped-IsReading 3 4) refl refl
      (wrapped-IsValid, tt)

read_loop-Ends_example : Ends (Sound 3) (read_loop wakes wrapped (reading 3 1 0) noon [])
unfolding has
read_loop-Ends_example =
    read_loop-Ends wakes wrapped (reading 3 1 0) 3 noon [] (wrapped-IsReading 3 1) refl refl
      (inl refl)

into :
    (r : Ring) (xs : List ℕ) (flags : ℕ)
    → IsValid r
    → r.is_destroy ≢ 1
    → length xs < 2 ^ 31
    → IsWriting r (writing xs flags) 0
into r xs flags v e h = record { valid = v; open_ring = e; short = h; within = omega arith }

write_round-appends_example :
    (round : WriteRound) × (write_round wrapped (writing (1 ∷ 2 ∷ []) 0) noon 0 ≡ some round)
    × IsValid round.ring
    × (contents round.ring ≡ 7 ∷ 8 ∷ 1 ∷ [])
    × (round.already ≡ 1)
unfolding has
write_round-appends_example =
    write_round-appends noon
      (into wrapped (1 ∷ 2 ∷ []) 0 wrapped-IsValid (λ e. omega arith) (omega arith)) refl

write_round-replaces_example :
    (round : WriteRound) × (write_round wrapped (writing (1 ∷ 2 ∷ 3 ∷ []) 2) noon 0 ≡ some round)
    × IsValid round.ring
    × (contents round.ring ≡ 1 ∷ 2 ∷ 3 ∷ [])
    × (round.already ≡ 3)
unfolding has
write_round-replaces_example =
    write_round-replaces noon
      (into wrapped (1 ∷ 2 ∷ 3 ∷ []) 2 wrapped-IsValid (λ e. omega arith) (omega arith)) refl
      (inr (omega arith))

write_round-overflows_example :
    write_round (ring_at 3 2 (8 ∷ 9 ∷ 0 ∷ 7 ∷ [])) (writing (1 ∷ 2 ∷ 3 ∷ []) 2) noon 0 ≡ none
unfolding has
write_round-overflows_example =
    write_round-overflows noon
      (into (ring_at 3 2 (8 ∷ 9 ∷ 0 ∷ 7 ∷ [])) (1 ∷ 2 ∷ 3 ∷ []) 2 (omega arith) (λ e. omega arith)
        (omega arith))
      refl (omega arith) (omega arith)

abbrev morning : Timeval
morning = record { tv_sec = 9; tv_usec = 0 }
