-- ===== src/Ring.antt =====
-- moon_code/ring_buffer/src/ring_buffer.c: the ring's state, its flags, and the functions that create, close
-- and count references to it. The children hold the loops of `ring_read` and `ring_write`.
pub mod Memory
pub mod Time
pub mod Read
pub mod Write
pub mod Valid
pub mod Copy
pub mod Store
pub mod Deliver
pub mod Answer
pub mod Accept
pub mod Keep
pub mod New
pub mod Stream
pub mod Deadline
mod Tests
use moon_in_water.Prelude.{
  ℕ, zero, suc, ◌+◌, ◌-◌, ◌%◌, ◌^◌, ◌≡◌, Bool, true, false, not, ◌&&◌, Option, none, some, List, [],
  ◌∷◌, ℤ, pos, negsuc, ◌+ℤ◌, ◌-ℤ◌, leb_ℤ, ltb_ℤ, ltb, ◌==◌, if◌then◌else◌, bit_and, add32,
  add32_small, ◌<◌, ◌≤◌, arith, refl, length,
}

-- The enumeration of ring_buffer.h.
abbrev pub ring_nowait : ℕ
ring_nowait = 0x1

abbrev pub ring_replace_old : ℕ
ring_replace_old = 0x2

abbrev pub ring_waitall : ℕ
ring_waitall = 0x4

abbrev pub ring_peek : ℕ
ring_peek = 0x8

abbrev pub ring_timeout : ℕ
ring_timeout = 0x10

abbrev pub ring_msgmode : ℕ
ring_msgmode = 0x20

-- `flags & bit` as a test.
unfoldable pub has : ℕ → ℕ → Bool
has flags bit = not (bit_and flags bit == 0)

-- `struct ring_s`. The mutex is held over each round, so it leaves no trace; a signal on one of the
-- two condition variables is listed by the operation that sends it.
pub record Ring : Type 0 where
  pub ref_num : ℤ
  pub is_destroy : ℕ
  pub cur : ℕ
  pub «end» : ℕ
  pub size : ℕ
  pub flags : ℕ
  pub buffer : List ℕ

pub data Signal : Type 0 where
  signal_reader signal_writer broadcast_reader broadcast_writer : Signal

abbrev pub zeros : ℕ → List ℕ
zeros zero = []
zeros (suc n) = 0 ∷ zeros n

-- `ring_new`: each test is whether the allocator or an initialiser succeeds. The entity is zeroed,
-- and its size is computed in `size_t`, while the field `length` is an `unsigned`.
unfoldable pub ring_new : ℕ → ℕ → Bool → Bool → Bool → Bool → Option Ring
ring_new buffer_len flags allocated mutex_made reader_made writer_made =
    if allocated && mutex_made && reader_made && writer_made
    then some (record {
      ref_num = pos 1;
      is_destroy = 0;
      cur = 0;
      «end» = 0;
      size = add32 buffer_len 1;
      flags = flags;
      buffer = zeros (buffer_len + 1);
    })
    else none

unfoldable pub ring_close : Ring → Ring × List Signal
ring_close r =
    if r.is_destroy == 0
    then (record r { is_destroy = 1 }, broadcast_reader ∷ broadcast_writer ∷ [])
    else (r, [])

unfoldable pub ring_ref_inc : Ring → Ring
ring_ref_inc r = record r { ref_num = r.ref_num +ℤ pos 1 }

-- What `ring_ref_dec` does beside the count.
pub data Release : Type 0 where
  kept freed freed_not_closed underflow : Release

unfoldable pub ring_ref_dec : Ring → Ring × Release
ring_ref_dec r =
    let ref_num = r.ref_num -ℤ pos 1 in
    let r' = record r { ref_num = ref_num } in
    if ltb_ℤ (pos 0) ref_num
    then (r', kept)
    else if leb_ℤ (pos 0) ref_num
    then (r', if r.is_destroy == 0 then freed_not_closed else freed)
    else (r', underflow)
