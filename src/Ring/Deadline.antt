-- ===== src/Ring/Deadline.antt =====
-- The deadlines of `ring_read` and `ring_write`, moon_code/ring_buffer/src/ring_buffer.c.
use moon_in_water.Prelude.{ℕ, ◌<◌, ◌≡◌, ◌↔◌, arith, true, false, ◌≢◌}
use moon_in_water.Ring.{Ring, has, ring_replace_old, ring_nowait, ring_waitall, ring_timeout}
use moon_in_water.Ring.Time.{Timeval, tv_compare_lem, micros, IsNormal}
use moon_in_water.Ring.Read.{ReadCall, wait_until, read_short}
use moon_in_water.Ring.Write.{WriteCall, write_short}

-- A write that finds too little room, may wait and has a time limit waits exactly when the limit is
-- already past; while there is time left it returns at once.
pub write_short_deadline :
    (r : Ring) (c : WriteCall) (now : Timeval) (already : ℕ)
    → IsNormal c.tv
    → IsNormal now
    → has c.flags ring_replace_old ≡ false
    → has c.flags ring_nowait ≡ false
    → has r.flags ring_nowait ≡ false
    → has c.flags ring_waitall ≡ true
    → has c.flags ring_timeout ≡ true
    → (write_short r c now already ≡ wait_until) ↔ (micros c.tv < micros now)
unfolding write_short
write_short_deadline r c now already n1 n2 a b d w t = ground (arith, tv_compare_lem c.tv now n1 n2)

-- A read that finds too few bytes, may wait and has a time limit waits exactly while there is time
-- left.
pub read_short_deadline :
    (r : Ring) (c : ReadCall) (now : Timeval) (already : ℕ)
    → IsNormal c.tv
    → IsNormal now
    → r.is_destroy ≢ 1
    → has c.flags ring_nowait ≡ false
    → has r.flags ring_nowait ≡ false
    → has c.flags ring_waitall ≡ true
    → has c.flags ring_timeout ≡ true
    → ((read_short r c now already).0 ≡ wait_until) ↔ (micros now < micros c.tv)
unfolding read_short
read_short_deadline r c now already n1 n2 a b d w t = ground (arith, tv_compare_lem now c.tv n2 n1)
