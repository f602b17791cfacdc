-- ===== src/Ring/Time.antt =====
-- The two functions on `struct timeval` of ring_buffer.c.
use moon_in_water.Prelude.{
  ℕ, ◌+◌, ◌*◌, ◌/◌, ◌%◌, ◌≤◌, ◌<◌, ◌≡◌, ◌↔◌, arith, ltb, leb, if◌then◌else◌, ℤ, pos, negsuc, leb_ℤ,
  true,
}

pub record Timeval : Type 0 where
  pub tv_sec : ℕ
  pub tv_usec : ℕ

-- `tv_addup`: the new `*dst`.
pub tv_addup : Timeval → Timeval → Timeval
tv_addup dst src =
    let sec = dst.tv_sec + src.tv_sec in
    let usec = dst.tv_usec + src.tv_usec in
    if leb 1000000 usec
    then record { tv_sec = sec + usec / 1000000; tv_usec = usec % 1000000 }
    else record { tv_sec = sec; tv_usec = usec }

pub tv_compare : Timeval → Timeval → ℤ
tv_compare tv1 tv2 =
    if ltb tv2.tv_sec tv1.tv_sec
    then pos 1
    else if ltb tv1.tv_sec tv2.tv_sec
    then negsuc 0
    else if ltb tv2.tv_usec tv1.tv_usec
    then pos 1
    else if ltb tv1.tv_usec tv2.tv_usec
    then negsuc 0
    else pos 0

abbrev pub micros : Timeval → ℕ
micros tv = tv.tv_sec * 1000000 + tv.tv_usec

abbrev pub IsNormal : Timeval → Type 0
IsNormal tv = tv.tv_usec < 1000000

-- A deadline is the sum of its two times, and is normal whatever the two were.
pub tv_addup_lem :
    (dst src : Timeval)
    → (micros (tv_addup dst src) ≡ micros dst + micros src) × IsNormal (tv_addup dst src)
unfolding tv_addup
tv_addup_lem dst src = ground arith

-- Of two normal times, the comparison is at least 0 exactly when the first is not before the second.
pub tv_compare_lem :
    (tv1 tv2 : Timeval)
    → IsNormal tv1
    → IsNormal tv2
    → (leb_ℤ (pos 0) (tv_compare tv1 tv2) ≡ true) ↔ (micros tv2 ≤ micros tv1)
unfolding tv_compare
tv_compare_lem tv1 tv2 h1 h2 = ground arith
