-- ===== src/Ring/Copy.antt =====
-- What the `memcpy` calls of `ring_read` and `ring_write` move: the bytes met going round the ring.
use moon_in_water.Prelude.{
  ℕ, ◌+◌, ◌-◌, ◌%◌, ◌≤◌, ◌<◌, ◌≡◌, sym, ap, ap₂, ◌∙◌, none, some, List, ◌++◌, arith, mod-eq_of_lt,
  mod-eq-sub-mod, length, take, drop, sub32, sub32_small,
}
use moon_in_water.Ring.{Ring}
use moon_in_water.Ring.Memory.{
  bytes_at, put_bytes, copy_from, copy_to, window, window-straight, window-append, take-window,
  drop-window,
}
use moon_in_water.Ring.Read.{copy_out}
use moon_in_water.Ring.Valid.{IsValid, count, contents, count_forward}

-- The bytes past the first `skip`, as a window.
pub take-drop-contents :
    {r : Ring} (skip n : ℕ)
    → IsValid r
    → skip + n ≤ count r
    → take n (drop skip (contents r)) ≡ window r.buffer r.size ((r.cur + skip) % r.size) n
take-drop-contents {r} skip n v h =
    let e : count r ≡ skip + (n + (count r - (skip + n))) = omega arith in
    let rest = n + (count r - (skip + n)) in
    ap (λ k. take n (drop skip (window r.buffer r.size r.cur k))) e
    ∙ ap (take n) (drop-window r.buffer r.size r.cur skip rest v.cur_in)
    ∙ take-window r.buffer r.size ((r.cur + skip) % r.size) n (count r - (skip + n))

tmp-eq : {r : Ring} → IsValid r → sub32 r.size r.cur ≡ r.size - r.cur
tmp-eq v = sub32_small _ _ (omega arith) (omega arith)

-- Reading in two pieces round the end of the buffer.
window-split :
    (buf : List ℕ) (size i n : ℕ)
    → i < size
    → size - i ≤ n
    → n - (size - i) ≤ size
    → bytes_at buf i (size - i) ++ bytes_at buf 0 (n - (size - i)) ≡ window buf size i n
window-split buf size i n hi hn hs =
    let k = size - i in
    let e : k + (n - k) ≡ n = omega arith in
    let z : (i + k) % size ≡ 0 = omega (
      arith,
      mod-eq-sub-mod {n = i + k} {m = size} (omega arith),
      mod-eq_of_lt {n = i + k - size} {m = size} (omega arith),
    ) in
    ap₂ ◌++◌ (sym (window-straight buf size i k (omega arith))) (
      sym (window-straight buf size 0 (n - k) (omega arith))
      ∙ ap (λ j. window buf size j (n - k)) (sym z))
    ∙ sym (window-append buf size i k (n - k) hi)
    ∙ ap (window buf size i) e

copy_from-some :
    (buf : List ℕ) (i n : ℕ) → i + n ≤ length buf → copy_from buf i n ≡ some (bytes_at buf i n)
unfolding copy_from
copy_from-some buf i n h = ground arith

copy_to-some :
    (buf : List ℕ) (i : ℕ) (xs : List ℕ)
    → i + length xs ≤ length buf
    → copy_to buf i xs ≡ some (put_bytes buf i xs)
unfolding copy_to
copy_to-some buf i xs h = ground arith

-- A copy that starts inside the buffer gives the unread bytes past the skipped ones.
pub copy_out-some :
    {r : Ring} (skip n : ℕ)
    → IsValid r
    → 0 < n
    → skip + n ≤ count r
    → r.cur + skip < r.size
    → copy_out r skip n ≡ some (take n (drop skip (contents r)))
unfolding copy_out
copy_out-some {r} skip n v pos_n h inside =
    let at : (r.cur + skip) % r.size ≡ r.cur + skip = mod-eq_of_lt inside in
    let view = take-drop-contents skip n v h ∙ ap (λ k. window r.buffer r.size k n) at in
    ground (
      arith,
      tmp-eq v,
      view,
      count_forward r.size r.cur r.«end»,
      copy_from-some r.buffer (r.cur + skip) (r.size - r.cur - skip),
      copy_from-some r.buffer 0 (n - (r.size - r.cur - skip)),
      copy_from-some r.buffer (r.cur + skip) n,
      window-split r.buffer r.size (r.cur + skip) n,
      window-straight r.buffer r.size (r.cur + skip) n,
    )

-- A copy that would start past the end of the buffer is an access outside it.
pub copy_out-none :
    {r : Ring} (skip n : ℕ)
    → IsValid r
    → 0 < n
    → skip + n ≤ count r
    → r.size ≤ r.cur + skip
    → copy_out r skip n ≡ none
unfolding copy_out copy_from
copy_out-none {r} skip n v pos_n h outside = ground (arith, tmp-eq v)
