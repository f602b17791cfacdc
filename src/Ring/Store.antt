-- ===== src/Ring/Store.antt =====
-- The unread bytes of a ring after the copies of `ring_write`,
-- moon_code/ring_buffer/src/ring_buffer.c.
use moon_in_water.Prelude.{
  ℕ, zero, suc, ◌+◌, ◌-◌, ◌%◌, ◌≤◌, ◌<◌, ◌≡◌, ◌≢◌, sym, ap, ap₂, ◌∙◌, ◌⊎◌, none, some, List, [],
  ◌∷◌, ◌++◌, arith, dec_lt, mod-add-mod, mod-eq_of_lt, mod-eq-sub-mod, add-zero, length, set, take,
  drop, length-set, length-take, length-drop, sub32, sub32_small, append-nil, append_assoc,
}
use moon_in_water.Ring.{Ring}
use moon_in_water.Ring.Memory.{
  put_bytes, copy_to, window, put_round, put_round-straight, length-put_bytes, get_or-set_self,
  get_or-set_ne, mod-shift,
}
use moon_in_water.Ring.Write.{copy_in}
use moon_in_water.Ring.Valid.{IsValid}

-- Writing in two pieces round the end of the buffer.
put_round-split :
    (k : ℕ) (buf : List ℕ) (size i : ℕ) (xs : List ℕ)
    → i + suc k ≡ size
    → suc k ≤ length xs
    → put_round buf size i xs
      ≡ put_round (put_bytes buf i (take (suc k) xs)) size 0 (drop (suc k) xs)
put_round-split k buf size i [] e h = absurd (omega arith)
put_round-split zero buf size i (x ∷ xs) e h =
    let z : (i + 1) % size ≡ 0 = omega (
      arith,
      mod-eq-sub-mod {n = i + 1} {m = size} (omega arith),
      mod-eq_of_lt {n = i + 1 - size} {m = size} (omega arith),
    ) in
    rw z
put_round-split (suc k) buf size i (x ∷ xs) e h =
    rw (mod-eq_of_lt {n = i + 1} {m = size} (omega arith))
      (put_round-split k (set buf i x) size (i + 1) xs (omega arith) (omega arith))

put_round_pieces :
    (buf : List ℕ) (size i : ℕ) (xs : List ℕ)
    → i < size
    → size - i ≤ length xs
    → length xs < size
    → put_round buf size i xs
      ≡ put_bytes (put_bytes buf i (take (size - i) xs)) 0 (drop (size - i) xs)
put_round_pieces buf size i xs h k l =
    let e : size - i ≡ suc (size - i - 1) = omega arith in
    rw e (
      put_round-split (size - i - 1) buf size i xs (omega arith) (omega arith)
      ∙ put_round-straight (put_bytes buf i (take (suc (size - i - 1)) xs)) size 0
          (drop (suc (size - i - 1)) xs) (omega (arith, length-drop (suc (size - i - 1)) xs)))

copy_to-some :
    (buf : List ℕ) (i : ℕ) (xs : List ℕ)
    → i + length xs ≤ length buf
    → copy_to buf i xs ≡ some (put_bytes buf i xs)
unfolding copy_to
copy_to-some buf i xs h = ground arith

-- The copies stay inside the buffer and go round it, where the source's test for going round is met
-- or nothing has to go round.
pub copy_in-some :
    {r : Ring} (xs : List ℕ)
    → IsValid r
    → length xs < r.size
    → ((r.cur ≤ r.«end») ⊎ (r.«end» + length xs ≤ r.size))
    → copy_in r xs ≡ some (put_round r.buffer r.size r.«end» xs)
unfolding copy_in
copy_in-some {r} xs v h fits =
    let tmp : sub32 r.size r.«end» ≡ r.size - r.«end» =
      sub32_small _ _ (omega arith) (omega arith) in
    ground (
      arith,
      tmp,
      length-take (r.size - r.«end») xs,
      length-drop (r.size - r.«end») xs,
      length-put_bytes r.buffer r.«end» (take (r.size - r.«end») xs),
      copy_to-some r.buffer r.«end» xs,
      copy_to-some r.buffer r.«end» (take (r.size - r.«end») xs),
      copy_to-some (put_bytes r.buffer r.«end» (take (r.size - r.«end») xs)) 0
          (drop (r.size - r.«end») xs),
      put_round_pieces r.buffer r.size r.«end» xs,
      put_round-straight r.buffer r.size r.«end» xs,
    )

-- Otherwise the one copy runs over the end of the buffer.
pub copy_in-none :
    {r : Ring} (xs : List ℕ)
    → IsValid r
    → r.«end» < r.cur
    → r.size < r.«end» + length xs
    → copy_in r xs ≡ none
unfolding copy_in copy_to
copy_in-none {r} xs v h over = ground arith

add-mod-ne : (size h k : ℕ) → h < size → suc k < size → (h + suc k) % size ≢ h
add-mod-ne size h k hh hk = elim (dec_lt (h + suc k) size) [
  | yes p ↦ omega (arith, mod-eq_of_lt p)
  | no p ↦ omega (
    arith,
    mod-eq-sub-mod {n = h + suc k} {m = size} (omega arith),
    mod-eq_of_lt {n = h + suc k - size} {m = size} (omega arith),
  )
]

-- One byte written where a window ends makes it longer by that byte.
window-set :
    (buf : List ℕ) (size x n h i : ℕ)
    → size ≤ length buf
    → h < size
    → n < size
    → i ≡ (h + n) % size
    → window (set buf i x) size h (suc n) ≡ window buf size h n ++ x ∷ []
window-set buf size x zero h i hs hh hn e =
    rw (e, add-zero, mod-eq_of_lt hh, get_or-set_self buf h x 0 (omega arith))
window-set buf size x (suc n) h i hs hh hn e =
    let apart : i ≢ h = rw e (add-mod-ne size h n hh hn) in
    ap₂ ◌∷◌ (get_or-set_ne buf i h x 0 apart) (
      window-set buf size x n ((h + 1) % size) i hs (omega arith) (omega arith)
        (e ∙ sym (mod-shift h n size)))

next_index : (size h n i : ℕ) → i ≡ (h + n) % size → (i + 1) % size ≡ (h + suc n) % size
next_index size h n i e = rw (e, mod-add-mod) (ap (λ k. k % size) (omega arith))

-- The bytes that are pushed out when `m` more come to `n`.
abbrev pub excess : ℕ → ℕ → ℕ → ℕ
excess size n m = n + m - (size - 1)

-- Bytes written from the end of a window on: the window slides by what does not fit.
pub window-put_round :
    (xs buf : List ℕ) (size h n i : ℕ)
    → size ≤ length buf
    → h < size
    → n < size
    → i ≡ (h + n) % size
    → window
        (put_round buf size i xs)
        size
        ((h + excess size n (length xs)) % size)
        (n + length xs - excess size n (length xs))
      ≡ drop (excess size n (length xs)) (window buf size h n ++ xs)
window-put_round [] buf size h n i hs hh hn e =
    let none_out : excess size n 0 ≡ 0 = omega arith in
    let all : n + 0 - 0 ≡ n = omega arith in
    rw (none_out, all, add-zero, mod-eq_of_lt hh, append-nil)
window-put_round (x ∷ xs) buf size h n i hs hh hn e = elim (dec_lt (suc n) size) [
  | yes p ↦
      let fewer : excess size n (suc (length xs)) ≡ excess size (suc n) (length xs) = omega arith in
      let total : n + suc (length xs) ≡ suc n + length xs = omega arith in
      rw (fewer, total)
        (window-put_round xs (set buf i x) size h (suc n) ((i + 1) % size) (rw length-set hs) hh p
            (next_index size h n i e)
          ∙ ap (λ w. drop (excess size (suc n) (length xs)) (w ++ xs))
              (window-set buf size x n h i hs hh hn e)
          ∙ ap (drop (excess size (suc n) (length xs)))
              (append_assoc (window buf size h n) (x ∷ []) xs))
  | no p ↦
      let m = length xs in
      let all_out : excess size n (suc m) ≡ suc m = omega arith in
      let later_out : excess size n m ≡ m = omega arith in
      let kept : n + suc m - suc m ≡ n + m - m = omega arith in
      let slid =
        window-put_round xs (set buf i x) size ((h + 1) % size) n ((i + 1) % size)
          (rw length-set hs) (omega arith) hn
          (next_index size h n i e ∙ sym (mod-shift h n size)) in
      let joined : window buf size h n ++ x ∷ xs ≡ window (set buf i x) size h (suc n) ++ xs =
        sym (append_assoc (window buf size h n) (x ∷ []) xs)
        ∙ ap (λ w. w ++ xs) (sym (window-set buf size x n h i hs hh hn e)) in
      rw (all_out, kept, joined, ← mod-shift h m size) (rw later_out at slid)
]
