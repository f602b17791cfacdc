-- ===== src/Dlist/Splice.antt =====
-- The list operations on nodes in a row that begins and ends with NULL.
use moon_in_water.Prelude.{ℕ, ◌≡◌, ◌≢◌, refl, sym, ap, ◌∙◌, List, [], ◌∷◌, ◌++◌, ◌==◌, arith, false}
use moon_in_water.Dlist.{Links, Store, set_prev, set_next, null, dlist_append}
use moon_in_water.Dlist.Chain.{
  last, IsChain, IsApart, IsRow, IsChain-split, IsChain-join, IsApart-split, IsRow-split,
  set_prev-same, set_next-same, set_prev_other, set_next_other, set_prev-IsChain, set_next-IsChain,
}

-- The end of a row that is not empty is one of its nodes.
last-apart : (a x : ℕ) (xs : List ℕ) → x ≢ a → IsApart a xs → last x xs ≢ a
last-apart a x [] h k = h
last-apart a x (y ∷ xs) h k = last-apart a y xs k.0 k.1

last-null : (x : ℕ) (xs : List ℕ) → x ≢ null → IsRow xs → last x xs ≢ null
last-null x [] h r = h
last-null x (y ∷ xs) h r = last-null y xs r.0 r.2

-- The row `xs ++ h ∷ ys`, ended by NULL on both sides, and a node `d` apart from it.
pub record IsList (s : Store) (xs : List ℕ) (h : ℕ) (ys : List ℕ) : Type 0 where
  pub row : IsRow (xs ++ h ∷ ys)
  pub chain : IsChain s null (xs ++ h ∷ ys) null

-- The node behind another stands apart from those before it.
pub next-IsApart : (xs : List ℕ) (h y : ℕ) (ys : List ℕ) → IsRow (xs ++ h ∷ y ∷ ys) → IsApart y xs
next-IsApart [] h y ys r = tt
next-IsApart (x ∷ xs) h y ys (r0, r1, r2) =
    let (a, b, c) = IsApart-split x xs h (y ∷ ys) r1 in
    (λ e. c.0 (sym e), next-IsApart xs h y ys r2)

-- `dlist_append` at the last node, and at one with a node behind it.
append_end :
    (s : Store) (h d : ℕ)
    → h ≢ null
    → h ≢ d
    → (s h).next ≡ null
    → dlist_append s h d ≡ set_next (set_prev s d h) h d
unfolding dlist_append
append_end s h d h0 hd e =
    let some_h : (h == null) ≡ false = ground arith in
    let after : (set_prev s d h h).next ≡ null =
      ap (λ (k : Links). k.next) (set_prev_other s d h h hd) ∙ e in
    rw (some_h, after) refl

append_inner :
    (s : Store) (h d y : ℕ)
    → h ≢ null
    → h ≢ d
    → y ≢ null
    → (s h).next ≡ y
    → dlist_append s h d ≡ set_next (set_prev (set_next (set_prev s d h) d y) y d) h d
unfolding dlist_append
append_inner s h d y h0 hd y0 e =
    let some_h : (h == null) ≡ false = ground arith in
    let some_y : (y == null) ≡ false = ground arith in
    let after : (set_prev s d h h).next ≡ y =
      ap (λ (k : Links). k.next) (set_prev_other s d h h hd) ∙ e in
    rw (some_h, after, some_y) refl

-- `dlist_append` puts a node of no list behind a node of a list, and leaves the rest in its order.
pub dlist_append-IsChain :
    (s : Store) (xs : List ℕ) (h : ℕ) (ys : List ℕ) (d : ℕ)
    → IsList s xs h ys
    → d ≢ null
    → IsApart d (xs ++ h ∷ ys)
    → (s d).next ≡ null
    → IsChain (dlist_append s h d) null (xs ++ h ∷ d ∷ ys) null
dlist_append-IsChain s xs h [] d l some_d apart clean =
    let (left, (b1, b2, b3)) = IsChain-split s null xs h [] null l.chain in
    let (rx, hx, h0, hy, ry) = IsRow-split xs h [] l.row in
    let (ax, hd, ay) = IsApart-split d xs h [] apart in
    let dh : d ≢ h = λ e. hd (sym e) in
    let s1 = set_prev s d h in
    rw (append_end s h d h0 hd b2) (
      IsChain-join (set_next s1 h d) null xs h (d ∷ []) null
        (set_next-IsChain s1 h d null xs h hx (set_prev-IsChain s d h null xs h ax left))
        (
          rw (set_next-same s1 h d, set_prev_other s d h h hd) b1,
          rw (set_next-same s1 h d) refl,
          (
            rw (set_next_other s1 h d d dh, set_prev-same s d h) refl,
            rw (set_next_other s1 h d d dh, set_prev-same s d h) clean,
            tt,
          ),
        ))
dlist_append-IsChain s xs h (y ∷ ys) d l some_d apart clean =
    let (left, (b1, b2, (c1, c2, c3))) = IsChain-split s null xs h (y ∷ ys) null l.chain in
    let (rx, hx, h0, hy, ry) = IsRow-split xs h (y ∷ ys) l.row in
    let (ax, hd, ay) = IsApart-split d xs h (y ∷ ys) apart in
    let yx : IsApart y xs = next-IsApart xs h y ys l.row in
    let dh : d ≢ h = λ e. hd (sym e) in
    let dy : d ≢ y = λ e. ay.0 (sym e) in
    let hy' : h ≢ y = λ e. hy.0 (sym e) in
    let s1 = set_prev s d h in
    let s2 = set_next s1 d y in
    let s3 = set_prev s2 y d in
    let at_h : s3 h ≡ s h =
      set_prev_other s2 y d h hy' ∙ set_next_other s1 d y h hd ∙ set_prev_other s d h h hd in
    let at_d : s3 d ≡ record { prev = h; next = y } =
      set_prev_other s2 y d d dy
      ∙ set_next-same s1 d y
      ∙ ap (λ (k : Links). record k { next = y }) (set_prev-same s d h) in
    let at_y : s3 y ≡ record (s y) { prev = d } =
      set_prev-same s2 y d
      ∙ ap (λ (k : Links). record k { prev = d })
          (set_next_other s1 d y y ay.0 ∙ set_prev_other s d h y ay.0) in
    rw (append_inner s h d y h0 hd ry.0 b2) (
      IsChain-join (set_next s3 h d) null xs h (d ∷ y ∷ ys) null
        (set_next-IsChain s3 h d null xs h hx (
          set_prev-IsChain s2 y d null xs h yx
            (set_next-IsChain s1 d y null xs h ax (set_prev-IsChain s d h null xs h ax left))))
        (
          rw (set_next-same s3 h d, at_h) b1,
          rw (set_next-same s3 h d) refl,
          (
            rw (set_next_other s3 h d d dh, at_d) refl,
            rw (set_next_other s3 h d d dh, at_d) refl,
            (
              rw (set_next_other s3 h d y hy.0, at_y) refl,
              rw (set_next_other s3 h d y hy.0, at_y) c2,
              set_next-IsChain s3 h d y ys null hy.1 (
                  set_prev-IsChain s2 y d y ys null ry.1 (
                    set_next-IsChain s1 d y y ys null ay.1
                      (set_prev-IsChain s d h y ys null ay.1 c3))),
            ),
          ),
        ))
