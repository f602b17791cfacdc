-- ===== src/Dlist/Insert.antt =====
-- `dlist_insert` on nodes in a row that begins and ends with NULL.
use moon_in_water.Prelude.{
  ℕ, ◌≡◌, ◌≢◌, refl, sym, ap, subst, ◌∙◌, List, [], ◌∷◌, ◌++◌, ◌==◌, arith, false,
}
use moon_in_water.Dlist.{Links, Store, set_prev, set_next, null, dlist_insert}
use moon_in_water.Dlist.Chain.{
  last, IsChain, IsApart, IsChain-split, IsChain-join, IsApart-split, IsRow-split, set_prev-same,
  set_next-same, set_prev_other, set_next_other, set_prev-IsChain, set_next-IsChain,
}
use moon_in_water.Dlist.Splice.{IsList}
use moon_in_water.Dlist.Unlink.{last_apart, last-IsApart, link_last, last_not_null, row_null}

-- `dlist_insert` at the first node, and at one with a node before it.
insert_front :
    (s : Store) (h d : ℕ)
    → h ≢ null
    → h ≢ d
    → (s h).prev ≡ null
    → dlist_insert s h d ≡ set_prev (set_next s d h) h d
unfolding dlist_insert
insert_front s h d h0 hd e =
    let some_h : (h == null) ≡ false = ground arith in
    let before : (set_next s d h h).prev ≡ null =
      ap (λ (k : Links). k.prev) (set_next_other s d h h hd) ∙ e in
    rw (some_h, before) refl

insert_inner :
    (s : Store) (h d b : ℕ)
    → h ≢ null
    → h ≢ d
    → b ≢ null
    → (s h).prev ≡ b
    → dlist_insert s h d ≡ set_prev (set_next (set_prev (set_next s d h) d b) b d) h d
unfolding dlist_insert
insert_inner s h d b h0 hd b0 e =
    let some_h : (h == null) ≡ false = ground arith in
    let some_b : (b == null) ≡ false = ground arith in
    let before : (set_next s d h h).prev ≡ b =
      ap (λ (k : Links). k.prev) (set_next_other s d h h hd) ∙ e in
    rw (some_h, before, some_b) refl

-- `dlist_insert` puts a node of no list before a node of a list, and leaves the rest in its order.
pub dlist_insert-IsChain :
    (s : Store) (xs : List ℕ) (h : ℕ) (ys : List ℕ) (d : ℕ)
    → IsList s xs h ys
    → d ≢ null
    → IsApart d (xs ++ h ∷ ys)
    → (s d).prev ≡ null
    → IsChain (dlist_insert s h d) null (xs ++ d ∷ h ∷ ys) null
dlist_insert-IsChain s [] h ys d l some_d (hd, ay) clean =
    let (b1, b2, right) = l.chain in
    let (h0, hy, ry) = l.row in
    let dh : d ≢ h = λ e. hd (sym e) in
    let s1 = set_next s d h in
    let at_d = set_prev_other s1 h d d dh ∙ set_next-same s d h in
    let at_h =
      set_prev-same s1 h d
      ∙ ap (λ (k : Links). record k { prev = d }) (set_next_other s d h h hd) in
    subst (λ t. IsChain t null (d ∷ h ∷ ys) null) (sym (insert_front s h d h0 hd b1))
      (
        rw at_d clean,
        rw at_d refl,
        (
          rw at_h refl,
          rw at_h b2,
          set_prev-IsChain s1 h d h ys null hy (set_next-IsChain s d h h ys null ay right),
        ),
      )
dlist_insert-IsChain s (x ∷ xs) h ys d l some_d apart clean =
    let (left, (b1, b2, right)) = IsChain-split s null (x ∷ xs) h ys null l.chain in
    let (rx, hx, h0, hy, ry) = IsRow-split (x ∷ xs) h ys l.row in
    let (ax, hd, ay) = IsApart-split d (x ∷ xs) h ys apart in
    let dh : d ≢ h = λ e. hd (sym e) in
    let b = last x xs in
    let b0 : b ≢ null = last_not_null x xs rx in
    let db : d ≢ b = λ e. last_apart d x xs ax.0 ax.1 (sym e) in
    let hb : h ≢ b = λ e. last_apart h x xs hx.0 hx.1 (sym e) in
    let s1 = set_next s d h in
    let s2 = set_prev s1 d b in
    let s3 = set_next s2 b d in
    let at_d : set_prev s3 h d d ≡ record { prev = b; next = h } =
      set_prev_other s3 h d d dh
      ∙ set_next_other s2 b d d db
      ∙ set_prev-same s1 d b
      ∙ ap (λ (k : Links). record k { prev = b }) (set_next-same s d h) in
    let at_h : set_prev s3 h d h ≡ record (s h) { prev = d } =
      set_prev-same s3 h d
      ∙ ap (λ (k : Links). record k { prev = d })
          (set_next_other s2 b d h hb ∙ set_prev_other s1 d b h hd ∙ set_next_other s d h h hd) in
    subst (λ t. IsChain t null ((x ∷ xs) ++ d ∷ h ∷ ys) null)
      (sym (insert_inner s h d b h0 hd b0 b1))
      (IsChain-join (set_prev s3 h d) null (x ∷ xs) d (h ∷ ys) null
        (set_prev-IsChain s3 h d null (x ∷ xs) d hx (
          link_last s2 null x xs h d rx (
            set_prev-IsChain s1 d b null (x ∷ xs) h ax
              (set_next-IsChain s d h null (x ∷ xs) h ax left))))
        (
          rw at_d refl,
          rw at_d refl,
          (
            rw at_h refl,
            rw at_h b2,
            set_prev-IsChain s3 h d h ys null hy (
                set_next-IsChain s2 b d h ys null
                  (last-IsApart null (x ∷ xs) h ys l.row (row_null ys ry))
                  (set_prev-IsChain s1 d b h ys null ay
                    (set_next-IsChain s d h h ys null ay right))),
          ),
        ))
