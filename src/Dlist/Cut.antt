-- ===== src/Dlist/Cut.antt =====
-- `dlist_cut` on nodes in a row that begins and ends with NULL.
use moon_in_water.Prelude.{ℕ, ◌≡◌, ◌≢◌, refl, sym, subst, List, [], ◌∷◌, ◌==◌, arith, false}
use moon_in_water.Dlist.{Store, set_prev, set_next, null, dlist_cut}
use moon_in_water.Dlist.Chain.{
  last, IsChain, IsChain-split, IsRow-split, set_prev-IsChain, set_next-IsChain,
}
use moon_in_water.Dlist.Splice.{IsList}
use moon_in_water.Dlist.Unlink.{
  last_apart, last-IsApart, link_last, link_first, last_not_null, row_null,
}

cut_front : (s : Store) (d : ℕ) → (s d).prev ≡ null → dlist_cut s d ≡ s
unfolding dlist_cut
cut_front s d e = rw e refl

cut_inner :
    (s : Store) (d b : ℕ)
    → b ≢ null
    → (s d).prev ≡ b
    → dlist_cut s d ≡ set_prev (set_next s b null) d null
unfolding dlist_cut
cut_inner s d b b0 e = let test : (b == null) ≡ false = ground arith in rw (e, test) refl

-- `dlist_cut` parts a list into the nodes before the one given, and that one with the nodes behind it.
pub dlist_cut-IsChain :
    (s : Store) (xs : List ℕ) (d : ℕ) (ys : List ℕ)
    → IsList s xs d ys
    → IsChain (dlist_cut s d) null xs null × IsChain (dlist_cut s d) null (d ∷ ys) null
dlist_cut-IsChain s [] d ys l =
    (tt, subst (λ t. IsChain t null (d ∷ ys) null) (sym (cut_front s d l.chain.0)) l.chain)
dlist_cut-IsChain s (x ∷ xs) d ys l =
    let (left, right) = IsChain-split s null (x ∷ xs) d ys null l.chain in
    let (rx, dx, d0, dy, ry) = IsRow-split (x ∷ xs) d ys l.row in
    let b = last x xs in
    let d_b : d ≢ b = λ e. last_apart d x xs dx.0 dx.1 (sym e) in
    let ys_b = last-IsApart null (x ∷ xs) d ys l.row (row_null ys ry) in
    let s1 = set_next s b null in
    subst (λ t. IsChain t null (x ∷ xs) null × IsChain t null (d ∷ ys) null)
      (sym (cut_inner s d b (last_not_null x xs rx) right.0))
      (
        set_prev-IsChain s1 d null null (x ∷ xs) null dx (link_last s null x xs d null rx left),
        link_first s1 b d ys null null (d0, dy, ry)
            (set_next-IsChain s b null b (d ∷ ys) null (d_b, ys_b) right),
      )
