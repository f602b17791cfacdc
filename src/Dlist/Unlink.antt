-- ===== src/Dlist/Unlink.antt =====
-- `dlist_del` on nodes in a row that begins and ends with NULL.
use moon_in_water.Prelude.{
  ℕ, ◌≡◌, ◌≢◌, refl, sym, ap, ◌∙◌, subst, List, [], ◌∷◌, ◌++◌, ◌==◌, arith, false, append-nil,
  Bool-cases, inl, inr,
}
use moon_in_water.Dlist.{
  Links, Store, set_prev, set_next, set_prev_if, set_next_if, null, dlist_del,
}
use moon_in_water.Dlist.Chain.{
  first, last, IsChain, IsApart, IsRow, IsChain-split, IsChain-join, IsApart-split, IsRow-split,
  set_prev-same, set_next-same, set_prev_other, set_next_other, set_prev-IsChain, set_next-IsChain,
}
use moon_in_water.Dlist.Splice.{IsList, next-IsApart}

-- The end of a row that is not empty is one of its nodes.
pub last_apart : (a x : ℕ) (xs : List ℕ) → x ≢ a → IsApart a xs → last x xs ≢ a
last_apart a x [] h k = h
last_apart a x (y ∷ xs) h k = last_apart a y xs k.0 k.1

pub last_not_null : (x : ℕ) (xs : List ℕ) → IsRow (x ∷ xs) → last x xs ≢ null
last_not_null x [] r = r.0
last_not_null x (y ∷ xs) r = last_not_null y xs r.2

pub row_null : (xs : List ℕ) → IsRow xs → IsApart null xs
row_null [] r = tt
row_null (x ∷ xs) r = (r.0, row_null xs r.2)

-- The nodes behind `d` stand apart from the last one before it.
pub last-IsApart :
    (p : ℕ) (xs : List ℕ) (d : ℕ) (ys : List ℕ)
    → IsRow (xs ++ d ∷ ys)
    → IsApart p ys
    → IsApart (last p xs) ys
last-IsApart p [] d ys r h = h
last-IsApart p (x ∷ xs) d ys (r0, r1, r2) h =
    last-IsApart x xs d ys r2 (IsApart-split x xs d ys r1).2

first-IsApart :
    (xs : List ℕ) (d : ℕ) (ys : List ℕ) → IsRow (xs ++ d ∷ ys) → IsApart (first ys null) xs
first-IsApart xs d [] r = row_null xs (IsRow-split xs d [] r).0
first-IsApart xs d (y ∷ ys) r = next-IsApart xs d y ys r

first_other : (d : ℕ) (ys : List ℕ) → IsApart d ys → d ≢ null → d ≢ first ys null
first_other d [] h k = k
first_other d (y ∷ ys) h k = λ e. h.0 (sym e)

IsApart-append : (a : ℕ) (xs ys : List ℕ) → IsApart a xs → IsApart a ys → IsApart a (xs ++ ys)
IsApart-append a [] ys h k = k
IsApart-append a (x ∷ xs) ys h k = (h.0, IsApart-append a xs ys h.1 k)

-- A row ends before another node once its last node is linked to it.
pub link_last :
    (s : Store) (p x : ℕ) (xs : List ℕ) (n m : ℕ)
    → IsRow (x ∷ xs)
    → IsChain s p (x ∷ xs) n
    → IsChain (set_next s (last x xs) m) p (x ∷ xs) m
link_last s p x [] n m r (a, b, c) = (rw (set_next-same s x m) a, rw (set_next-same s x m) refl, tt)
link_last s p x (y ∷ xs) n m (r0, r1, r2) (a, b, c) =
    let d : x ≢ last y xs = λ e. last_apart x y xs r1.0 r1.1 (sym e) in
    let same = set_next_other s (last y xs) m x d in
    (rw same a, rw same b, link_last s x y xs n m r2 c)

-- A row begins behind another node once its first node is linked back to it.
pub link_first :
    (s : Store) (p y : ℕ) (ys : List ℕ) (n q : ℕ)
    → IsRow (y ∷ ys)
    → IsChain s p (y ∷ ys) n
    → IsChain (set_prev s y q) q (y ∷ ys) n
link_first s p y ys n q r (a, b, c) =
    (rw (set_prev-same s y q) refl, rw (set_prev-same s y q) b, set_prev-IsChain s y q y ys n r.1 c)

set_next_if_some :
    (s : Store) (at value : ℕ) → at ≢ null → set_next_if s at value ≡ set_next s at value
unfolding set_next_if
set_next_if_some s at value h = let test : (at == null) ≡ false = ground arith in rw test refl

set_prev_if_some :
    (s : Store) (at value : ℕ) → at ≢ null → set_prev_if s at value ≡ set_prev s at value
unfolding set_prev_if
set_prev_if_some s at value h = let test : (at == null) ≡ false = ground arith in rw test refl

relink_last :
    (s : Store) (xs : List ℕ) (n m : ℕ)
    → IsRow xs
    → IsChain s null xs n
    → IsChain (set_next_if s (last null xs) m) null xs m
relink_last s [] n m r c = tt
relink_last s (x ∷ xs) n m r c =
    subst (λ t. IsChain t null (x ∷ xs) m)
      (sym (set_next_if_some s (last x xs) m (last_not_null x xs r)))
      (link_last s null x xs n m r c)

relink_first :
    (s : Store) (p : ℕ) (ys : List ℕ) (q : ℕ)
    → IsRow ys
    → IsChain s p ys null
    → IsChain (set_prev_if s (first ys null) q) q ys null
relink_first s p [] q r c = tt
relink_first s p (y ∷ ys) q r c =
    subst (λ t. IsChain t q (y ∷ ys) null) (sym (set_prev_if_some s y q r.0))
      (link_first s p y ys null q r c)

set_next_if-IsChain :
    (s : Store) (at value p : ℕ) (xs : List ℕ) (n : ℕ)
    → IsApart at xs
    → IsChain s p xs n
    → IsChain (set_next_if s at value) p xs n
unfolding set_next_if
set_next_if-IsChain s at value p xs n h c = elim (Bool-cases (at == null)) [
  | inl e ↦ rw e c
  | inr e ↦ rw e (set_next-IsChain s at value p xs n h c)
]

set_prev_if-IsChain :
    (s : Store) (at value p : ℕ) (xs : List ℕ) (n : ℕ)
    → IsApart at xs
    → IsChain s p xs n
    → IsChain (set_prev_if s at value) p xs n
unfolding set_prev_if
set_prev_if-IsChain s at value p xs n h c = elim (Bool-cases (at == null)) [
  | inl e ↦ rw e c
  | inr e ↦ rw e (set_prev-IsChain s at value p xs n h c)
]

set_next_if_other : (s : Store) (at value x : ℕ) → x ≢ at → set_next_if s at value x ≡ s x
unfolding set_next_if
set_next_if_other s at value x h = elim (Bool-cases (at == null)) [
  | inl e ↦ rw e refl
  | inr e ↦ rw e (set_next_other s at value x h)
]

set_prev_if_other : (s : Store) (at value x : ℕ) → x ≢ at → set_prev_if s at value x ≡ s x
unfolding set_prev_if
set_prev_if_other s at value x h = elim (Bool-cases (at == null)) [
  | inl e ↦ rw e refl
  | inr e ↦ rw e (set_prev_other s at value x h)
]

IsChain-append :
    (s : Store) (p : ℕ) (xs ys : List ℕ) (n : ℕ)
    → IsChain s p xs (first ys n)
    → IsChain s (last p xs) ys n
    → IsChain s p (xs ++ ys) n
IsChain-append s p xs [] n l r = subst (λ zs. IsChain s p zs n) (sym (append-nil xs)) l
IsChain-append s p xs (y ∷ ys) n l r = IsChain-join s p xs y ys n l r

-- The store that `dlist_del` leaves for a node between `before` and `after`.
abbrev unlinked : Store → ℕ → ℕ → ℕ → Store
unlinked s d before after =
    set_next (set_prev (set_prev_if (set_next_if s before after) after before) d null) d null

dlist_del_lem :
    (s : Store) (d before after : ℕ)
    → (s d).prev ≡ before
    → (s d).next ≡ after
    → d ≢ before
    → d ≢ after
    → dlist_del s d ≡ (unlinked s d before after, after)
unfolding dlist_del
dlist_del_lem s d before after b1 b2 db da =
    let at_1 = set_next_if_other s before after d db in
    let at_2 = set_prev_if_other (set_next_if s before after) after before d da in
    rw (b1, b2, at_1, b1, b2, at_2, at_1, b2) refl

-- `dlist_del` takes a node out of its list and leaves the rest in its order; it gives the node behind,
-- and the links of the node are NULL.
pub dlist_del-IsChain :
    (s : Store) (xs : List ℕ) (d : ℕ) (ys : List ℕ)
    → IsList s xs d ys
    → IsChain (dlist_del s d).0 null (xs ++ ys) null
      × ((dlist_del s d).1 ≡ first ys null)
      × ((dlist_del s d).0 d ≡ record { prev = null; next = null })
dlist_del-IsChain s xs d ys l =
    let (left, (b1, b2, right)) = IsChain-split s null xs d ys null l.chain in
    let (rx, dx, d0, dy, ry) = IsRow-split xs d ys l.row in
    let before = last null xs in
    let after = first ys null in
    let null_d : null ≢ d = λ e. d0 (sym e) in
    let d_before : d ≢ before = λ e. last_apart d null xs null_d dx (sym e) in
    let d_after : d ≢ after = first_other d ys dy d0 in
    let s1 = set_next_if s before after in
    let s2 = set_prev_if s1 after before in
    let s3 = set_prev s2 d null in
    let ys_1 =
      set_next_if-IsChain s before after d ys null
        (last-IsApart null xs d ys l.row (row_null ys ry)) right in
    let xs_2 =
      set_prev_if-IsChain s1 after before null xs after (first-IsApart xs d ys l.row)
        (relink_last s xs d after rx left) in
    let ys_2 = relink_first s1 d ys before ry ys_1 in
    let both = IsChain-append s2 null xs ys null xs_2 ys_2 in
    subst
      (λ (o : Store × ℕ).
        IsChain o.0 null (xs ++ ys) null
        × (o.1 ≡ after)
        × (o.0 d ≡ record { prev = null; next = null }))
      (sym (dlist_del_lem s d before after b1 b2 d_before d_after))
      (
        set_next-IsChain s3 d null null (xs ++ ys) null (IsApart-append d xs ys dx dy)
            (set_prev-IsChain s2 d null null (xs ++ ys) null (IsApart-append d xs ys dx dy) both),
        refl,
        set_next-same s3 d null
            ∙ ap (λ (k : Links). record k { next = null }) (set_prev-same s2 d null),
      )
