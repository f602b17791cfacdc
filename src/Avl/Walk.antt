-- ===== src/Avl/Walk.antt =====
-- The three traversals of moon_code/common/src/moon_avltree.c, and lists visited in their order.
use moon_in_water.Prelude.{
  zero, suc, ◌≡◌, refl, sym, ap, ◌∙◌, List, [], ◌∷◌, ◌++◌, arith, if◌then◌else◌, Bool-cases, inl,
  inr, ℤ, pos, negsuc, eqb_ℤ,
}
use moon_in_water.Avl.{Tree, leaf, node, items}

-- `func( avl + 1, user_data )`, where `S` is all that it may change.
abbrev pub TraverFunc : Type 0 → Type 0 → Type 0
TraverFunc A S = A → S → ℤ × S

module _ {S : Type 0} where
  -- `( ret = ... ) != 0 ||`: the next step is taken if the answer is 0.
  abbrev pub or_next : ℤ × S → (S → ℤ × S) → ℤ × S
  or_next (ret, s) next = if eqb_ℤ ret (pos 0) then next s else (ret, s)

  or_next_assoc :
      (o : ℤ × S) (f g : S → ℤ × S) → or_next (or_next o f) g ≡ or_next o (λ s. or_next (f s) g)
  or_next_assoc (ret, s) f g = elim (Bool-cases (eqb_ℤ ret (pos 0))) [
    | inl e ↦ rw e refl
    | inr e ↦ rw (e, e) refl
  ]

  or_next_zero : (o : ℤ × S) → or_next o (λ s. (pos 0, s)) ≡ o
  or_next_zero (pos zero, s) = refl
  or_next_zero (pos (suc n), s) = ground arith
  or_next_zero (negsuc n, s) = ground arith

module _ {A : Type 0} where
  -- The data in the order of the other two traversals.
  abbrev pub preorder : Tree A → List A
  preorder leaf = []
  preorder (node b l a r) = a ∷ (preorder l ++ preorder r)

  abbrev pub lastorder : Tree A → List A
  lastorder leaf = []
  lastorder (node b l a r) = lastorder l ++ (lastorder r ++ a ∷ [])

module _ {A S : Type 0} where
  unfoldable pub avl_traver_preorder : Tree A → TraverFunc A S → S → ℤ × S
  avl_traver_preorder leaf func s = (pos 0, s)
  avl_traver_preorder (node b l a r) func s =
      or_next (func a s)
        (λ s1. or_next (avl_traver_preorder l func s1) (λ s2. avl_traver_preorder r func s2))

  unfoldable pub avl_traver_midorder : Tree A → TraverFunc A S → S → ℤ × S
  avl_traver_midorder leaf func s = (pos 0, s)
  avl_traver_midorder (node b l a r) func s =
      or_next (avl_traver_midorder l func s)
        (λ s1. or_next (func a s1) (λ s2. avl_traver_midorder r func s2))

  unfoldable pub avl_traver_lastorder : Tree A → TraverFunc A S → S → ℤ × S
  avl_traver_lastorder leaf func s = (pos 0, s)
  avl_traver_lastorder (node b l a r) func s =
      or_next (avl_traver_lastorder l func s)
        (λ s1. or_next (avl_traver_lastorder r func s1) (λ s2. func a s2))

  -- A list visited in its order, up to the first answer that is not 0.
  abbrev pub visit : List A → TraverFunc A S → S → ℤ × S
  visit [] func s = (pos 0, s)
  visit (x ∷ xs) func s = or_next (func x s) (λ s1. visit xs func s1)

  visit-append :
      (xs ys : List A) (func : TraverFunc A S) (s : S)
      → visit (xs ++ ys) func s ≡ or_next (visit xs func s) (λ s1. visit ys func s1)
  visit-append [] ys func s = refl
  visit-append (x ∷ xs) ys func s =
      ap (or_next (func x s)) (λ i s1. visit-append xs ys func s1 i)
      ∙ sym (or_next_assoc (func x s) (λ s1. visit xs func s1) (λ s2. visit ys func s2))

  -- `avl_traver_midorder` visits the data from left to right, the state passed on from one call to the
  -- next, and gives the first answer that is not 0 with nothing visited after it, or else 0.
  pub traver_midorder-visits :
      (t : Tree A) (func : TraverFunc A S) (s : S)
      → avl_traver_midorder t func s ≡ visit (items t) func s
  unfolding avl_traver_midorder
  traver_midorder-visits leaf func s = refl
  traver_midorder-visits (node b l a r) func s =
      ap (λ o. or_next o (λ s1. or_next (func a s1) (λ s2. avl_traver_midorder r func s2)))
        (traver_midorder-visits l func s)
      ∙ ap (or_next (visit (items l) func s))
          (λ i s1. or_next (func a s1) (λ s2. traver_midorder-visits r func s2 i))
      ∙ sym (visit-append (items l) (a ∷ items r) func s)

  -- `avl_traver_preorder` visits each node before its left subtree, and that before its right one, and
  -- `avl_traver_lastorder` each node after both: each gives the first answer that is not 0, with
  -- nothing visited after it, or else 0.
  pub traver_outer-visits :
      (t : Tree A) (func : TraverFunc A S) (s : S)
      → (avl_traver_preorder t func s ≡ visit (preorder t) func s)
        × (avl_traver_lastorder t func s ≡ visit (lastorder t) func s)
  unfolding avl_traver_preorder avl_traver_lastorder
  traver_outer-visits leaf func s = (refl, refl)
  traver_outer-visits (node b l a r) func s = (
    ap (or_next (func a s)) (λ i s1.
          or_next ((traver_outer-visits l func s1).0 i) (λ s2. (traver_outer-visits r func s2).0 i))
        ∙ ap (or_next (func a s)) (λ i s1. sym (visit-append (preorder l) (preorder r) func s1) i),
    ap (λ o. or_next o (λ s1. or_next (avl_traver_lastorder r func s1) (λ s2. func a s2)))
          (traver_outer-visits l func s).1
        ∙ ap (or_next (visit (lastorder l) func s)) (λ i s1.
          or_next ((traver_outer-visits r func s1).1 i) (λ s2. sym (or_next_zero (func a s2)) i))
        ∙ ap (or_next (visit (lastorder l) func s))
            (λ i s1. sym (visit-append (lastorder r) (a ∷ []) func s1) i)
        ∙ sym (visit-append (lastorder l) (lastorder r ++ a ∷ []) func s),
  )
