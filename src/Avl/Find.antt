-- ===== src/Avl/Find.antt =====
-- `avl_search2` and the two ends of the tree, against the sorted data.
use moon_in_water.Prelude.{
  ℕ, ℤ, ◌≤◌, ◌<◌, ◌≡◌, ◌⊎◌, inl, inr, refl, sym, ap, ◌∙◌, Option, none, some, List, [], ◌∷◌, ◌++◌,
  arith, ltb, ltb→lt, Bool-cases,
}
use moon_in_water.Avl.{Tree, leaf, node, items}
use moon_in_water.Avl.Add.{search_loop, avl_search2, avl_leftest_node, avl_rightest_node}
use moon_in_water.Avl.Order.{
  All, All-append, All-mono, In, In-append_left, In-append_right, IsSorted, Above, IsParted,
  IsSorted-part,
}
use moon_in_water.Avl.Insert.{by_key}

module _ {A : Type 0} where
  abbrev pub head? : List A → Option A
  head? [] = none
  head? (x ∷ xs) = some x

  abbrev pub get_last? : List A → Option A
  get_last? [] = none
  get_last? (x ∷ []) = some x
  get_last? (x ∷ y ∷ xs) = get_last? (y ∷ xs)

  head?-append : (xs ys : List A) (x : A) → head? xs ≡ some x → head? (xs ++ ys) ≡ some x
  head?-append [] ys x e = cc
  head?-append (y ∷ xs) ys x e = e

  get_last?-append :
      (xs : List A) (y : A) (ys : List A) → get_last? (xs ++ y ∷ ys) ≡ get_last? (y ∷ ys)
  get_last?-append [] y ys = refl
  get_last?-append (x ∷ []) y ys = refl
  get_last?-append (x ∷ z ∷ xs) y ys = get_last?-append (z ∷ xs) y ys

  head?-tree :
      (b : ℤ) (l : Tree A) (a : A) (r : Tree A) → (x : A) × (head? (items (node b l a r)) ≡ some x)
  head?-tree b leaf a r = (a, refl)
  head?-tree b (node lb ll la lr) a r =
      let (x, e) = head?-tree lb ll la lr in
      (x, head?-append (items (node lb ll la lr)) (a ∷ items r) x e)

  -- The leftmost node holds the first of the data, or there is none of either.
  pub leftest-head? : (t : Tree A) → avl_leftest_node t ≡ head? (items t)
  unfolding avl_leftest_node
  leftest-head? leaf = refl
  leftest-head? (node b leaf a r) = refl
  leftest-head? (node b (node lb ll la lr) a r) =
      let (x, e) = head?-tree lb ll la lr in
      leftest-head? (node lb ll la lr)
      ∙ e
      ∙ sym (head?-append (items (node lb ll la lr)) (a ∷ items r) x e)

  items-cons :
      (b : ℤ) (l : Tree A) (a : A) (r : Tree A)
      → (y : A) × (ys : List A) × (items (node b l a r) ≡ y ∷ ys)
  items-cons b leaf a r = (a, items r, refl)
  items-cons b (node lb ll la lr) a r =
      let (y, ys, e) = items-cons lb ll la lr in
      (y, ys ++ a ∷ items r, ap (λ xs. xs ++ a ∷ items r) e)

  -- The rightmost node holds the last of the data, or there is none of either.
  pub rightest-get_last? : (t : Tree A) → avl_rightest_node t ≡ get_last? (items t)
  unfolding avl_rightest_node
  rightest-get_last? leaf = refl
  rightest-get_last? (node b l a leaf) = sym (get_last?-append (items l) a [])
  rightest-get_last? (node b l a (node rb rl ra rr)) =
      let (y, ys, e) = items-cons rb rl ra rr in
      rightest-get_last? (node rb rl ra rr)
      ∙ ap get_last? e
      ∙ sym (
          get_last?-append (items l) a (items (node rb rl ra rr)) ∙ ap (λ xs. get_last? (a ∷ xs)) e)

module _ {A : Type 0} (key : A → ℕ) where
  -- `res` is the last of `xs` whose key is at most `k`, or `prev` if there is none.
  abbrev pub Best : ℕ → Option A → List A → Option A → Type 0
  Best k prev xs res =
      ((res ≡ prev) × Above key k xs)
      ⊎ ((a : A) × (res ≡ some a)
          × In a xs
          × (key a ≤ k)
          × All (λ y. (key y ≤ key a) ⊎ (k < key y)) xs)

  pub All-In : (P : A → Type 0) (a : A) (xs : List A) → All P xs → In a xs → P a
  All-In P a [] h i = absurd i
  All-In P a (x ∷ xs) h (inl e) = rw e h.0
  All-In P a (x ∷ xs) h (inr i) = All-In P a xs h.1 i

  module _ (k : ℕ) (prev : Option A) (l : Tree A) (a : A) (r : Tree A)
      (parted : IsParted key (items l) a (items r)) where
    in_left :
        k < key a
        → (res : Option A) → Best k prev (items l) res
        → Best k prev (items l ++ a ∷ items r) res
    in_left h res (inl (e, above)) =
        let later =
          All-mono (λ y. key a < key y) (λ y. k < key y) (items r) (λ y q. omega arith)
            parted.above in
        inl (e, All-append (λ y. k < key y) (items l) (a ∷ items r) above (h, later))
    in_left h res (inr (c, e, i, small, best)) =
        let later =
          All-mono (λ y. key a < key y) (λ y. (key y ≤ key c) ⊎ (k < key y)) (items r)
            (λ y q. inr (omega arith)) parted.above in
        inr (
          c,
          e,
          In-append_left c (items l) (a ∷ items r) i,
          small,
          All-append (λ y. (key y ≤ key c) ⊎ (k < key y)) (items l) (a ∷ items r) best
              (inr h, later),
        )

    -- The data to the left is no better than data of a key at least that of the node.
    lower : (c : A) → key a ≤ key c → All (λ y. (key y ≤ key c) ⊎ (k < key y)) (items l)
    lower c h =
        All-mono (λ y. key y < key a) (λ y. (key y ≤ key c) ⊎ (k < key y)) (items l)
          (λ y q. inl (omega arith)) parted.below

    in_right :
        key a < k
        → (res : Option A) → Best k (some a) (items r) res
        → Best k prev (items l ++ a ∷ items r) res
    in_right h res (inl (e, above)) = inr (
      a,
      e,
      In-append_right a (items l) (a ∷ items r) (inl refl),
      omega arith,
      All-append (λ y. (key y ≤ key a) ⊎ (k < key y)) (items l) (a ∷ items r)
          (lower a (omega arith))
          (
            inl (omega arith),
            All-mono (λ y. k < key y) (λ y. (key y ≤ key a) ⊎ (k < key y)) (items r) (λ y q. inr q)
                above,
          ),
    )
    in_right h res (inr (c, e, i, small, best)) =
        let higher : key a < key c = All-In (λ y. key a < key y) c (items r) parted.above i in
        inr (
          c,
          e,
          In-append_right c (items l) (a ∷ items r) (inr i),
          small,
          All-append (λ y. (key y ≤ key c) ⊎ (k < key y)) (items l) (a ∷ items r)
              (lower c (omega arith)) (inl (omega arith), best),
        )

    at_node : key a ≡ k → Best k prev (items l ++ a ∷ items r) (some a)
    at_node h = inr (
      a,
      refl,
      In-append_right a (items l) (a ∷ items r) (inl refl),
      omega arith,
      All-append (λ y. (key y ≤ key a) ⊎ (k < key y)) (items l) (a ∷ items r)
          (lower a (omega arith))
          (
            inl (omega arith),
            All-mono (λ y. key a < key y) (λ y. (key y ≤ key a) ⊎ (k < key y)) (items r)
                (λ y q. inr (omega arith)) parted.above,
          ),
    )

  search_loop-Best :
      (k : ℕ) (prev : Option A) (t : Tree A)
      → IsSorted key (items t)
      → Best k prev (items t) (search_loop (by_key key k) prev t)
  unfolding search_loop
  search_loop-Best k prev leaf s = inl (refl, tt)
  search_loop-Best k prev (node b l a r) s =
      let parted = IsSorted-part key (items l) a (items r) s in
      elim (Bool-cases (ltb k (key a))) [
        | inl less ↦ rw less (
            in_left k prev l a r parted (ltb→lt k (key a) less) (search_loop (by_key key k) prev l)
              (search_loop-Best k prev l parted.left))
        | inr not_less ↦ elim (Bool-cases (ltb (key a) k)) [
          | inl more ↦
              rw (not_less, more)
                (in_right k prev l a r parted (ltb→lt (key a) k more)
                  (search_loop (by_key key k) (some a) r)
                  (search_loop-Best k (some a) r parted.right))
          | inr same ↦ rw (not_less, same) (at_node k prev l a r parted (ground arith))
        ]
      ]

  -- On a tree with increasing keys `avl_search2`, with the comparison by key, gives the data of the
  -- greatest key that is at most the one looked for, and none if all keys are greater.
  pub avl_search2-Best :
      (t : Tree A) (k : ℕ)
      → IsSorted key (items t)
      → Best k none (items t) (avl_search2 t (by_key key k))
  unfolding avl_search2
  avl_search2-Best t k s = search_loop-Best k none t s
