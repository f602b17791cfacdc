-- ===== src/Avl/Insert.antt =====
-- `avl_add2` of moon_code/common/src/moon_avltree.c on a search tree.
use moon_in_water.Prelude.{
  ℕ, ◌<◌, ◌≡◌, ◌⊎◌, inl, inr, refl, sym, ap, ◌∙◌, Option, none, some, List, [], ◌∷◌, ◌++◌,
  append_assoc, append-nil, arith, ltb, ltb→lt, Bool-cases, ℤ, pos,
}
use moon_in_water.Avl.{Tree, leaf, node, from_left, from_right, Trail, items, height}
use moon_in_water.Avl.Balance.{IsAvl}
use moon_in_water.Avl.Add.{cmp_key, find_place, climb_add, with_data, add_at, avl_add2}
use moon_in_water.Avl.Grow.{IsOpen, Holds, climb_add-Holds, before, after, items_around}
use moon_in_water.Avl.Order.{
  All-append, All-split, All-mono, In, In-append_left, In-append_right, IsSorted, Below, Above,
  IsSorted-part,
}

module _ {A : Type 0} (key : A → ℕ) where
  -- The comparison that the callers hand over: of a node's key with the number looked for.
  abbrev pub by_key : ℕ → A → ℤ
  by_key k a = cmp_key (key a) k

  -- What the first loop finds, from a subtree `t` at the end of the path `p` on.
  abbrev Placed : ℕ → Trail A → Tree A → (A ⊎ Trail A) → Type 0
  Placed k p t (inl a) = (key a ≡ k) × In a (items t)
  Placed k p t (inr q) =
      Below key k (before q)
      × Above key k (after q)
      × (before q ++ after q ≡ before p ++ (items t ++ after p))
      × (IsAvl t → IsOpen p (height t) → IsOpen q 0)

  lift_left :
      (k : ℕ) (p : Trail A) (b : ℤ) (l : Tree A) (a : A) (r : Tree A) (res : A ⊎ Trail A)
      → Placed k (from_left b a r ∷ p) l res
      → Placed k p (node b l a r) res
  unfolding before after
  lift_left k p b l a r (inl x) (e, i) = (e, In-append_left x (items l) (a ∷ items r) i)
  lift_left k p b l a r (inr q) (lo, hi, same, opens) = (
    lo,
    hi,
    same ∙ ap (λ xs. before p ++ xs) (sym (append_assoc (items l) (a ∷ items r) (after p))),
    λ v o. opens v.0 (v.1, v.2, o),
  )

  lift_right :
      (k : ℕ) (p : Trail A) (b : ℤ) (l : Tree A) (a : A) (r : Tree A) (res : A ⊎ Trail A)
      → Placed k (from_right b l a ∷ p) r res
      → Placed k p (node b l a r) res
  unfolding before after
  lift_right k p b l a r (inl x) (e, i) = (e, In-append_right x (items l) (a ∷ items r) (inr i))
  lift_right k p b l a r (inr q) (lo, hi, same, opens) = (
    lo,
    hi,
    same
        ∙ append_assoc (before p) (items l ++ a ∷ []) (items r ++ after p)
        ∙ ap (λ xs. before p ++ xs)
            (append_assoc (items l) (a ∷ []) (items r ++ after p)
              ∙ sym (append_assoc (items l) (a ∷ items r) (after p))),
    λ v o. opens v.1 (v.0, v.2, o),
  )

  find_place-Placed :
      (k : ℕ) (p : Trail A) (t : Tree A)
      → IsSorted key (items t)
      → Below key k (before p)
      → Above key k (after p)
      → Placed k p t (find_place (by_key k) p t)
  unfolding find_place before after
  find_place-Placed k p leaf s lo hi = (lo, hi, refl, λ v o. o)
  find_place-Placed k p (node b l a r) s lo hi =
      let parted = IsSorted-part key (items l) a (items r) s in
      elim (Bool-cases (ltb k (key a))) [
        | inl less ↦
            let k_lt : k < key a = ltb→lt k (key a) less in
            let later =
              All-mono (λ y. key a < key y) (λ y. k < key y) (items r) (λ y q. omega arith)
                parted.above in
            let above : Above key k (a ∷ (items r ++ after p)) =
              (k_lt, All-append (λ y. k < key y) (items r) (after p) later hi) in
            rw less (
              lift_left k p b l a r (find_place (by_key k) (from_left b a r ∷ p) l)
                (find_place-Placed k (from_left b a r ∷ p) l parted.left lo above))
        | inr not_less ↦ elim (Bool-cases (ltb (key a) k)) [
          | inl more ↦
              let lt_k : key a < k = ltb→lt (key a) k more in
              let earlier =
                All-mono (λ y. key y < key a) (λ y. key y < k) (items l) (λ y q. omega arith)
                  parted.below in
              let below : Below key k (before p ++ (items l ++ a ∷ [])) =
                All-append (λ y. key y < k) (before p) (items l ++ a ∷ []) lo
                  (All-append (λ y. key y < k) (items l) (a ∷ []) earlier (lt_k, tt)) in
              rw (not_less, more)
                (lift_right k p b l a r (find_place (by_key k) (from_right b l a ∷ p) r)
                  (find_place-Placed k (from_right b l a ∷ p) r parted.right below hi))
          | inr same ↦
              rw (not_less, same)
                (ground arith, In-append_right a (items l) (a ∷ items r) (inl refl))
        ]
      ]

  -- A sorted list stays sorted when a new key goes between the lower and the higher ones.
  pub insert-IsSorted :
      (xs ys : List A) (new : A)
      → IsSorted key (xs ++ ys)
      → Below key (key new) xs
      → Above key (key new) ys
      → IsSorted key (xs ++ new ∷ ys)
  insert-IsSorted [] ys new s lo hi = (hi, s)
  insert-IsSorted (x ∷ xs) ys new s lo hi =
      let (first, others) = All-split (λ y. key x < key y) xs ys s.0 in
      (
        All-append (λ y. key x < key y) xs (new ∷ ys) first (lo.0, others),
        insert-IsSorted xs ys new s.1 lo.1 hi,
      )

  -- A search tree: balanced, with increasing keys.
  abbrev pub IsSearch : Tree A → Type 0
  IsSearch t = IsAvl t × IsSorted key (items t)

  -- What `avl_add2` may give: data of the same key that was there, with the tree unchanged, or the new
  -- data, in a search tree of the old data with the new one between the lower and the higher keys.
  abbrev pub Added : Tree A → A → Option (Tree A × A) → Type 0
  Added t new none = ⊥
  Added t new (some (u, d)) =
      ((u ≡ t) × (key d ≡ key new) × In d (items t))
      ⊎ ((xs : List A) × (ys : List A) × (d ≡ new)
          × IsSearch u
          × (items t ≡ xs ++ ys)
          × (items u ≡ xs ++ new ∷ ys)
          × Below key (key new) xs
          × Above key (key new) ys)

  added :
      (t : Tree A) (new : A) (q : Trail A) (o : Option (Tree A))
      → IsSorted key (items t)
      → Below key (key new) (before q)
      → Above key (key new) (after q)
      → before q ++ after q ≡ items t
      → Holds (before q ++ new ∷ after q) o
      → Added t new (with_data new o)
  added t new q none s lo hi same h = h
  added t new q (some u) s lo hi same (v, e) =
      let fits = insert-IsSorted (before q) (after q) new (rw same s) lo hi in
      inr (before q, after q, refl, (v, rw e fits), sym same, e, lo, hi)

  add_at-Added :
      (t : Tree A) (new : A) (res : A ⊎ Trail A)
      → IsSearch t
      → Placed (key new) [] t res
      → Added t new (add_at t new res)
  unfolding add_at before after
  add_at-Added t new (inl old) (v, s) (e, i) = inl (refl, e, i)
  add_at-Added t new (inr q) (v, s) (lo, hi, same, opens) =
      let leaf_there : before q ++ after q ≡ items t = same ∙ append-nil (items t) in
      let climbed =
        climb_add-Holds q (node (pos 0) leaf new leaf) 0
          (record { even = (tt, tt, omega arith); higher = omega arith; leans = inl refl })
          (opens v tt) in
      added t new q (climb_add q (node (pos 0) leaf new leaf)) s lo hi leaf_there
        (rw (items_around q (node (pos 0) leaf new leaf)) at climbed)

  -- From a search tree, with the comparison by key: `avl_add2` meets no null pointer, and gives either
  -- the data of the same key that is there, with the tree unchanged, or a search tree of the old data
  -- with the new one between the lower and the higher keys.
  pub avl_add2-Added :
      (t : Tree A) (new : A) → IsSearch t → Added t new (avl_add2 t new (by_key (key new)))
  unfolding avl_add2 before after
  avl_add2-Added t new v =
      add_at-Added t new (find_place (by_key (key new)) [] t) v
        (find_place-Placed (key new) [] t v.1 tt tt)
