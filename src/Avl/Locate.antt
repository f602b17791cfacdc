-- ===== src/Avl/Locate.antt =====
-- A node found by its key: taken out by `avl_del2`, or exchanged by `avl_replace2`.
use moon_in_water.Prelude.{
  ℕ, ◌≤◌, ◌<◌, ◌≡◌, ◌≢◌, inl, inr, refl, sym, ap, ◌∙◌, subst, Option, none, some, List, ◌∷◌, ◌++◌,
  arith, ltb, ltb→lt, Bool-cases, append_assoc, ℤ,
}
use moon_in_water.Avl.{Tree, leaf, node, from_left, from_right, Trail, rebuild, items}
use moon_in_water.Avl.Balance.{IsAvl}
use moon_in_water.Avl.Grow.{Holds, before, after, items_around, rebuild-IsAvl}
use moon_in_water.Avl.Order.{
  All, All-append, All-mono, IsSorted, Below, Above, IsSorted-part, IsSorted-join,
}
use moon_in_water.Avl.Insert.{by_key, IsSearch, insert-IsSorted}
use moon_in_water.Avl.Del.{Found, find_node, del_found}
use moon_in_water.Avl.Remove.{avl_del2-Holds, rebuild-IsOpen}

module _ {A : Type 0} where
  -- `avl_replace2`: the new node takes over the balance, the children and the place of the other.
  unfoldable pub avl_replace2 : Found A → A → Tree A
  avl_replace2 f new = rebuild f.trail (node f.balance f.left new f.right)

  -- The tree that the found node stands in.
  abbrev pub whole : Found A → Tree A
  whole f = rebuild f.trail (node f.balance f.left f.value f.right)

  -- The data before and after the node.
  abbrev pub lower_items : Found A → List A
  lower_items f = before f.trail ++ items f.left

  abbrev pub higher_items : Found A → List A
  higher_items f = items f.right ++ after f.trail

  three_parts :
      (ws xs ys zs : List A) (a : A) → ws ++ ((xs ++ a ∷ ys) ++ zs) ≡ (ws ++ xs) ++ a ∷ (ys ++ zs)
  three_parts ws xs ys zs a =
      ap (λ l. ws ++ l) (append_assoc xs (a ∷ ys) zs) ∙ sym (append_assoc ws xs (a ∷ (ys ++ zs)))

  pub items-whole :
      (f : Found A) (c : A)
      → items (rebuild f.trail (node f.balance f.left c f.right))
        ≡ lower_items f ++ c ∷ higher_items f
  items-whole f c =
      items_around f.trail (node f.balance f.left c f.right)
      ∙ three_parts (before f.trail) (items f.left) (items f.right) (after f.trail) c

  pub del_found-Holds :
      (f : Found A) → IsAvl (whole f) → Holds (lower_items f ++ higher_items f) (del_found f)
  del_found-Holds f v =
      subst (λ xs. Holds xs (del_found f))
        (ap (λ l. before f.trail ++ l) (append_assoc (items f.left) (items f.right) (after f.trail))
          ∙ sym (append_assoc (before f.trail) (items f.left) (items f.right ++ after f.trail)))
        (avl_del2-Holds f.trail f.balance f.left f.value f.right v)

module _ {A : Type 0} (key : A → ℕ) where
  -- A sorted list stays sorted without one of its elements.
  pub IsSorted-without :
      (xs : List A) (a : A) (ys : List A) → IsSorted key (xs ++ a ∷ ys) → IsSorted key (xs ++ ys)
  IsSorted-without xs a ys s =
      let parted = IsSorted-part key xs a ys s in
      IsSorted-join key xs ys (key a) parted.left parted.right
        (All-mono (λ y. key y < key a) (λ y. key y ≤ key a) xs (λ y q. omega arith) parted.below)
        parted.above

  IsSorted-exchange :
      (xs : List A) (a c : A) (ys : List A)
      → key c ≡ key a
      → IsSorted key (xs ++ a ∷ ys)
      → IsSorted key (xs ++ c ∷ ys)
  IsSorted-exchange xs a c ys e s =
      let parted = IsSorted-part key xs a ys s in
      insert-IsSorted key xs ys c (IsSorted-without xs a ys s)
        (subst (λ k. Below key k xs) (sym e) parted.below)
        (subst (λ k. Above key k ys) (sym e) parted.above)

  -- What `find_node` gives: the node of that key in the tree above, or none, if no data has that key.
  abbrev pub Located : ℕ → Trail A → Tree A → Option (Found A) → Type 0
  Located k p t none = All (λ y. key y ≢ k) (items t)
  Located k p t (some f) = (whole f ≡ rebuild p t) × (key f.value ≡ k)

  pub find_node-Located :
      (k : ℕ) (p : Trail A) (t : Tree A)
      → IsSorted key (items t)
      → Located k p t (find_node (by_key key k) p t)
  unfolding find_node
  find_node-Located k p leaf s = tt
  find_node-Located k p (node b l a r) s =
      let parted = IsSorted-part key (items l) a (items r) s in
      elim (Bool-cases (ltb k (key a))) [
        | inl less ↦
            let k_lt : k < key a = ltb→lt k (key a) less in
            rw less (
              located_left k p b l a r k_lt parted.above
                (find_node (by_key key k) (from_left b a r ∷ p) l)
                (find_node-Located k (from_left b a r ∷ p) l parted.left))
        | inr not_less ↦ elim (Bool-cases (ltb (key a) k)) [
          | inl more ↦
              rw (not_less, more)
                (located_right k p b l a r (ltb→lt (key a) k more) parted.below
                  (find_node (by_key key k) (from_right b l a ∷ p) r)
                  (find_node-Located k (from_right b l a ∷ p) r parted.right))
          | inr same ↦ rw (not_less, same) (refl, ground arith)
        ]
      ]
    where
      located_left :
          (k : ℕ) (p : Trail A) (b : ℤ) (l : Tree A) (a : A) (r : Tree A)
          → k < key a
          → Above key (key a) (items r)
          → (o : Option (Found A)) → Located k (from_left b a r ∷ p) l o
          → Located k p (node b l a r) o
      located_left k p b l a r h above none absent =
          All-append (λ y. key y ≢ k) (items l) (a ∷ items r) absent
            (
              λ e. omega arith,
              All-mono (λ y. key a < key y) (λ y. key y ≢ k) (items r) (λ y q e. omega arith) above,
            )
      located_left k p b l a r h above (some f) found = found

      located_right :
          (k : ℕ) (p : Trail A) (b : ℤ) (l : Tree A) (a : A) (r : Tree A)
          → key a < k
          → Below key (key a) (items l)
          → (o : Option (Found A)) → Located k (from_right b l a ∷ p) r o
          → Located k p (node b l a r) o
      located_right k p b l a r h below none absent =
          All-append (λ y. key y ≢ k) (items l) (a ∷ items r)
            (All-mono (λ y. key y < key a) (λ y. key y ≢ k) (items l) (λ y q e. omega arith) below)
            (λ e. omega arith, absent)
      located_right k p b l a r h below (some f) found = found

  -- On a search tree, `avl_replace2` with data of the same key gives a search tree in which only that
  -- data is exchanged.
  pub avl_replace2-exchanges :
      (f : Found A) (new : A)
      → IsSearch key (whole f)
      → key new ≡ key f.value
      → IsSearch key (avl_replace2 f new)
        × (items (whole f) ≡ lower_items f ++ f.value ∷ higher_items f)
        × (items (avl_replace2 f new) ≡ lower_items f ++ new ∷ higher_items f)
  unfolding avl_replace2
  avl_replace2-exchanges f new (v, s) e =
      let (w, o) = rebuild-IsOpen f.trail (node f.balance f.left f.value f.right) v in
      let exchanged =
        IsSorted-exchange (lower_items f) f.value new (higher_items f) e
          (rw (items-whole f f.value) at s) in
      (
        (
          rebuild-IsAvl f.trail (node f.balance f.left new f.right) w o,
          rw (items-whole f new) exchanged,
        ),
        items-whole f f.value,
        items-whole f new,
      )
