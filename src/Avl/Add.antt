-- ===== src/Avl/Add.antt =====
-- `avl_search2`, the two ends of the tree, and `avl_add2`.
use moon_in_water.Prelude.{
  ℕ, Option, none, some, [], ◌∷◌, if◌then◌else◌, ◌⊎◌, inl, inr, ltb, ℤ, pos, negsuc, ◌+ℤ◌, ltb_ℤ,
  eqb_ℤ,
}
use moon_in_water.Avl.{Tree, leaf, node, from_left, from_right, Trail, rebuild}
use moon_in_water.Avl.Rotate.{Rotated, avl_balance}

-- The body of `addr_pair_cmp_func` and `timer_cmp_func`: the order of two unsigned numbers.
abbrev pub cmp_key : ℕ → ℕ → ℤ
cmp_key key k = if ltb k key then pos 1 else if ltb key k then negsuc 0 else pos 0

module _ {A : Type 0} where
  unfoldable pub avl_leftest_node : Tree A → Option A
  avl_leftest_node leaf = none
  avl_leftest_node (node b leaf a r) = some a
  avl_leftest_node (node b (node lb ll la lr) a r) = avl_leftest_node (node lb ll la lr)

  unfoldable pub avl_rightest_node : Tree A → Option A
  avl_rightest_node leaf = none
  avl_rightest_node (node b l a leaf) = some a
  avl_rightest_node (node b l a (node rb rl ra rr)) = avl_rightest_node (node rb rl ra rr)

  -- The loop of `avl_search2`, with its local `prev`.
  unfoldable pub search_loop : (A → ℤ) → Option A → Tree A → Option A
  search_loop cmp prev leaf = prev
  search_loop cmp prev (node b l a r) =
      let to_left = search_loop cmp prev l in
      let to_right = search_loop cmp (some a) r in
      if ltb_ℤ (pos 0) (cmp a) then to_left else if ltb_ℤ (cmp a) (pos 0) then to_right else some a

  unfoldable pub avl_search2 : Tree A → (A → ℤ) → Option A
  unfolding search_loop
  avl_search2 t cmp = search_loop cmp none t

  -- The first loop of `avl_add2`: the data that compares equal, or the way to a null child.
  unfoldable pub find_place : (A → ℤ) → Trail A → Tree A → A ⊎ Trail A
  find_place cmp p leaf = inr p
  find_place cmp p (node b l a r) =
      let to_left = find_place cmp (from_left b a r ∷ p) l in
      let to_right = find_place cmp (from_right b l a ∷ p) r in
      if ltb_ℤ (pos 0) (cmp a) then to_left else if ltb_ℤ (cmp a) (pos 0) then to_right else inl a

  -- The tree after a rotation below the path.
  abbrev pub rebuilt : Trail A → Rotated A → Option (Tree A)
  rebuilt p none = none
  rebuilt p (some (t, stop)) = some (rebuild p t)

  -- What the loop does at a parent whose balance has become `b`: `higher` is the way on, if the
  -- parent's subtree has grown too. Any other balance is reported and ends the loop.
  unfoldable pub settle_add : Trail A → ℤ → Tree A → A → Tree A → Option (Tree A) → Option (Tree A)
  settle_add p b l a r higher =
      if eqb_ℤ b (pos 1)
      then higher
      else if eqb_ℤ b (negsuc 0)
      then higher
      else if eqb_ℤ b (pos 2)
      then rebuilt p (avl_balance b l a r)
      else if eqb_ℤ b (negsuc 1)
      then rebuilt p (avl_balance b l a r)
      else some (rebuild p (node b l a r))

  -- The second loop of `avl_add2`: `t` is a subtree that has grown by one.
  unfoldable pub climb_add : Trail A → Tree A → Option (Tree A)
  climb_add [] t = some t
  climb_add (from_left b a r ∷ p) t =
      let b' = b +ℤ negsuc 0 in settle_add p b' t a r (climb_add p (node b' t a r))
  climb_add (from_right b l a ∷ p) t =
      let b' = b +ℤ pos 1 in settle_add p b' l a t (climb_add p (node b' l a t))

  -- What is returned with the tree, if no null pointer was met.
  abbrev pub with_data : A → Option (Tree A) → Option (Tree A × A)
  with_data a none = none
  with_data a (some t) = some (t, a)

  -- After the first loop. The new node comes with balance 0 and null children.
  unfoldable pub add_at : Tree A → A → (A ⊎ Trail A) → Option (Tree A × A)
  add_at t new (inl old) = some (t, old)
  add_at t new (inr p) = with_data new (climb_add p (node (pos 0) leaf new leaf))

  -- The new tree and the data returned.
  unfoldable pub avl_add2 : Tree A → A → (A → ℤ) → Option (Tree A × A)
  unfolding add_at
  avl_add2 t new cmp = add_at t new (find_place cmp [] t)
