-- ===== src/Avl/Del.antt =====
-- `avl_del2`. The source detaches the node last, after it has climbed; rotations look at balances
-- only and carry the data and the subtrees along, so here the node is detached first: its place, or
-- that of the neighbour which takes its place, is a null child when the climb begins.
use moon_in_water.Prelude.{
  Option, none, some, [], ◌∷◌, ◌++◌, if◌then◌else◌, ℤ, pos, negsuc, ◌+ℤ◌, ltb_ℤ, leb_ℤ, eqb_ℤ, ◌||◌,
}
use moon_in_water.Avl.{Tree, leaf, node, from_left, from_right, Trail, rebuild}
use moon_in_water.Avl.Rotate.{Rotated, avl_balance}

-- The neighbour that takes the place of a node: its parents below that node, its balance, its data
-- and its one child.
pub record Neighbour (A : Type 0) : Type 0 where
  pub trail : Trail A
  pub balance : ℤ
  pub value : A
  pub child : Tree A

module _ {A : Type 0} where
  -- After a rotation: NULL ends the climb, and else it goes on from the axis.
  abbrev pub after_rotation : Trail A → (Tree A → Option (Tree A)) → Rotated A → Option (Tree A)
  after_rotation p up none = none
  after_rotation p up (some (t, stop)) =
      let higher = up t in if stop then some (rebuild p t) else higher

  -- What the loop does at a parent whose balance has become `b`. At any other balance the source's
  -- loop stays at the same node: `none`.
  unfoldable pub settle_del :
      Trail A → (Tree A → Option (Tree A)) → ℤ → Tree A → A → Tree A → Option (Tree A)
  settle_del p up b l a r =
      let higher = up (node b l a r) in
      let rotated = after_rotation p up (avl_balance b l a r) in
      if eqb_ℤ b (pos 1) || eqb_ℤ b (negsuc 0)
      then some (rebuild p (node b l a r))
      else if eqb_ℤ b (pos 0)
      then higher
      else if eqb_ℤ b (pos 2) || eqb_ℤ b (negsuc 1)
      then rotated
      else none

  -- The climb from a subtree that has become lower by one.
  unfoldable pub climb_del : Trail A → Tree A → Option (Tree A)
  climb_del [] t = some t
  climb_del (from_left b a r ∷ p) t = settle_del p (climb_del p) (b +ℤ pos 1) t a r
  climb_del (from_right b l a ∷ p) t = settle_del p (climb_del p) (b +ℤ negsuc 0) l a t

  -- `for( ; tmp_avl->right != NULL; tmp_avl = tmp_avl->right )`
  unfoldable pub rightmost : Trail A → ℤ → Tree A → A → Tree A → Neighbour A
  rightmost p b l a leaf = record { trail = p; balance = b; value = a; child = l }
  rightmost p b l a (node rb rl ra rr) = rightmost (from_right b l a ∷ p) rb rl ra rr

  -- `for( ; tmp_avl->left != NULL; tmp_avl = tmp_avl->left )`
  unfoldable pub leftmost : Trail A → ℤ → Tree A → A → Tree A → Neighbour A
  leftmost p b leaf a r = record { trail = p; balance = b; value = a; child = r }
  leftmost p b (node lb ll la lr) a r = leftmost (from_left b a r ∷ p) lb ll la lr

  -- The neighbour's data moves up to the node's place, and its child's data to its own.
  unfoldable pub del_before : Neighbour A → Trail A → Option (Tree A)
  del_before n p = elim n.child [
    | leaf ↦ climb_del p leaf
    | node cb cl c cr ↦ climb_del (from_left n.balance c leaf ∷ p) leaf
  ]

  unfoldable pub del_after : Neighbour A → Trail A → Option (Tree A)
  del_after n p = elim n.child [
    | leaf ↦ climb_del p leaf
    | node cb cl c cr ↦ climb_del (from_right n.balance leaf c ∷ p) leaf
  ]

  -- The node with balance `b` and data `a`, below the path `p`: the tree without it. `none` is a read
  -- through a null pointer, or a climb that does not end.
  unfoldable pub avl_del2 : Trail A → ℤ → Tree A → A → Tree A → Option (Tree A)
  unfolding del_before del_after
  avl_del2 p b leaf a leaf = climb_del p leaf
  avl_del2 p b leaf a (node rb rl ra rr) =
      let n = leftmost [] rb rl ra rr in
      if leb_ℤ b (pos 0) then none else del_after n (n.trail ++ from_right b leaf n.value ∷ p)
  avl_del2 p b (node lb ll la lr) a leaf =
      let n = rightmost [] lb ll la lr in
      if leb_ℤ b (pos 0) then del_before n (n.trail ++ from_left b n.value leaf ∷ p) else none
  avl_del2 p b (node lb ll la lr) a (node rb rl ra rr) =
      let l = rightmost [] lb ll la lr in
      let r = leftmost [] rb rl ra rr in
      if leb_ℤ b (pos 0)
      then del_before l (l.trail ++ from_left b l.value (node rb rl ra rr) ∷ p)
      else del_after r (r.trail ++ from_right b (node lb ll la lr) r.value ∷ p)

-- A node of the tree: its parents and itself.
pub record Found (A : Type 0) : Type 0 where
  pub trail : Trail A
  pub balance : ℤ
  pub left : Tree A
  pub value : A
  pub right : Tree A

module _ {A : Type 0} where
  -- Where the node stands that compares equal.
  unfoldable pub find_node : (A → ℤ) → Trail A → Tree A → Option (Found A)
  find_node cmp p leaf = none
  find_node cmp p (node b l a r) =
      let to_left = find_node cmp (from_left b a r ∷ p) l in
      let to_right = find_node cmp (from_right b l a ∷ p) r in
      if ltb_ℤ (pos 0) (cmp a)
      then to_left
      else if ltb_ℤ (cmp a) (pos 0)
      then to_right
      else some (record { trail = p; balance = b; left = l; value = a; right = r })

  abbrev pub del_found : Found A → Option (Tree A)
  del_found f = avl_del2 f.trail f.balance f.left f.value f.right
