-- ===== src/Avl/Rotate.antt =====
-- `avl_balance`: the four rotations. `none` is a read through a null pointer.
use moon_in_water.Prelude.{
  Bool, true, false, Option, none, some, if◌then◌else◌, ℤ, pos, negsuc, eqb_ℤ, leb_ℤ,
}
use moon_in_water.Avl.{Tree, leaf, node}

-- The new subtree, and whether the source returns NULL: its height is that from before.
abbrev pub Rotated : Type 0 → Type 0
Rotated A = Option (Tree A × Bool)

-- The balance of the two nodes below the axis after a double rotation.
abbrev pub below_axis : ℤ → ℤ → ℤ → ℤ
below_axis axis test value = if eqb_ℤ axis test then value else pos 0

module _ {A : Type 0} where
  -- The right child is too high: `l` and `a` are the parent's, the rest is the right child's.
  unfoldable pub balance_right : Tree A → A → Tree A → Rotated A
  balance_right l a leaf = none
  balance_right l a (node b leaf ra rr) =
      if leb_ℤ (pos 0) b
      then if eqb_ℤ b (pos 0)
        then some (node (negsuc 0) (node (pos 1) l a leaf) ra rr, true)
        else some (node (pos 0) (node (pos 0) l a leaf) ra rr, false)
      else none
  balance_right l a (node b (node x xl xa xr) ra rr) =
      if leb_ℤ (pos 0) b
      then if eqb_ℤ b (pos 0)
        then some (node (negsuc 0) (node (pos 1) l a (node x xl xa xr)) ra rr, true)
        else some (node (pos 0) (node (pos 0) l a (node x xl xa xr)) ra rr, false)
      else some (
        node (pos 0) (node (below_axis x (pos 1) (negsuc 0)) l a xl) xa
            (node (below_axis x (negsuc 0) (pos 1)) xr ra rr),
        false,
      )

  -- The left child is too high: `a` and `r` are the parent's.
  unfoldable pub balance_left : Tree A → A → Tree A → Rotated A
  balance_left leaf a r = none
  balance_left (node b ll la leaf) a r =
      if leb_ℤ b (pos 0)
      then if eqb_ℤ b (pos 0)
        then some (node (pos 1) ll la (node (negsuc 0) leaf a r), true)
        else some (node (pos 0) ll la (node (pos 0) leaf a r), false)
      else none
  balance_left (node b ll la (node x xl xa xr)) a r =
      if leb_ℤ b (pos 0)
      then if eqb_ℤ b (pos 0)
        then some (node (pos 1) ll la (node (negsuc 0) (node x xl xa xr) a r), true)
        else some (node (pos 0) ll la (node (pos 0) (node x xl xa xr) a r), false)
      else some (
        node (pos 0) (node (below_axis x (pos 1) (negsuc 0)) ll la xl) xa
            (node (below_axis x (negsuc 0) (pos 1)) xr a r),
        false,
      )

  unfoldable pub avl_balance : ℤ → Tree A → A → Tree A → Rotated A
  unfolding balance_right balance_left
  avl_balance b l a r = if eqb_ℤ b (pos 2) then balance_right l a r else balance_left l a r
