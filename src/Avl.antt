-- ===== src/Avl.antt =====
-- moon_code/common/src/moon_avltree.c: the balanced tree. A node's chain of parents is the path that leads to
-- it, so a loop up the `parent` pointers is a recursion on a path.
pub mod Rotate
pub mod Balance
pub mod Add
pub mod Grow
pub mod Order
pub mod Insert
pub mod Find
pub mod Del
pub mod Shrink
pub mod Remove
pub mod Walk
pub mod Locate
pub mod Pairs
pub mod Entries
mod Tests
use moon_in_water.Prelude.{
  ℕ, zero, suc, ◌+◌, ◌≡◌, Bool, true, false, Option, none, some, List, [], ◌∷◌, ◌++◌, ltb,
  if◌then◌else◌, ℤ, pos, negsuc, ◌+ℤ◌, eqb_ℤ, leb_ℤ, max,
}

-- `avl_tree_s` and the data behind it: its balance, its left child, the data and its right child.
pub data Tree (A : Type 0) : Type 0 where
  leaf : Tree A
  node : ℤ → Tree A → A → Tree A → Tree A

-- A parent seen from one of its children: the child is its left one, or its right one.
pub data Frame (A : Type 0) : Type 0 where
  from_left : ℤ → A → Tree A → Frame A
  from_right : ℤ → Tree A → A → Frame A

-- The parents of a node, the nearest first.
abbrev pub Trail : Type 0 → Type 0
Trail A = List (Frame A)

module _ {A : Type 0} where
  abbrev pub plug : Frame A → Tree A → Tree A
  plug (from_left b a r) t = node b t a r
  plug (from_right b l a) t = node b l a t

  -- The tree above a subtree.
  abbrev pub rebuild : Trail A → Tree A → Tree A
  rebuild [] t = t
  rebuild (f ∷ p) t = rebuild p (plug f t)

  -- The data from left to right.
  abbrev pub items : Tree A → List A
  items leaf = []
  items (node b l a r) = items l ++ a ∷ items r

  abbrev pub height : Tree A → ℕ
  height leaf = 0
  height (node b l a r) = suc (max (height l) (height r))
