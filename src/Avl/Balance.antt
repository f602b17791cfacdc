-- ===== src/Avl/Balance.antt =====
-- Balance and order of the data under the rotations of `avl_balance`,
-- moon_code/common/src/moon_avltree.c.
use moon_in_water.Prelude.{
  ℕ, suc, ◌+◌, ◌≤◌, ◌≡◌, ◌≢◌, ◌⊎◌, inl, inr, false, none, some, List, [], ◌∷◌, ◌++◌, append_assoc,
  if◌then◌else◌, arith, ℤ, pos, negsuc, pos_part, neg_part, max,
}
use moon_in_water.Avl.{Tree, leaf, node, items, height}
use moon_in_water.Avl.Rotate.{Rotated, balance_right, balance_left, avl_balance}

-- A balance of 0, 1 or -1 that is the height of the right subtree less that of the left one.
pub record IsEven (b : ℤ) (hl hr : ℕ) : Type 0 where
  pub difference : pos_part b + hl ≡ neg_part b + hr
  pub not_above : pos_part b ≤ 1
  pub not_below : neg_part b ≤ 1

abbrev pub IsAvl : {A : Type 0} → Tree A → Type 0
IsAvl leaf = Unit
IsAvl (node b l a r) = IsAvl l × IsAvl r × IsEven b (height l) (height r)

-- A rotation that succeeds, gives a balanced tree of the same data, and tells whether the height is
-- still `old` or one less.
abbrev pub Rights : {A : Type 0} → List A → ℕ → Rotated A → Type 0
Rights xs old none = ⊥
Rights xs old (some (t, stop)) =
    IsAvl t × (items t ≡ xs) × (old ≡ (if stop then height t else suc (height t)))

module _ {A : Type 0} where
  balance_right-Rights :
      (l : Tree A) (a : A) (r : Tree A)
      → IsAvl l
      → IsAvl r
      → height r ≡ height l + 2
      → Rights (items l ++ a ∷ items r) (suc (height r)) (balance_right l a r)
  unfolding balance_right
  balance_right-Rights l a leaf hl hr e = absurd (omega arith)
  balance_right-Rights l a (node b leaf ra rr) hl hr e =
      ground (arith, append_assoc (items l) (a ∷ []) (ra ∷ items rr))
  balance_right-Rights l a (node b (node x xl xa xr) ra rr) hl hr e = ground (
    arith,
    append_assoc (items l) (a ∷ (items xl ++ xa ∷ items xr)) (ra ∷ items rr),
    append_assoc (items l) (a ∷ items xl) (xa ∷ (items xr ++ ra ∷ items rr)),
    append_assoc (items xl) (xa ∷ items xr) (ra ∷ items rr),
  )

  -- The high child leans: it is the reason for a rotation that lowers the subtree.
  abbrev pub Leans : Tree A → Type 0
  Leans leaf = ⊥
  Leans (node b l a r) = b ≢ pos 0

  -- The rotation does not return NULL.
  abbrev pub Lowers : Rotated A → Type 0
  Lowers none = Unit
  Lowers (some (t, stop)) = stop ≡ false

  balance_right-Lowers : (l : Tree A) (a : A) (r : Tree A) → Leans r → Lowers (balance_right l a r)
  unfolding balance_right
  balance_right-Lowers l a leaf h = absurd h
  balance_right-Lowers l a (node b leaf ra rr) h = ground arith
  balance_right-Lowers l a (node b (node x xl xa xr) ra rr) h = ground arith

  balance_left-Lowers : (l : Tree A) (a : A) (r : Tree A) → Leans l → Lowers (balance_left l a r)
  unfolding balance_left
  balance_left-Lowers leaf a r h = absurd h
  balance_left-Lowers (node b ll la leaf) a r h = ground arith
  balance_left-Lowers (node b ll la (node x xl xa xr)) a r h = ground arith

  pub avl_balance-Lowers_right :
      (l : Tree A) (a : A) (r : Tree A) → Leans r → Lowers (avl_balance (pos 2) l a r)
  unfolding avl_balance
  avl_balance-Lowers_right l a r h = balance_right-Lowers l a r h

  pub avl_balance-Lowers_left :
      (l : Tree A) (a : A) (r : Tree A) → Leans l → Lowers (avl_balance (negsuc 1) l a r)
  unfolding avl_balance
  avl_balance-Lowers_left l a r h = balance_left-Lowers l a r h

  balance_left-Rights :
      (l : Tree A) (a : A) (r : Tree A)
      → IsAvl l
      → IsAvl r
      → height l ≡ height r + 2
      → Rights (items l ++ a ∷ items r) (suc (height l)) (balance_left l a r)
  unfolding balance_left
  balance_left-Rights leaf a r hl hr e = absurd (omega arith)
  balance_left-Rights (node b ll la leaf) a r hl hr e =
      ground (arith, append_assoc (items ll) (la ∷ []) (a ∷ items r))
  balance_left-Rights (node b ll la (node x xl xa xr)) a r hl hr e = ground (
    arith,
    append_assoc (items ll) (la ∷ (items xl ++ xa ∷ items xr)) (a ∷ items r),
    append_assoc (items ll) (la ∷ items xl) (xa ∷ (items xr ++ a ∷ items r)),
    append_assoc (items xl) (xa ∷ items xr) (a ∷ items r),
  )

  height_right :
      (l r : Tree A)
      → 2 + height l ≡ 0 + height r
      → suc (max (height l) (height r)) ≡ suc (height r)
  height_right l r e = omega arith

  height_left :
      (l r : Tree A)
      → 0 + height l ≡ 2 + height r
      → suc (max (height l) (height r)) ≡ suc (height l)
  height_left l r e = omega arith

  -- At a parent whose balance has become 2 or -2, with balanced children, the rotation meets no null
  -- pointer, keeps the data in order and gives a balanced tree, of the old height exactly when it
  -- returns NULL and else lower by one.
  pub avl_balance-Rights :
      (b : ℤ) (l : Tree A) (a : A) (r : Tree A)
      → IsAvl l
      → IsAvl r
      → (b ≡ pos 2) ⊎ (b ≡ negsuc 1)
      → pos_part b + height l ≡ neg_part b + height r
      → Rights (items l ++ a ∷ items r) (height (node b l a r)) (avl_balance b l a r)
  unfolding avl_balance
  avl_balance-Rights b l a r hl hr (inl e) d =
      rw (e, avl_balance)
        (rw (height_right l r (rw e at d))
          (balance_right-Rights l a r hl hr (omega (arith, rw e at d))))
  avl_balance-Rights b l a r hl hr (inr e) d =
      rw (e, avl_balance)
        (rw (height_left l r (rw e at d))
          (balance_left-Rights l a r hl hr (omega (arith, rw e at d))))
