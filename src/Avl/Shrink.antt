-- ===== src/Avl/Shrink.antt =====
-- The climb of `avl_del2`, moon_code/common/src/moon_avltree.c: balance and order of the data.
use moon_in_water.Prelude.{
  ℕ, zero, suc, ◌≡◌, inl, inr, refl, sym, subst, true, false, none, some, [], ◌∷◌, arith, pos,
  negsuc, max, ◌+ℤ◌,
}
use moon_in_water.Avl.{Tree, node, from_left, from_right, Trail, rebuild, items, height}
use moon_in_water.Avl.Rotate.{Rotated, avl_balance}
use moon_in_water.Avl.Balance.{IsEven, IsAvl, Rights, avl_balance-Rights}
use moon_in_water.Avl.Grow.{IsOpen, Holds, rebuild-IsAvl, items-rebuild, same_items}
use moon_in_water.Avl.Del.{after_rotation, settle_del, climb_del}

module _ {A : Type 0} where
  after_rotation-Holds :
      (p : Trail A) (h : ℕ) (t : Tree A) (rot : Rotated A)
      → IsOpen p h
      → Rights (items t) h rot
      → ((u : Tree A) → IsAvl u → suc (height u) ≡ h → Holds (items (rebuild p u)) (climb_del p u))
      → Holds (items (rebuild p t)) (after_rotation p (climb_del p) rot)
  after_rotation-Holds p h t none o r up = absurd r
  after_rotation-Holds p h t (some (u, true)) o (v, same, old) up =
      (rebuild-IsAvl p u v (subst (IsOpen p) old o), items-rebuild p u t same)
  after_rotation-Holds p h t (some (u, false)) o (v, same, old) up =
      subst (λ xs. Holds xs (climb_del p u)) (items-rebuild p u t same) (up u v (sym old))

  old_height :
      {h : ℕ} (t r : Tree A)
      → suc (height t) ≡ h
      → IsEven (pos 1) h (height r)
      → suc (max (height t) (height r)) ≡ suc (max h (height r))
  old_height t r e o = omega (arith, e, o)

  old_height_right :
      {h : ℕ} (l t : Tree A)
      → suc (height t) ≡ h
      → IsEven (negsuc 0) (height l) h
      → suc (max (height l) (height t)) ≡ suc (max (height l) h)
  old_height_right l t e o = omega (arith, e, o)

  pub climb_del-Holds :
      (p : Trail A) (t : Tree A) (h : ℕ)
      → IsAvl t
      → suc (height t) ≡ h
      → IsOpen p h
      → Holds (items (rebuild p t)) (climb_del p t)
  unfolding climb_del settle_del ◌+ℤ◌
  climb_del-Holds [] t h v e o = (v, refl)
  climb_del-Holds (from_left (pos zero) a r ∷ p) t h v e o = (
    rebuild-IsAvl p (node (pos 1) t a r) (v, o.0, omega (arith, e, o.1))
        (subst (IsOpen p) (omega (arith, e, o.1)) o.2),
    items-rebuild p (node (pos 1) t a r) (node (pos 0) t a r) refl,
  )
  climb_del-Holds (from_left (negsuc zero) a r ∷ p) t h v e o =
      same_items p (pos 0) (negsuc 0) t a r _ (
        climb_del-Holds p (node (pos 0) t a r) (suc (max h (height r)))
          (v, o.0, omega (arith, e, o.1)) (omega (arith, e, o.1)) o.2)
  climb_del-Holds (from_left (pos (suc zero)) a r ∷ p) t h v e o =
      same_items p (pos 2) (pos 1) t a r _ (
        after_rotation-Holds p (suc (max h (height r))) (node (pos 2) t a r)
          (avl_balance (pos 2) t a r) o.2
          (rw (old_height t r e o.1) at
            (avl_balance-Rights (pos 2) t a r v o.0 (inl refl) (omega (arith, e, o.1))))
          (λ u w low. climb_del-Holds p u (suc (max h (height r))) w low o.2))
  climb_del-Holds (from_left (pos (suc (suc n))) a r ∷ p) t h v e o = absurd (omega (arith, o.1))
  climb_del-Holds (from_left (negsuc (suc n)) a r ∷ p) t h v e o = absurd (omega (arith, o.1))
  climb_del-Holds (from_right (pos zero) l a ∷ p) t h v e o = (
    rebuild-IsAvl p (node (negsuc 0) l a t) (o.0, v, omega (arith, e, o.1))
        (subst (IsOpen p) (omega (arith, e, o.1)) o.2),
    items-rebuild p (node (negsuc 0) l a t) (node (pos 0) l a t) refl,
  )
  climb_del-Holds (from_right (pos (suc zero)) l a ∷ p) t h v e o =
      same_items p (pos 0) (pos 1) l a t _ (
        climb_del-Holds p (node (pos 0) l a t) (suc (max (height l) h))
          (o.0, v, omega (arith, e, o.1)) (omega (arith, e, o.1)) o.2)
  climb_del-Holds (from_right (negsuc zero) l a ∷ p) t h v e o =
      same_items p (negsuc 1) (negsuc 0) l a t _ (
        after_rotation-Holds p (suc (max (height l) h)) (node (negsuc 1) l a t)
          (avl_balance (negsuc 1) l a t) o.2
          (rw (old_height_right l t e o.1) at
            (avl_balance-Rights (negsuc 1) l a t o.0 v (inr refl) (omega (arith, e, o.1))))
          (λ u w low. climb_del-Holds p u (suc (max (height l) h)) w low o.2))
  climb_del-Holds (from_right (pos (suc (suc n))) l a ∷ p) t h v e o = absurd (omega (arith, o.1))
  climb_del-Holds (from_right (negsuc (suc n)) l a ∷ p) t h v e o = absurd (omega (arith, o.1))
