-- ===== src/Avl/Grow.antt =====
-- The climb of `avl_add2`, moon_code/common/src/moon_avltree.c: balance and order of the data.
use moon_in_water.Prelude.{
  ℕ, zero, suc, ◌<◌, ◌≡◌, ◌⊎◌, inl, inr, refl, sym, ap, subst, ◌∙◌, Option, none, some, List, [],
  ◌∷◌, ◌++◌, append_assoc, append-nil, arith, ℤ, pos, negsuc, max, ◌+ℤ◌,
}
use moon_in_water.Avl.{Tree, node, from_left, from_right, Trail, rebuild, items, height}
use moon_in_water.Avl.Rotate.{Rotated, avl_balance}
use moon_in_water.Avl.Balance.{
  IsEven, IsAvl, Rights, Leans, Lowers, avl_balance-Rights, avl_balance-Lowers_left,
  avl_balance-Lowers_right,
}
use moon_in_water.Avl.Add.{rebuilt, settle_add, climb_add}

module _ {A : Type 0} where
  -- Every parent on the path is balanced, when the subtree below has height `h`.
  abbrev pub IsOpen : Trail A → ℕ → Type 0
  IsOpen [] h = Unit
  IsOpen (from_left b a r ∷ p) h =
      IsAvl r × IsEven b h (height r) × IsOpen p (suc (max h (height r)))
  IsOpen (from_right b l a ∷ p) h =
      IsAvl l × IsEven b (height l) h × IsOpen p (suc (max (height l) h))

  pub rebuild-IsAvl :
      (p : Trail A) (t : Tree A) → IsAvl t → IsOpen p (height t) → IsAvl (rebuild p t)
  rebuild-IsAvl [] t v o = v
  rebuild-IsAvl (from_left b a r ∷ p) t v o = rebuild-IsAvl p (node b t a r) (v, o.0, o.1) o.2
  rebuild-IsAvl (from_right b l a ∷ p) t v o = rebuild-IsAvl p (node b l a t) (o.0, v, o.1) o.2

  pub items-rebuild :
      (p : Trail A) (t u : Tree A) → items t ≡ items u → items (rebuild p t) ≡ items (rebuild p u)
  items-rebuild [] t u e = e
  items-rebuild (from_left b a r ∷ p) t u e =
      items-rebuild p (node b t a r) (node b u a r) (ap (λ xs. xs ++ a ∷ items r) e)
  items-rebuild (from_right b l a ∷ p) t u e =
      items-rebuild p (node b l a t) (node b l a u) (ap (λ xs. items l ++ a ∷ xs) e)

  -- A balanced tree of the data `xs`.
  abbrev pub Holds : List A → Option (Tree A) → Type 0
  Holds xs none = ⊥
  Holds xs (some t) = IsAvl t × (items t ≡ xs)

  -- A rotation that lowers a subtree back to `h` ends the climb.
  rebuilt-Holds :
      (p : Trail A) (h : ℕ) (t : Tree A) (rot : Rotated A)
      → IsOpen p h
      → Rights (items t) (suc h) rot
      → Lowers rot
      → Holds (items (rebuild p t)) (rebuilt p rot)
  rebuilt-Holds p h t none o r l = absurd r
  rebuilt-Holds p h t (some (u, stop)) o (v, same, old) l =
      let low : h ≡ height u = omega (arith, rw l at old) in
      (rebuild-IsAvl p u v (subst (IsOpen p) low o), items-rebuild p u t same)

  -- A subtree that has grown from height `h`: it leans, or it is the new node.
  pub record Grown (t : Tree A) (h : ℕ) : Type 0 where
    pub even : IsAvl t
    pub higher : height t ≡ suc h
    pub leans : (h ≡ 0) ⊎ Leans t

  higher_left :
      {t : Tree A} {h hr : ℕ}
      → Grown t h
      → IsEven (negsuc 0) h hr
      → suc (max (height t) hr) ≡ suc (suc (max h hr))
  higher_left g e = omega (arith, g.higher, e)

  higher_right :
      {t : Tree A} {h hl : ℕ}
      → Grown t h
      → IsEven (pos 1) hl h
      → suc (max hl (height t)) ≡ suc (suc (max hl h))
  higher_right g e = omega (arith, g.higher, e)

  -- The data does not depend on a parent's balance.
  pub same_items :
      (p : Trail A) (b c : ℤ) (l : Tree A) (a : A) (r : Tree A) (o : Option (Tree A))
      → Holds (items (rebuild p (node b l a r))) o
      → Holds (items (rebuild p (node c l a r))) o
  same_items p b c l a r o =
      subst (λ xs. Holds xs o) (items-rebuild p (node b l a r) (node c l a r) refl)

  Grown-Leans : {t : Tree A} {h : ℕ} → Grown t h → 0 < h → Leans t
  Grown-Leans g pos_h = elim g.leans [ inl e ↦ absurd (omega (arith, e)) | inr l ↦ l ]

  -- The parent's own balance says which of the three cases holds.
  pub climb_add-Holds :
      (p : Trail A) (t : Tree A) (h : ℕ)
      → Grown t h
      → IsOpen p h
      → Holds (items (rebuild p t)) (climb_add p t)
  unfolding climb_add settle_add ◌+ℤ◌
  climb_add-Holds [] t h g o = (g.even, refl)
  climb_add-Holds (from_left (pos zero) a r ∷ p) t h g o = same_items p (negsuc 0) (pos 0) t a r _ (
      climb_add-Holds p (node (negsuc 0) t a r) (suc (max h (height r)))
        (record {
          even = (g.even, o.0, omega (arith, g.higher, o.1));
          higher = omega (arith, g.higher, o.1);
          leans = inr (λ e. ground arith);
        })
        o.2)
  climb_add-Holds (from_left (pos (suc zero)) a r ∷ p) t h g o = (
    rebuild-IsAvl p (node (pos 0) t a r) (g.even, o.0, omega (arith, g.higher, o.1))
        (subst (IsOpen p) (omega (arith, g.higher, o.1)) o.2),
    items-rebuild p (node (pos 0) t a r) (node (pos 1) t a r) refl,
  )
  climb_add-Holds (from_left (pos (suc (suc n))) a r ∷ p) t h g o = absurd (omega (arith, o.1))
  climb_add-Holds (from_left (negsuc zero) a r ∷ p) t h g o =
      let tilt =
        avl_balance-Rights (negsuc 1) t a r g.even o.0 (inr refl) (omega (arith, g.higher, o.1)) in
      same_items p (negsuc 1) (negsuc 0) t a r _ (
        rebuilt-Holds p (suc (max h (height r))) (node (negsuc 1) t a r)
          (avl_balance (negsuc 1) t a r) o.2 (rw (higher_left g o.1) at tilt)
          (avl_balance-Lowers_left t a r (Grown-Leans g (omega (arith, o.1)))))
  climb_add-Holds (from_left (negsuc (suc n)) a r ∷ p) t h g o = absurd (omega (arith, o.1))
  climb_add-Holds (from_right (negsuc zero) l a ∷ p) t h g o = (
    rebuild-IsAvl p (node (pos 0) l a t) (o.0, g.even, omega (arith, g.higher, o.1))
        (subst (IsOpen p) (omega (arith, g.higher, o.1)) o.2),
    items-rebuild p (node (pos 0) l a t) (node (negsuc 0) l a t) refl,
  )
  climb_add-Holds (from_right (negsuc (suc n)) l a ∷ p) t h g o = absurd (omega (arith, o.1))
  climb_add-Holds (from_right (pos zero) l a ∷ p) t h g o = same_items p (pos 1) (pos 0) l a t _ (
      climb_add-Holds p (node (pos 1) l a t) (suc (max (height l) h))
        (record {
          even = (o.0, g.even, omega (arith, g.higher, o.1));
          higher = omega (arith, g.higher, o.1);
          leans = inr (λ e. ground arith);
        })
        o.2)
  climb_add-Holds (from_right (pos (suc zero)) l a ∷ p) t h g o =
      let tilt =
        avl_balance-Rights (pos 2) l a t o.0 g.even (inl refl) (omega (arith, g.higher, o.1)) in
      same_items p (pos 2) (pos 1) l a t _ (
        rebuilt-Holds p (suc (max (height l) h)) (node (pos 2) l a t) (avl_balance (pos 2) l a t)
          o.2 (rw (higher_right g o.1) at tilt)
          (avl_balance-Lowers_right l a t (Grown-Leans g (omega (arith, o.1)))))
  climb_add-Holds (from_right (pos (suc (suc n))) l a ∷ p) t h g o = absurd (omega (arith, o.1))

  -- The climb from a new node put at a null child.
  unfoldable pub before : Trail A → List A
  before [] = []
  before (from_left b a r ∷ p) = before p
  before (from_right b l a ∷ p) = before p ++ (items l ++ a ∷ [])

  unfoldable pub after : Trail A → List A
  after [] = []
  after (from_left b a r ∷ p) = a ∷ (items r ++ after p)
  after (from_right b l a ∷ p) = after p

  pub items_around :
      (p : Trail A) (t : Tree A) → items (rebuild p t) ≡ before p ++ (items t ++ after p)
  unfolding before after
  items_around [] t = sym (append-nil (items t))
  items_around (from_left b a r ∷ p) t =
      items_around p (node b t a r)
      ∙ ap (λ xs. before p ++ xs) (append_assoc (items t) (a ∷ items r) (after p))
  items_around (from_right b l a ∷ p) t =
      items_around p (node b l a t)
      ∙ ap (λ xs. before p ++ xs) (append_assoc (items l) (a ∷ items t) (after p))
      ∙ sym (
          append_assoc (before p) (items l ++ a ∷ []) (items t ++ after p)
          ∙ ap (λ xs. before p ++ xs) (append_assoc (items l) (a ∷ []) (items t ++ after p)))
