-- ===== src/Avl/Remove.antt =====
-- `avl_del2` at any node of a balanced tree.
use moon_in_water.Prelude.{
  ℕ, suc, ◌≡◌, inl, inr, refl, sym, ap, subst, ◌∙◌, true, false, [], ◌∷◌, ◌++◌, append_assoc,
  append-nil, arith, ℤ, pos, max, leb_ℤ, Bool-cases,
}
use moon_in_water.Avl.{Tree, leaf, node, from_left, from_right, Trail, plug, rebuild, items, height}
use moon_in_water.Avl.Balance.{IsEven, IsAvl}
use moon_in_water.Avl.Grow.{
  IsOpen, Holds, rebuild-IsAvl, items-rebuild, items_around, before, after,
}
use moon_in_water.Avl.Del.{climb_del, rightmost, leftmost, del_before, del_after, avl_del2}
use moon_in_water.Avl.Shrink.{climb_del-Holds}

heavy_right : (b : ℤ) (h : ℕ) → IsEven b 0 (suc h) → leb_ℤ b (pos 0) ≡ false
heavy_right b h e = ground (arith, e)

heavy_left : (b : ℤ) (h : ℕ) → IsEven b (suc h) 0 → leb_ℤ b (pos 0) ≡ true
heavy_left b h e = ground (arith, e)

module _ {A : Type 0} where
  -- A balanced tree is balanced at each of its nodes, and all the way up from it.
  pub rebuild-IsOpen :
      (p : Trail A) (t : Tree A) → IsAvl (rebuild p t) → IsAvl t × IsOpen p (height t)
  rebuild-IsOpen [] t v = (v, tt)
  rebuild-IsOpen (from_left b a r ∷ p) t v =
      let (w, o) = rebuild-IsOpen p (node b t a r) v in (w.0, (w.1, w.2, o))
  rebuild-IsOpen (from_right b l a ∷ p) t v =
      let (w, o) = rebuild-IsOpen p (node b l a t) v in (w.1, (w.0, w.2, o))

  pub rebuild-append : (q p : Trail A) (t : Tree A) → rebuild (q ++ p) t ≡ rebuild p (rebuild q t)
  rebuild-append [] p t = refl
  rebuild-append (f ∷ q) p t = rebuild-append q p (plug f t)

  rightmost-same :
      (q : Trail A) (b : ℤ) (l : Tree A) (a : A) (r : Tree A)
      → let n = rightmost q b l a r in
        (rebuild n.trail (node n.balance n.child n.value leaf) ≡ rebuild q (node b l a r))
        × (after n.trail ≡ after q)
  unfolding rightmost after
  rightmost-same q b l a leaf = (refl, refl)
  rightmost-same q b l a (node rb rl ra rr) = rightmost-same (from_right b l a ∷ q) rb rl ra rr

  leftmost-same :
      (q : Trail A) (b : ℤ) (l : Tree A) (a : A) (r : Tree A)
      → let n = leftmost q b l a r in
        (rebuild n.trail (node n.balance leaf n.value n.child) ≡ rebuild q (node b l a r))
        × (before n.trail ≡ before q)
  unfolding leftmost before
  leftmost-same q b leaf a r = (refl, refl)
  leftmost-same q b (node lb ll la lr) a r = leftmost-same (from_left b a r ∷ q) lb ll la lr

  -- The rightmost data comes last, and its child stands for the rest below it.
  items-rightmost :
      (b : ℤ) (l : Tree A) (a : A) (r : Tree A)
      → let n = rightmost [] b l a r in
        items (rebuild n.trail n.child) ++ n.value ∷ [] ≡ items (node b l a r)
  unfolding after
  items-rightmost b l a r =
      let n = rightmost [] b l a r in
      let (same, tail) = rightmost-same [] b l a r in
      let around = items_around n.trail (node n.balance n.child n.value leaf) in
      ap (λ xs. xs ++ n.value ∷ []) (items_around n.trail n.child)
      ∙ append_assoc (before n.trail) (items n.child ++ after n.trail) (n.value ∷ [])
      ∙ ap (λ xs. before n.trail ++ ((items n.child ++ xs) ++ n.value ∷ [])) tail
      ∙ ap (λ xs. before n.trail ++ (xs ++ n.value ∷ [])) (append-nil (items n.child))
      ∙ sym (append-nil (before n.trail ++ (items n.child ++ n.value ∷ [])))
      ∙ append_assoc (before n.trail) (items n.child ++ n.value ∷ []) []
      ∙ ap (λ xs. before n.trail ++ ((items n.child ++ n.value ∷ []) ++ xs)) (sym tail)
      ∙ sym around
      ∙ ap items same

  items-leftmost :
      (b : ℤ) (l : Tree A) (a : A) (r : Tree A)
      → let n = leftmost [] b l a r in
        n.value ∷ items (rebuild n.trail n.child) ≡ items (node b l a r)
  unfolding before
  items-leftmost b l a r =
      let n = leftmost [] b l a r in
      let (same, head) = leftmost-same [] b l a r in
      let around = items_around n.trail (node n.balance leaf n.value n.child) in
      ap (λ xs. n.value ∷ xs) (items_around n.trail n.child)
      ∙ ap (λ xs. n.value ∷ (xs ++ (items n.child ++ after n.trail))) head
      ∙ ap (λ xs. xs ++ n.value ∷ (items n.child ++ after n.trail)) (sym head)
      ∙ sym around
      ∙ ap items same

  -- The climb begins below a node whose child on that side is gone.
  before_child :
      (t : Tree A) (q p : Trail A) (b : ℤ) (a : A)
      → IsAvl (rebuild p (node b t a leaf))
      → Holds
          (items (rebuild p t))
          (del_before (record { trail = q; balance = b; value = a; child = t }) p)
  unfolding del_before
  before_child leaf q p b a v =
      climb_del-Holds p leaf 1 tt refl (rebuild-IsOpen p (node b leaf a leaf) v).1
  before_child (node cb leaf c leaf) q p b a v =
      let (w, o) = rebuild-IsOpen p (node b (node cb leaf c leaf) a leaf) v in
      subst (λ xs. Holds xs (climb_del (from_left b c leaf ∷ p) leaf))
        (items-rebuild p (node b leaf c leaf) (node cb leaf c leaf) refl)
        (climb_del-Holds (from_left b c leaf ∷ p) leaf 1 tt refl (tt, w.2, o))
  before_child (node cb (node xb xl x xr) c cr) q p b a v =
      let (w, o) = rebuild-IsOpen p (node b (node cb (node xb xl x xr) c cr) a leaf) v in
      absurd (omega (arith, w.2))
  before_child (node cb leaf c (node xb xl x xr)) q p b a v =
      let (w, o) = rebuild-IsOpen p (node b (node cb leaf c (node xb xl x xr)) a leaf) v in
      absurd (omega (arith, w.2))

  after_child :
      (t : Tree A) (q p : Trail A) (b : ℤ) (a : A)
      → IsAvl (rebuild p (node b leaf a t))
      → Holds
          (items (rebuild p t))
          (del_after (record { trail = q; balance = b; value = a; child = t }) p)
  unfolding del_after
  after_child leaf q p b a v =
      climb_del-Holds p leaf 1 tt refl (rebuild-IsOpen p (node b leaf a leaf) v).1
  after_child (node cb leaf c leaf) q p b a v =
      let (w, o) = rebuild-IsOpen p (node b leaf a (node cb leaf c leaf)) v in
      subst (λ xs. Holds xs (climb_del (from_right b leaf c ∷ p) leaf))
        (items-rebuild p (node b leaf c leaf) (node cb leaf c leaf) refl)
        (climb_del-Holds (from_right b leaf c ∷ p) leaf 1 tt refl (tt, w.2, o))
  after_child (node cb (node xb xl x xr) c cr) q p b a v =
      let (w, o) = rebuild-IsOpen p (node b leaf a (node cb (node xb xl x xr) c cr)) v in
      absurd (omega (arith, w.2))
  after_child (node cb leaf c (node xb xl x xr)) q p b a v =
      let (w, o) = rebuild-IsOpen p (node b leaf a (node cb leaf c (node xb xl x xr))) v in
      absurd (omega (arith, w.2))

  -- Other data at a node of a balanced tree.
  with_value :
      (p : Trail A) (b : ℤ) (l : Tree A) (a c : A) (r : Tree A)
      → IsAvl (rebuild p (node b l a r))
      → IsAvl (rebuild p (node b l c r))
  with_value p b l a c r v =
      let (w, o) = rebuild-IsOpen p (node b l a r) v in rebuild-IsAvl p (node b l c r) w o

  -- The data of the left neighbour moves up to the node.
  move_before :
      (p : Trail A) (b lb : ℤ) (ll : Tree A) (la : A) (lr : Tree A) (a : A) (r : Tree A)
      → IsAvl (rebuild p (node b (node lb ll la lr) a r))
      → let n = rightmost [] lb ll la lr in
        Holds
          (before p ++ ((items (node lb ll la lr) ++ items r) ++ after p))
          (del_before n (n.trail ++ from_left b n.value r ∷ p))
  move_before p b lb ll la lr a r v =
      let n = rightmost [] lb ll la lr in
      let low = node n.balance n.child n.value leaf in
      let q = n.trail ++ from_left b n.value r ∷ p in
      let there : rebuild q low ≡ rebuild p (node b (node lb ll la lr) n.value r) =
        rebuild-append n.trail (from_left b n.value r ∷ p) low
        ∙ ap (λ t. rebuild p (node b t n.value r)) (rightmost-same [] lb ll la lr).0 in
      let balanced = with_value p b (node lb ll la lr) a n.value r v in
      let data_of : items (rebuild q n.child)
          ≡ before p ++ ((items (node lb ll la lr) ++ items r) ++ after p) =
        ap items (rebuild-append n.trail (from_left b n.value r ∷ p) n.child)
        ∙ items_around p (node b (rebuild n.trail n.child) n.value r)
        ∙ ap (λ xs. before p ++ (xs ++ after p))
            (sym (append_assoc (items (rebuild n.trail n.child)) (n.value ∷ []) (items r))
              ∙ ap (λ xs. xs ++ items r) (items-rightmost lb ll la lr)) in
      subst (λ xs. Holds xs (del_before n q)) data_of
        (before_child n.child n.trail q n.balance n.value (subst IsAvl (sym there) balanced))

  -- The data of the right neighbour moves up to the node.
  move_after :
      (p : Trail A) (b : ℤ) (l : Tree A) (a : A) (rb : ℤ) (rl : Tree A) (ra : A) (rr : Tree A)
      → IsAvl (rebuild p (node b l a (node rb rl ra rr)))
      → let n = leftmost [] rb rl ra rr in
        Holds
          (before p ++ ((items l ++ items (node rb rl ra rr)) ++ after p))
          (del_after n (n.trail ++ from_right b l n.value ∷ p))
  move_after p b l a rb rl ra rr v =
      let n = leftmost [] rb rl ra rr in
      let low = node n.balance leaf n.value n.child in
      let q = n.trail ++ from_right b l n.value ∷ p in
      let there : rebuild q low ≡ rebuild p (node b l n.value (node rb rl ra rr)) =
        rebuild-append n.trail (from_right b l n.value ∷ p) low
        ∙ ap (λ t. rebuild p (node b l n.value t)) (leftmost-same [] rb rl ra rr).0 in
      let balanced = with_value p b l a n.value (node rb rl ra rr) v in
      let data_of : items (rebuild q n.child)
          ≡ before p ++ ((items l ++ items (node rb rl ra rr)) ++ after p) =
        ap items (rebuild-append n.trail (from_right b l n.value ∷ p) n.child)
        ∙ items_around p (node b l n.value (rebuild n.trail n.child))
        ∙ ap (λ xs. before p ++ ((items l ++ xs) ++ after p)) (items-leftmost rb rl ra rr) in
      subst (λ xs. Holds xs (del_after n q)) data_of
        (after_child n.child n.trail q n.balance n.value (subst IsAvl (sym there) balanced))

  -- `avl_del2` at any node of a balanced tree meets no null pointer and its loop ends: it gives a
  -- balanced tree of the other data in their order.
  pub avl_del2-Holds :
      (p : Trail A) (b : ℤ) (l : Tree A) (a : A) (r : Tree A)
      → IsAvl (rebuild p (node b l a r))
      → Holds (before p ++ ((items l ++ items r) ++ after p)) (avl_del2 p b l a r)
  unfolding avl_del2
  avl_del2-Holds p b leaf a leaf v =
      subst (λ xs. Holds xs (climb_del p leaf)) (items_around p leaf)
        (climb_del-Holds p leaf 1 tt refl (rebuild-IsOpen p (node b leaf a leaf) v).1)
  avl_del2-Holds p b leaf a (node rb rl ra rr) v =
      let even = (rebuild-IsOpen p (node b leaf a (node rb rl ra rr)) v).0.2 in
      rw (heavy_right b (max (height rl) (height rr)) even) (move_after p b leaf a rb rl ra rr v)
  avl_del2-Holds p b (node lb ll la lr) a leaf v =
      let even = (rebuild-IsOpen p (node b (node lb ll la lr) a leaf) v).0.2 in
      rw (heavy_left b (max (height ll) (height lr)) even) (move_before p b lb ll la lr a leaf v)
  avl_del2-Holds p b (node lb ll la lr) a (node rb rl ra rr) v =
      elim (Bool-cases (leb_ℤ b (pos 0))) [
        | inl not_right ↦ rw not_right (move_before p b lb ll la lr a (node rb rl ra rr) v)
        | inr right ↦ rw right (move_after p b (node lb ll la lr) a rb rl ra rr v)
      ]
