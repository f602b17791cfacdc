-- ===== src/Avl/Order.antt =====
-- Data in increasing order of their keys.
use moon_in_water.Prelude.{ℕ, ◌≤◌, ◌<◌, ◌≡◌, ◌⊎◌, inl, inr, List, [], ◌∷◌, ◌++◌, arith}

module _ {A : Type 0} where
  abbrev pub All : (A → Type 0) → List A → Type 0
  All P [] = Unit
  All P (x ∷ xs) = P x × All P xs

  pub All-append : (P : A → Type 0) (xs ys : List A) → All P xs → All P ys → All P (xs ++ ys)
  All-append P [] ys h k = k
  All-append P (x ∷ xs) ys h k = (h.0, All-append P xs ys h.1 k)

  pub All-split : (P : A → Type 0) (xs ys : List A) → All P (xs ++ ys) → All P xs × All P ys
  All-split P [] ys h = (tt, h)
  All-split P (x ∷ xs) ys h = let (k, l) = All-split P xs ys h.1 in ((h.0, k), l)

  pub All-mono : (P Q : A → Type 0) (xs : List A) → ((a : A) → P a → Q a) → All P xs → All Q xs
  All-mono P Q [] f h = tt
  All-mono P Q (x ∷ xs) f h = (f x h.0, All-mono P Q xs f h.1)

  -- `a` stands in the list.
  abbrev pub In : A → List A → Type 0
  In a [] = ⊥
  In a (x ∷ xs) = (a ≡ x) ⊎ In a xs

  pub In-append_left : (a : A) (xs ys : List A) → In a xs → In a (xs ++ ys)
  In-append_left a [] ys h = absurd h
  In-append_left a (x ∷ xs) ys (inl e) = inl e
  In-append_left a (x ∷ xs) ys (inr h) = inr (In-append_left a xs ys h)

  pub In-append_right : (a : A) (xs ys : List A) → In a ys → In a (xs ++ ys)
  In-append_right a [] ys h = h
  In-append_right a (x ∷ xs) ys h = inr (In-append_right a xs ys h)

module _ {A : Type 0} (key : A → ℕ) where
  abbrev pub IsSorted : List A → Type 0
  IsSorted [] = Unit
  IsSorted (x ∷ xs) = All (λ y. key x < key y) xs × IsSorted xs

  abbrev pub Below : ℕ → List A → Type 0
  Below k = All (λ y. key y < k)

  abbrev pub Above : ℕ → List A → Type 0
  Above k = All (λ y. k < key y)

  -- A sorted list, taken apart at one of its elements.
  pub record IsParted (xs : List A) (a : A) (ys : List A) : Type 0 where
    pub left : IsSorted xs
    pub below : Below (key a) xs
    pub above : Above (key a) ys
    pub right : IsSorted ys

  pub IsSorted-part :
      (xs : List A) (a : A) (ys : List A) → IsSorted (xs ++ a ∷ ys) → IsParted xs a ys
  IsSorted-part [] a ys h = record { left = tt; below = tt; above = h.0; right = h.1 }
  IsSorted-part (x ∷ xs) a ys h =
      let rest = IsSorted-part xs a ys h.1 in
      let (first, others) = All-split (λ y. key x < key y) xs (a ∷ ys) h.0 in
      record {
        left = (first, rest.left);
        below = (others.0, rest.below);
        above = rest.above;
        right = rest.right;
      }

  pub IsSorted-join :
      (xs ys : List A) (k : ℕ)
      → IsSorted xs
      → IsSorted ys
      → All (λ y. key y ≤ k) xs
      → Above k ys
      → IsSorted (xs ++ ys)
  IsSorted-join [] ys k h1 h2 b a = h2
  IsSorted-join (x ∷ xs) ys k h1 h2 b a = (
    All-append (λ y. key x < key y) xs ys h1.0
        (All-mono (λ y. k < key y) (λ y. key x < key y) ys (λ y q. omega arith) a),
    IsSorted-join xs ys k h1.1 h2 b.1 a,
  )
