-- ===== src/Dlist/Chain.antt =====
-- Nodes that are linked in a row.
use moon_in_water.Prelude.{
  ℕ, ◌≡◌, ◌≢◌, refl, sym, ◌∙◌, List, [], ◌∷◌, ◌++◌, ◌==◌, arith, true, false,
}
use moon_in_water.Dlist.{Store, set_prev, set_next, null}

-- The first node of a row, or what comes behind an empty one.
abbrev pub first : List ℕ → ℕ → ℕ
first [] n = n
first (x ∷ xs) n = x

-- The last node of a row, or what comes before an empty one.
abbrev pub last : ℕ → List ℕ → ℕ
last p [] = p
last p (x ∷ xs) = last x xs

-- The nodes `xs` in a row, with `p` before and `n` behind.
abbrev pub IsChain : Store → ℕ → List ℕ → ℕ → Type 0
IsChain s p [] n = Unit
IsChain s p (x ∷ xs) n = ((s x).prev ≡ p) × ((s x).next ≡ first xs n) × IsChain s x xs n

-- `a` is none of the nodes.
abbrev pub IsApart : ℕ → List ℕ → Type 0
IsApart a [] = Unit
IsApart a (x ∷ xs) = (x ≢ a) × IsApart a xs

-- No node is NULL or stands twice.
abbrev pub IsRow : List ℕ → Type 0
IsRow [] = Unit
IsRow (x ∷ xs) = (x ≢ null) × IsApart x xs × IsRow xs

pub first-append : (xs : List ℕ) (y : ℕ) (ys : List ℕ) (n : ℕ) → first (xs ++ y ∷ ys) n ≡ first xs y
first-append [] y ys n = refl
first-append (x ∷ xs) y ys n = refl

pub IsChain-split :
    (s : Store) (p : ℕ) (xs : List ℕ) (y : ℕ) (ys : List ℕ) (n : ℕ)
    → IsChain s p (xs ++ y ∷ ys) n
    → IsChain s p xs y × IsChain s (last p xs) (y ∷ ys) n
IsChain-split s p [] y ys n c = (tt, c)
IsChain-split s p (x ∷ xs) y ys n (a, b, c) =
    let (l, r) = IsChain-split s x xs y ys n c in ((a, b ∙ first-append xs y ys n, l), r)

pub IsChain-join :
    (s : Store) (p : ℕ) (xs : List ℕ) (y : ℕ) (ys : List ℕ) (n : ℕ)
    → IsChain s p xs y
    → IsChain s (last p xs) (y ∷ ys) n
    → IsChain s p (xs ++ y ∷ ys) n
IsChain-join s p [] y ys n l r = r
IsChain-join s p (x ∷ xs) y ys n (a, b, c) r =
    (a, b ∙ sym (first-append xs y ys n), IsChain-join s x xs y ys n c r)

pub IsApart-split :
    (a : ℕ) (xs : List ℕ) (y : ℕ) (ys : List ℕ)
    → IsApart a (xs ++ y ∷ ys)
    → IsApart a xs × (y ≢ a) × IsApart a ys
IsApart-split a [] y ys h = (tt, h.0, h.1)
IsApart-split a (x ∷ xs) y ys h = let (l, m, r) = IsApart-split a xs y ys h.1 in ((h.0, l), m, r)

-- A node of a row stands apart from those before it and behind it.
pub IsRow-split :
    (xs : List ℕ) (y : ℕ) (ys : List ℕ)
    → IsRow (xs ++ y ∷ ys)
    → IsRow xs × IsApart y xs × (y ≢ null) × IsApart y ys × IsRow ys
IsRow-split [] y ys h = (tt, tt, h.0, h.1, h.2)
IsRow-split (x ∷ xs) y ys (a, b, c) =
    let (l, m, k, r, q) = IsRow-split xs y ys c in
    let (b1, b2, b3) = IsApart-split x xs y ys b in ((a, b1, l), (λ e. b2 (sym e), m), k, r, q)

-- What the links of a node are after a change.
pub set_prev-same :
    (s : Store) (at value : ℕ) → set_prev s at value at ≡ record (s at) { prev = value }
unfolding set_prev
set_prev-same s at value = let here : (at == at) ≡ true = ground arith in rw here refl

pub set_next-same :
    (s : Store) (at value : ℕ) → set_next s at value at ≡ record (s at) { next = value }
unfolding set_next
set_next-same s at value = let here : (at == at) ≡ true = ground arith in rw here refl

pub set_prev_other : (s : Store) (at value x : ℕ) → x ≢ at → set_prev s at value x ≡ s x
unfolding set_prev
set_prev_other s at value x h = let other : (x == at) ≡ false = ground arith in rw other refl

pub set_next_other : (s : Store) (at value x : ℕ) → x ≢ at → set_next s at value x ≡ s x
unfolding set_next
set_next_other s at value x h = let other : (x == at) ≡ false = ground arith in rw other refl

-- A change at another node does not touch a row.
pub set_prev-IsChain :
    (s : Store) (at value p : ℕ) (xs : List ℕ) (n : ℕ)
    → IsApart at xs
    → IsChain s p xs n
    → IsChain (set_prev s at value) p xs n
set_prev-IsChain s at value p [] n h c = tt
set_prev-IsChain s at value p (x ∷ xs) n (h, k) (a, b, c) =
    let same = set_prev_other s at value x h in
    (rw same a, rw same b, set_prev-IsChain s at value x xs n k c)

pub set_next-IsChain :
    (s : Store) (at value p : ℕ) (xs : List ℕ) (n : ℕ)
    → IsApart at xs
    → IsChain s p xs n
    → IsChain (set_next s at value) p xs n
set_next-IsChain s at value p [] n h c = tt
set_next-IsChain s at value p (x ∷ xs) n (h, k) (a, b, c) =
    let same = set_next_other s at value x h in
    (rw same a, rw same b, set_next-IsChain s at value x xs n k c)
