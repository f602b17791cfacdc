-- ===== src/Structs/Layout.antt =====
-- What a host makes of the description that another one sends, moon_code/sync/src/shell/append.c.
use moon_in_water.Prelude.{
  ℕ, zero, suc, ◌^◌, ◌<◌, ◌≡◌, refl, ap, sym, ◌∙◌, arith, List, [], ◌∷◌, ◌++◌, append_assoc, some,
  length,
}
use moon_in_water.Wire.{Host, low_first}
use moon_in_water.Wire.Order.{store-convert_uint32, convert_uint32-load}
use moon_in_water.Structs.{
  Var, StructOne, put_word, first_addr, put_sizes, put_addr, put_vars, place_var, place_first,
  get_word, get_sizes, get_addrs, get_vars,
}

put_word_lem : (h : Host) (w : ℕ) → w < 2 ^ 32 → put_word h w ≡ low_first 4 w
unfolding put_word
put_word_lem h w k = store-convert_uint32 h w k

get_word-low_first :
    (h : Host) (w : ℕ) (rest : List ℕ)
    → w < 2 ^ 32
    → get_word h (low_first 4 w ++ rest) ≡ some (w, rest)
unfolding get_word low_first
get_word-low_first h w rest k =
    ap (λ x. some (x, rest)) (unfold low_first in convert_uint32-load h w k)

get_word-put_word :
    (h h' : Host) (w : ℕ) (rest : List ℕ)
    → w < 2 ^ 32
    → get_word h' (put_word h w ++ rest) ≡ some (w, rest)
get_word-put_word h h' w rest k = rw (put_word_lem h w k) (get_word-low_first h' w rest k)

pub length-put_word : (h : Host) (w : ℕ) → w < 2 ^ 32 → length (put_word h w) ≡ 4
unfolding low_first
length-put_word h w k = rw (put_word_lem h w k) refl

-- The same types with the same numbers of fields, and numbers that fit a word.
abbrev pub AreAlike : List StructOne → List StructOne → Type 0
AreAlike [] [] = Unit {0}
AreAlike [] (t ∷ theirs) = ⊥
AreAlike (s ∷ own) [] = ⊥
AreAlike (s ∷ own) (t ∷ theirs) = (length s.vars ≡ length t.vars) × AreAlike own theirs

abbrev pub AreWords : List StructOne → Type 0
AreWords [] = Unit {0}
AreWords (s ∷ all) = (s.size < 2 ^ 32) × (first_addr s.vars < 2 ^ 32) × AreWords all

-- A host's own description with the sizes of the other, and with the address of the first field of each type.
unfoldable pub adopt_sizes : List StructOne → List StructOne → List StructOne
adopt_sizes [] theirs = []
adopt_sizes (s ∷ own) [] = []
adopt_sizes (s ∷ own) (t ∷ theirs) = record s { size = t.size } ∷ adopt_sizes own theirs

unfoldable pub adopt_first : List StructOne → List StructOne → List StructOne → List StructOne
adopt_first sized [] theirs = []
adopt_first sized (s ∷ own) [] = []
adopt_first sized (s ∷ own) (t ∷ theirs) =
    record s { vars = place_first sized (first_addr t.vars) s.vars } ∷ adopt_first sized own theirs

module _ (h h' : Host) where
  get_sizes_step :
      (s : StructOne) (own : List StructOne) (bytes more : List ℕ) (w : ℕ) (all : List StructOne)
      (rest : List ℕ)
      → get_word h' bytes ≡ some (w, more)
      → get_sizes h' own more ≡ some (all, rest)
      → get_sizes h' (s ∷ own) bytes ≡ some (record s { size = w } ∷ all, rest)
  unfolding get_sizes
  get_sizes_step s own bytes more w all rest d e = ground arith

  pub get_sizes-put_sizes :
      (own theirs : List StructOne) (rest : List ℕ)
      → AreAlike own theirs
      → AreWords theirs
      → get_sizes h' own (put_sizes h theirs ++ rest) ≡ some (adopt_sizes own theirs, rest)
  unfolding get_sizes put_sizes adopt_sizes
  get_sizes-put_sizes [] [] rest a b = refl
  get_sizes-put_sizes [] (t ∷ theirs) rest a b = absurd a
  get_sizes-put_sizes (s ∷ own) [] rest a b = absurd a
  get_sizes-put_sizes (s ∷ own) (t ∷ theirs) rest a b =
      rw (append_assoc (put_word h t.size) (put_sizes h theirs) rest) (
        get_sizes_step s own _ _ t.size _ rest (get_word-put_word h h' t.size _ b.0)
          (get_sizes-put_sizes own theirs rest a.1 b.2))

  get_addrs_step :
      (sized : List StructOne) (n : ℕ) (vars : List Var) (bytes more : List ℕ) (w : ℕ)
      → get_word h' bytes ≡ some (w, more)
      → get_addrs h' sized (suc n) vars bytes ≡ get_addrs h' sized n (place_first sized w vars) more
  unfolding get_addrs
  get_addrs_step sized n vars bytes more w e = ground arith

  get_addrs_next :
      (sized : List StructOne) (n : ℕ) (vars : List Var) (a : ℕ) (rest : List ℕ)
      → a < 2 ^ 32
      → get_addrs h' sized (suc n) vars (put_addr h (suc n) a ++ rest)
        ≡ get_addrs h' sized n (place_first sized a vars) (put_addr h n a ++ rest)
  unfolding put_addr
  get_addrs_next sized n vars a rest k =
      rw (append_assoc (put_word h a) (put_addr h n a) rest)
        (get_addrs_step sized n vars _ _ a (get_word-put_word h h' a _ k))

  place_first_again :
      (sized : List StructOne) (a : ℕ) (vars : List Var)
      → place_first sized a (place_first sized a vars) ≡ place_first sized a vars
  unfolding place_first place_var
  place_first_again sized a [] = refl
  place_first_again sized a (v ∷ vars) = refl

  get_addrs-placed :
      (sized : List StructOne) (n : ℕ) (vars : List Var) (a : ℕ) (rest : List ℕ)
      → a < 2 ^ 32
      → get_addrs h' sized n (place_first sized a vars) (put_addr h n a ++ rest)
        ≡ some (place_first sized a vars, rest)
  unfolding get_addrs put_addr
  get_addrs-placed sized zero vars a rest k = refl
  get_addrs-placed sized (suc n) vars a rest k =
      get_addrs_next sized n (place_first sized a vars) a rest k
      ∙ rw (place_first_again sized a vars) (get_addrs-placed sized n vars a rest k)

  get_addrs-put_addr :
      (sized : List StructOne) (vars : List Var) (a : ℕ) (rest : List ℕ)
      → a < 2 ^ 32
      → get_addrs h' sized (length vars) vars (put_addr h (length vars) a ++ rest)
        ≡ some (place_first sized a vars, rest)
  get_addrs-put_addr sized [] a rest k = unfold get_addrs put_addr place_first in refl
  get_addrs-put_addr sized (v ∷ vars) a rest k =
      get_addrs_next sized (length vars) (v ∷ vars) a rest k
      ∙ get_addrs-placed sized (length vars) (v ∷ vars) a rest k

  get_vars_step :
      (sized : List StructOne) (s : StructOne) (own : List StructOne) (bytes more : List ℕ)
      (vars : List Var) (all : List StructOne)
      → get_addrs h' sized (length s.vars) s.vars bytes ≡ some (vars, more)
      → get_vars h' sized own more ≡ some all
      → get_vars h' sized (s ∷ own) bytes ≡ some (record s { vars = vars } ∷ all)
  unfolding get_vars
  get_vars_step sized s own bytes more vars all d e = ground arith

  pub get_vars-put_vars :
      (sized own theirs : List StructOne)
      → AreAlike own theirs
      → AreWords theirs
      → get_vars h' sized own (put_vars h theirs) ≡ some (adopt_first sized own theirs)
  unfolding get_vars put_vars adopt_first
  get_vars-put_vars sized [] [] a b = refl
  get_vars-put_vars sized [] (t ∷ theirs) a b = absurd a
  get_vars-put_vars sized (s ∷ own) [] a b = absurd a
  get_vars-put_vars sized (s ∷ own) (t ∷ theirs) a b = rw (sym a.0) (
      get_vars_step sized s own _ _ _ _
        (get_addrs-put_addr sized s.vars (first_addr t.vars) (put_vars h theirs) b.1)
        (get_vars-put_vars sized own theirs a.1 b.2))
