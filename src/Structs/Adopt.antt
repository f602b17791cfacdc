-- ===== src/Structs/Adopt.antt =====
-- What a description becomes that takes over that of another host, moon_code/sync/src/shell/append.c.
use moon_in_water.Prelude.{
  ℕ, zero, suc, ◌^◌, ◌≡◌, refl, ap, arith, List, [], ◌∷◌, some, length, get_elem?, ◌*◌, ◌%◌,
}
use moon_in_water.Structs.{Var, StructOne, first_addr, place_var, place_first, size_at}
use moon_in_water.Structs.Layout.{AreAlike, adopt_sizes, adopt_first}

-- What a field becomes that is the first of its type: its address is that of the other host's first field, and
-- its size is that of as many elements as it has, of the size that the other host gives for their type.
pub record IsPlacedVar (theirs : List StructOne) (v w new : Var) : Type 0 where
  pub addr : new.addr ≡ w.addr
  pub type_num : new.type_num ≡ v.type_num
  pub len : new.len ≡ v.len
  pub elem_size : (t : StructOne) → get_elem? theirs v.type_num ≡ some t → new.elem_size ≡ t.size
  pub size :
      (t : StructOne) → get_elem? theirs v.type_num ≡ some t → new.size ≡ v.len * t.size % 2 ^ 32

-- The first field is placed, and all others are what they were.
abbrev pub ArePlaced : List StructOne → List Var → List Var → List Var → Type 0
ArePlaced theirs [] ws new = new ≡ []
ArePlaced theirs (v ∷ vs) [] new = ⊥
ArePlaced theirs (v ∷ vs) (w ∷ ws) [] = ⊥
ArePlaced theirs (v ∷ vs) (w ∷ ws) (n ∷ new) = IsPlacedVar theirs v w n × (new ≡ vs)

-- Type by type: the size is that of the other host, the number of pointers stays, and so do the fields but the
-- first one.
abbrev pub AreAdopted : List StructOne → List StructOne → List StructOne → List StructOne → Type 0
AreAdopted all [] theirs new = new ≡ []
AreAdopted all (s ∷ own) [] new = ⊥
AreAdopted all (s ∷ own) (t ∷ theirs) [] = ⊥
AreAdopted all (s ∷ own) (t ∷ theirs) (n ∷ new) =
    (n.size ≡ t.size)
    × (n.point_num ≡ s.point_num)
    × ArePlaced all s.vars t.vars n.vars
    × AreAdopted all own theirs new

pub size_at-adopt_sizes :
    (own theirs : List StructOne) (i : ℕ) (t : StructOne)
    → AreAlike own theirs
    → get_elem? theirs i ≡ some t
    → size_at (get_elem? (adopt_sizes own theirs) i) ≡ t.size
unfolding adopt_sizes size_at
size_at-adopt_sizes [] [] i t a e = absurd (cc)
size_at-adopt_sizes [] (u ∷ theirs) i t a e = absurd a
size_at-adopt_sizes (s ∷ own) [] i t a e = absurd a
size_at-adopt_sizes (s ∷ own) (u ∷ theirs) zero t a e =
    let same : u ≡ t = cc in ap (λ (x : StructOne). x.size) same
size_at-adopt_sizes (s ∷ own) (u ∷ theirs) (suc i) t a e = size_at-adopt_sizes own theirs i t a.1 e

place_first-ArePlaced :
    (sized theirs : List StructOne) (vs ws : List Var)
    → ((i : ℕ) (t : StructOne) → get_elem? theirs i ≡ some t → size_at (get_elem? sized i) ≡ t.size)
    → length vs ≡ length ws
    → ArePlaced theirs vs ws (place_first sized (first_addr ws) vs)
unfolding place_first place_var first_addr
place_first-ArePlaced sized theirs [] ws k l = refl
place_first-ArePlaced sized theirs (v ∷ vs) [] k l = absurd (omega arith)
place_first-ArePlaced sized theirs (v ∷ vs) (w ∷ ws) k l = (
  record {
    addr = refl;
    type_num = refl;
    len = refl;
    elem_size = λ t e. k v.type_num t e;
    size = λ t e. ap (λ n. v.len * n % 2 ^ 32) (k v.type_num t e);
  },
  refl,
)

pub adopt_first-AreAdopted :
    (sized all own theirs : List StructOne)
    → ((i : ℕ) (t : StructOne) → get_elem? all i ≡ some t → size_at (get_elem? sized i) ≡ t.size)
    → AreAlike own theirs
    → AreAdopted all own theirs (adopt_first sized (adopt_sizes own theirs) theirs)
unfolding adopt_first adopt_sizes
adopt_first-AreAdopted sized all [] [] k a = refl
adopt_first-AreAdopted sized all [] (t ∷ theirs) k a = absurd a
adopt_first-AreAdopted sized all (s ∷ own) [] k a = absurd a
adopt_first-AreAdopted sized all (s ∷ own) (t ∷ theirs) k a = (
  refl,
  refl,
  place_first-ArePlaced sized all s.vars t.vars k a.0,
  adopt_first-AreAdopted sized all own theirs k a.1,
)
