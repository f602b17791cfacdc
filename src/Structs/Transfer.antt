-- ===== src/Structs/Transfer.antt =====
-- `convert_struct_all_to_buf` and then `convert_buf_to_struct_all` on another host,
-- moon_code/sync/src/shell/append.c.
use moon_in_water.Prelude.{
  ℕ, zero, suc, ◌+◌, ◌*◌, ◌^◌, ◌<◌, ◌≡◌, refl, arith, List, [], ◌∷◌, ◌++◌, true, some, length,
  length-append,
}
use moon_in_water.Wire.{Host}
use moon_in_water.Structs.{
  StructOne, get_struct_all_to_buf_len, first_addr, put_word, put_sizes, put_addr, put_vars,
  convert_struct_all_to_buf, converted, convert_buf_to_struct_all,
}
use moon_in_water.Structs.Layout.{
  length-put_word, AreAlike, AreWords, adopt_sizes, adopt_first, get_sizes-put_sizes,
  get_vars-put_vars,
}
use moon_in_water.Structs.Adopt.{AreAdopted, adopt_first-AreAdopted, size_at-adopt_sizes}

length-put_addr : (h : Host) (n a : ℕ) → a < 2 ^ 32 → length (put_addr h n a) ≡ n * 4
unfolding put_addr
length-put_addr h zero a k = refl
length-put_addr h (suc n) a k = omega (
  arith,
  length-append (put_word h a) (put_addr h n a),
  length-put_word h a k,
  length-put_addr h n a k,
)

length-put_sizes :
    (h : Host) (all : List StructOne) → AreWords all → length (put_sizes h all) ≡ length all * 4
unfolding put_sizes
length-put_sizes h [] b = refl
length-put_sizes h (s ∷ all) b = omega (
  arith,
  length-append (put_word h s.size) (put_sizes h all),
  length-put_word h s.size b.0,
  length-put_sizes h all b.2,
)

-- The length of the fields' part.
vars_len-put_vars :
    (h : Host) (all : List StructOne)
    → AreWords all
    → length (put_vars h all) + length all * 4 ≡ get_struct_all_to_buf_len all
unfolding put_vars get_struct_all_to_buf_len
vars_len-put_vars h [] b = refl
vars_len-put_vars h (s ∷ all) b = omega (
  arith,
  length-append (put_addr h (length s.vars) (first_addr s.vars)) (put_vars h all),
  length-put_addr h (length s.vars) (first_addr s.vars) b.1,
  vars_len-put_vars h all b.2,
)

buf_len-AreAlike :
    (own theirs : List StructOne)
    → AreAlike own theirs
    → get_struct_all_to_buf_len own ≡ get_struct_all_to_buf_len theirs
unfolding get_struct_all_to_buf_len
buf_len-AreAlike [] [] a = refl
buf_len-AreAlike [] (t ∷ theirs) a = absurd a
buf_len-AreAlike (s ∷ own) [] a = absurd a
buf_len-AreAlike (s ∷ own) (t ∷ theirs) a = omega (arith, a.0, buf_len-AreAlike own theirs a.1)

adopt_sizes-AreAlike :
    (own theirs : List StructOne) → AreAlike own theirs → AreAlike (adopt_sizes own theirs) theirs
unfolding adopt_sizes
adopt_sizes-AreAlike [] [] a = tt
adopt_sizes-AreAlike [] (t ∷ theirs) a = a
adopt_sizes-AreAlike (s ∷ own) [] a = absurd a
adopt_sizes-AreAlike (s ∷ own) (t ∷ theirs) a = (a.0, adopt_sizes-AreAlike own theirs a.1)

-- The description that one host sends is as long as `get_struct_all_to_buf_len` says. A host of either order with
-- a description of the same types and as many fields, and the memory, takes over the sizes of the types and, of
-- each type, the address of its first field, whose size becomes that of its elements there; all other fields stay
-- as they were.
pub convert_buf-convert_struct_all :
    (h h' : Host) (s : StructOne) (own theirs : List StructOne)
    → AreAlike (s ∷ own) theirs
    → AreWords theirs
    → (bytes : List ℕ) × (convert_struct_all_to_buf h true theirs ≡ some bytes)
      × (length bytes ≡ get_struct_all_to_buf_len theirs)
      × ((new : List StructOne) × (convert_buf_to_struct_all h' true (s ∷ own) bytes
            ≡ converted new)
          × AreAdopted theirs (s ∷ own) theirs new)
unfolding convert_struct_all_to_buf convert_buf_to_struct_all
convert_buf-convert_struct_all h h' s own theirs a b =
    let sized = adopt_sizes (s ∷ own) theirs in
    let size : length (put_sizes h theirs ++ put_vars h theirs) ≡ get_struct_all_to_buf_len theirs =
      omega (
        arith,
        length-append (put_sizes h theirs) (put_vars h theirs),
        length-put_sizes h theirs b,
        vars_len-put_vars h theirs b,
      ) in
    let same = buf_len-AreAlike (s ∷ own) theirs a in
    (
      put_sizes h theirs ++ put_vars h theirs,
      refl,
      size,
      (
        adopt_first sized sized theirs,
        ground (
          arith,
          get_sizes-put_sizes h h' (s ∷ own) theirs (put_vars h theirs) a b,
          get_vars-put_vars h h' sized sized theirs (adopt_sizes-AreAlike (s ∷ own) theirs a) b,
        ),
        adopt_first-AreAdopted sized theirs (s ∷ own) theirs
            (λ i t e. size_at-adopt_sizes (s ∷ own) theirs i t a e) a,
      ),
    )
