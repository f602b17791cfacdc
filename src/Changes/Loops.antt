-- ===== src/Changes/Loops.antt =====
-- The loops over the lists of blocks of moon_code/sync/src/moon_runtime.c: what is read from what
-- was written.
use moon_in_water.Prelude.{
  ℕ, suc, ◌+◌, ◌*◌, ◌^◌, ◌<◌, ◌≤◌, ◌≡◌, refl, arith, List, ◌∷◌, ◌++◌, append_assoc, Option, some, ℤ,
}
use moon_in_water.Wire.{Host}
use moon_in_water.Nums.{convert_to_moon_num, get_from_moon_num}
use moon_in_water.Nums.RoundTrip.{get_from-convert_to}
use moon_in_water.Changes.{
  Entry, add64, sub64, put_num, unpacked, with_entry, write_entry, get_two, get_three, undel_loop,
  unnew_loop, unnew_id_loop, unwrite_id_loop,
}

-- A number that is written in front of other bytes is read in front of them, on every host.
abbrev ReadsFirst : ℕ → List ℕ → List ℕ → Type 0
ReadsFirst n tail bytes =
    (h : Host) (rest : List ℕ) → get_from_moon_num h (bytes ++ rest) ≡ some (n, tail ++ rest)

pub put_num-some :
    (h : Host) (n : ℕ) (after : Option (List ℕ)) (tail : List ℕ)
    → n < 2 ^ 62
    → after ≡ some tail
    → (bytes : List ℕ) × (put_num (convert_to_moon_num h n) after ≡ some bytes)
      × ((h' : Host) (rest : List ℕ)
          → get_from_moon_num h' (bytes ++ rest) ≡ some (n, tail ++ rest))
unfolding put_num
put_num-some h n after tail k e =
    let (x, w, _, b) = get_from-convert_to h n k in
    (x ++ tail, rw (w, e) refl, λ h' rest. rw (append_assoc x tail rest) (b h' (tail ++ rest)))

-- Differences of ids, modulo 2^64.
pub sub64-lt : (a b : ℕ) → b ≤ a → a < 2 ^ 62 → sub64 a b < 2 ^ 62
unfolding sub64
sub64-lt a b k l = omega arith

pub add64-sub64 : (a b : ℕ) → b ≤ a → a < 2 ^ 62 → add64 b (sub64 a b) ≡ a
unfolding add64 sub64
add64-sub64 a b k l = omega arith

pub add64-sub64_left : (a b : ℕ) → b ≤ a → a < 2 ^ 62 → add64 (sub64 a b) b ≡ a
unfolding add64 sub64
add64-sub64_left a b k l = omega arith

pub get_two_lem :
    (h : Host) (a b : ℕ) (xs ys zs : List ℕ)
    → get_from_moon_num h xs ≡ some (a, ys)
    → get_from_moon_num h ys ≡ some (b, zs)
    → get_two h xs ≡ some (a, b, zs)
unfolding get_two
get_two_lem h a b xs ys zs d e = ground arith

pub get_three_lem :
    (h : Host) (a b c : ℕ) (xs ys zs us : List ℕ)
    → get_from_moon_num h xs ≡ some (a, ys)
    → get_from_moon_num h ys ≡ some (b, zs)
    → get_from_moon_num h zs ≡ some (c, us)
    → get_three h xs ≡ some (a, b, c, us)
unfolding get_three
get_three_lem h a b c xs ys zs us d e f = ground (arith, get_two_lem h a b xs ys zs)

-- One round of a reading loop, on a number that is there and an entry that fits.
module _ (h : Host) (num : ℤ) (size n i tmp : ℕ) (ids : List Entry) (xs rest ys : List ℕ) where
  pub undel_loop_step :
      (d : ℕ)
      → get_from_moon_num h xs ≡ some (d, ys)
      → 24 * (i + 1) ≤ size
      → undel_loop h num size n (i + 1) (add64 tmp d) ys ≡ unpacked num ids rest
      → undel_loop h num size (suc n) i tmp xs
        ≡ unpacked num (record { id_0 = add64 tmp d; id_1 = 0; id_2 = 0 } ∷ ids) rest
  unfolding undel_loop write_entry with_entry
  undel_loop_step d e k f = ground arith

  pub unnew_id_loop_step :
      (a b d : ℕ)
      → get_three h xs ≡ some (a, b, d, ys)
      → 24 * (i + 1) ≤ size
      → unnew_id_loop h num size n (i + 1) (add64 tmp d) ys ≡ unpacked num ids rest
      → unnew_id_loop h num size (suc n) i tmp xs
        ≡ unpacked num (record { id_0 = a; id_1 = b; id_2 = add64 tmp d } ∷ ids) rest
  unfolding unnew_id_loop write_entry with_entry
  unnew_id_loop_step a b d e k f = ground arith

  pub unwrite_id_loop_step :
      (d e : ℕ)
      → get_two h xs ≡ some (d, e, ys)
      → 24 * (i + 1) ≤ size
      → unwrite_id_loop h num size n (i + 1) (add64 tmp d) ys ≡ unpacked num ids rest
      → unwrite_id_loop h num size (suc n) i tmp xs
        ≡ unpacked num
            (record { id_0 = add64 tmp d; id_1 = add64 e (add64 tmp d); id_2 = 0 } ∷ ids)
            rest
  unfolding unwrite_id_loop write_entry with_entry
  unwrite_id_loop_step d e q k f = ground arith

module _ (h : Host) (num : ℤ) (size n i : ℕ) (ids : List Entry) (xs rest ys : List ℕ) where
  pub unnew_loop_step :
      (a b : ℕ)
      → get_two h xs ≡ some (a, b, ys)
      → 24 * (i + 1) ≤ size
      → unnew_loop h num size n (i + 1) ys ≡ unpacked num ids rest
      → unnew_loop h num size (suc n) i xs
        ≡ unpacked num (record { id_0 = a; id_1 = b; id_2 = 0 } ∷ ids) rest
  unfolding unnew_loop write_entry with_entry
  unnew_loop_step a b e k f = ground arith
