-- ===== src/Hash/Search.antt =====
-- `hash_search2` of moon_code/common/src/moon_common.h, one search after another.
use moon_in_water.Prelude.{
  ℕ, ◌≤◌, ◌<◌, ◌≡◌, ◌≢◌, ◌⊎◌, refl, sym, ap, ◌∙◌, inl, inr, true, false, Option, none, some, [],
  ◌∷◌, ◌==◌, take_all, length, arith, Bool-cases, Option-cases, length-take,
}
use moon_in_water.Hash.{
  Key, hash_func, is_same_key, Table, search_bucket, set_bucket, stored_key, hash_search2,
}

is_same_key_refl : (k : Key) → is_same_key k k ≡ true
unfolding is_same_key
is_same_key_refl [] = refl
is_same_key_refl (c ∷ k) =
    let here : (c == c) ≡ true = ground arith in rw (here, is_same_key_refl k) refl

is_same_key-eq : (k l : Key) → is_same_key k l ≡ true → k ≡ l
unfolding is_same_key
is_same_key-eq [] [] e = refl
is_same_key-eq [] (d ∷ l) e = absurd (cc)
is_same_key-eq (c ∷ k) [] e = absurd (cc)
is_same_key-eq (c ∷ k) (d ∷ l) e = elim (Bool-cases (c == d)) [
  | inl same ↦
      let head : c ≡ d = ground arith in
      let tail = is_same_key-eq k l (rw same at e) in rw (head, tail) refl
  | inr other ↦ absurd (let no : false ≡ true = rw other at e in cc)
]

other_key : (k l : Key) → k ≢ l → is_same_key k l ≡ false
other_key k l h = elim (Bool-cases (is_same_key k l)) [
  | inl e ↦ absurd (h (is_same_key-eq k l e))
  | inr e ↦ e
]

-- What a search gives that adds nothing.
abbrev pub found : Table → Key → Option ℕ
found t key = search_bucket key (t (hash_func key))

-- The bucket of `i` after an entry of another key has come to the front of one.
search_other :
    (t : Table) (key k : Key) (index : ℕ) (p : ℕ) (stored : Key)
    → stored ≢ k
    → search_bucket k (set_bucket t index ((stored, p) ∷ t index) (hash_func k)) ≡ found t k
search_other t key k index p stored h = elim (Bool-cases (hash_func k == index)) [
  | inl same ↦
      let e : hash_func k ≡ index = ground arith in
      rw (same, other_key stored k h) (ap (λ i. search_bucket k (t i)) (sym e))
  | inr other ↦ rw other refl
]

search_own :
    (t : Table) (key : Key) (p : ℕ) (stored : Key)
    → stored ≡ key
    → search_bucket key
        (set_bucket t (hash_func key) ((stored, p) ∷ t (hash_func key)) (hash_func key))
      ≡ some p
search_own t key p stored e =
    let here : (hash_func key == hash_func key) ≡ true = ground arith in
    rw (here, e, is_same_key_refl key) refl

-- `hash_search2` with a new entry and a key of at most 255 bytes: if the key is there, its entry is
-- given and the table stays; else the new entry is given and found again under the key; and every
-- other key has the entry it had.
pub hash_search2-found :
    (t : Table) (key : Key) (p : ℕ)
    → length key ≤ 255
    → let (u, r) = hash_search2 t key (some p) in
      (((u ≡ t) × (r ≡ found t key) × (r ≢ none)) ⊎ ((found t key ≡ none) × (r ≡ some p)))
      × (found u key ≡ r)
      × ((k : Key) → k ≢ key → found u k ≡ found t k)
unfolding hash_search2
hash_search2-found t key p short = elim (Option-cases (found t key)) [
  | inl absent ↦ rw absent (
      let stored : stored_key key ≡ key = take_all 255 key short in
      (
        inr (refl, refl),
        search_own t key p (stored_key key) stored,
        λ k h. search_other t key k (hash_func key) p (stored_key key) (λ e. h (sym e ∙ stored)),
      ))
  | inr (q, there) ↦ rw there (inl (refl, refl, λ e. cc), there, λ k h. refl)
]

-- With a key of more than 255 bytes that is not there, the new entry is added and not found again.
pub hash_search2-long_key :
    (t : Table) (key : Key) (p : ℕ)
    → 255 < length key
    → found t key ≡ none
    → let (u, r) = hash_search2 t key (some p) in (r ≡ some p) × (found u key ≡ none)
unfolding hash_search2
hash_search2-long_key t key p long absent =
    let shorter : stored_key key ≢ key =
      λ e. omega (arith, length-take 255 key, ap length e, long) in
    rw absent (refl, search_other t key key (hash_func key) p (stored_key key) shorter ∙ absent)
