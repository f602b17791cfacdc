-- ===== src/Hash/Tests.antt =====
-- The hash table at concrete inputs, and the theorems about it applied to them.
use moon_in_water.Prelude.{ℕ, zero, suc, ◌≡◌, ◌≢◌, ◌⊎◌, refl, none, some, [], ◌∷◌, arith}
use moon_in_water.Hash.{Key, hash_func, Table, hash_search2}
use moon_in_water.Hash.Search.{found, hash_search2-found}

abbrev empty : Table
empty i = []

-- "ab"
abbrev ab : Key
ab = 97 ∷ 98 ∷ []

hash_func_run : hash_func ab ≡ 52
unfolding hash_func
hash_func_run = refl

hash_search2-found_example :
    (((hash_search2 empty ab (some 40)).0 ≡ empty)
        × ((hash_search2 empty ab (some 40)).1 ≡ none)
        × ((hash_search2 empty ab (some 40)).1 ≢ none)
      ⊎ ((found empty ab ≡ none) × ((hash_search2 empty ab (some 40)).1 ≡ some 40)))
    × (found (hash_search2 empty ab (some 40)).0 ab ≡ (hash_search2 empty ab (some 40)).1)
    × ((k : Key) → k ≢ ab → found (hash_search2 empty ab (some 40)).0 k ≡ none)
hash_search2-found_example = hash_search2-found empty ab 40 (omega arith)

-- `n` times "a".
abbrev letters : ℕ → Key
letters zero = []
letters (suc n) = 97 ∷ letters n
