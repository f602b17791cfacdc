-- ===== src/Hash.antt =====
-- moon_code/common/src/moon_common.h: the hash table. A bucket is the list behind its head; an entry is the key
-- stored before the data, and the address of the data.
pub mod Search
mod Tests
use moon_in_water.Prelude.{
  ℕ, suc, ◌+◌, ◌-◌, ◌*◌, ◌%◌, ◌^◌, Bool, true, false, Option, none, some, List, [], ◌∷◌, ◌==◌, ltb,
  if◌then◌else◌, ◌&&◌, take,
}

-- The bytes of a string before its end, from 1 to 255.
abbrev pub Key : Type 0
Key = List ℕ

-- A `char`, which is signed, as an `unsigned long`.
abbrev pub char_ulong : ℕ → ℕ
char_ulong c = if ltb c 128 then c else 2 ^ 64 + c - 256

-- One turn of the loop of `hash_func`.
abbrev pub hash_step : ℕ → ℕ → ℕ
hash_step hash c = ((hash * 61) % 2 ^ 64 + char_ulong c) % 2 ^ 64 % 67

abbrev pub hash_loop : ℕ → Key → ℕ
hash_loop hash [] = hash
hash_loop hash (c ∷ key) = hash_loop (hash_step hash c) key

unfoldable pub hash_func : Key → ℕ
hash_func key = hash_loop 0 key

-- `strcmp( ... ) == 0`
unfoldable pub is_same_key : Key → Key → Bool
is_same_key [] [] = true
is_same_key [] (d ∷ ys) = false
is_same_key (c ∷ xs) [] = false
is_same_key (c ∷ xs) (d ∷ ys) = let rest = is_same_key xs ys in (c == d) && rest

abbrev pub Bucket : Type 0
Bucket = List (Key × ℕ)

abbrev pub Table : Type 0
Table = ℕ → Bucket

-- The loop over the entries of a bucket.
abbrev pub search_bucket : Key → Bucket → Option ℕ
search_bucket key [] = none
search_bucket key ((k, p) ∷ b) =
    let later = search_bucket key b in if is_same_key k key then some p else later

abbrev pub set_bucket : Table → ℕ → Bucket → Table
set_bucket t index b = λ i. if i == index then b else t i

-- `snprintf` of "%s" into the 256 bytes of `hash_key_s`.
abbrev pub stored_key : Key → Key
stored_key key = take 255 key

abbrev pub add_entry : Table → Key → Option ℕ → Option ℕ → Table × Option ℕ
add_entry t key p_data (some p) = (t, some p)
add_entry t key none none = (t, none)
add_entry t key (some p) none =
    (set_bucket t (hash_func key) ((stored_key key, p) ∷ t (hash_func key)), some p)

-- The table and the address returned; `p_data` is the new entry, or NULL.
unfoldable pub hash_search2 : Table → Key → Option ℕ → Table × Option ℕ
hash_search2 t key p_data = add_entry t key p_data (search_bucket key (t (hash_func key)))

-- `hash_table_s`
pub record HashTable : Type 0 where
  pub table : Table
  pub num : ℕ

abbrev pub is_new : Option ℕ → Option ℕ → Bool
is_new (some p) (some q) = p == q
is_new _ _ = false

unfoldable pub hash_table_search2 : HashTable → Key → Option ℕ → HashTable × Option ℕ
hash_table_search2 h key p_data =
    let (t, ptr) = hash_search2 h.table key p_data in
    (record { table = t; num = if is_new ptr p_data then h.num + 1 else h.num }, ptr)
