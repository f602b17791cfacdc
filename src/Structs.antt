-- ===== src/Structs.antt =====
-- The descriptions of the types of a program and the copies between two hosts:
-- `get_target_offset`, `get_struct_len`, `get_struct_points_num`, `get_struct_all_to_buf_len`,
-- `convert_struct_all_to_buf` and `convert_buf_to_struct_all` of moon_code/sync/src/shell/append.c. The
-- copies of numbers are in the child Copy.
pub mod Copy
mod Layout
mod Adopt
mod Transfer
mod Numbers
mod Target
mod Unsigned
mod Tests
use moon_in_water.Prelude.{
  ℕ, zero, suc, ◌+◌, ◌*◌, ◌/◌, ◌%◌, ◌^◌, ltb, leb, ◌==◌, ◌||◌, ◌&&◌, not, if◌then◌else◌, List, [],
  ◌∷◌, ◌++◌, Bool, true, false, Option, none, some, length, get_elem?, ℤ, pos, negsuc, pos_part,
  to_int, ltb_ℤ, leb_ℤ,
}
use moon_in_water.Wire.{Host, store, load, convert_uint32}

-- A field of a type, and a type: a basic one has no fields. The numbers are the words of the ints.
pub record Var : Type 0 where
  pub type_num : ℕ
  pub len : ℕ
  pub elem_size : ℕ
  pub size : ℕ
  pub addr : ℕ

pub record StructOne : Type 0 where
  pub size : ℕ
  pub point_num : ℤ
  pub vars : List Var

-- `get_struct_len` and `get_struct_points_num`: a number of the type at an index, or -1.
unfoldable pub of_type : (StructOne → ℤ) → Option StructOne → ℤ
of_type field none = negsuc 0
of_type field (some s) = field s

unfoldable pub get_struct_len : List StructOne → ℤ → ℤ
unfolding of_type
get_struct_len all type_index =
    if ltb_ℤ type_index (pos 0) || leb_ℤ (pos (length all)) type_index
    then negsuc 0
    else of_type (λ s. pos s.size) (get_elem? all (pos_part type_index))

unfoldable pub get_struct_points_num : List StructOne → ℤ → ℤ
unfolding of_type
get_struct_points_num all type_index =
    if ltb_ℤ type_index (pos 0) || leb_ℤ (pos (length all)) type_index
    then negsuc 0
    else of_type (λ s. s.point_num) (get_elem? all (pos_part type_index))

-- The body of the loop in `get_target_offset`. It is left in its first round: by the `break` of a basic type,
-- or by a `return`. The loop over the fields changes `offset`, `num` and `type_index`, but its `continue` is its
-- own, so what follows it is the `return -1`, whatever it found.
unfoldable pub target_round : StructOne → StructOne → ℕ → ℕ → ℤ
target_round src dst offset num =
    if leb_ℤ (to_int (src.size * num % 2 ^ 32)) (pos offset)
    then negsuc 0
    else (if length src.vars == 0 && offset % src.size == 0
        then to_int (offset / src.size * dst.size % 2 ^ 32)
        else negsuc 0)

unfoldable pub target_at : Option StructOne → Option StructOne → ℕ → ℕ → Option ℤ
target_at (some src) (some dst) offset num =
    if ltb 0 offset then some (target_round src dst offset num) else some (pos 0)
target_at src dst offset num = if ltb 0 offset then none else some (pos 0)

-- `get_target_offset`; `none` is a read past one of the tables.
unfoldable pub get_target_offset : List StructOne → List StructOne → ℤ → ℤ → ℤ → Option ℤ
get_target_offset src_all dst_all offset type_index num =
    if ltb_ℤ offset (pos 0)
      || ltb_ℤ num (pos 0)
      || ltb_ℤ type_index (pos 0)
      || leb_ℤ (pos (length src_all)) type_index
    then some (negsuc 0)
    else target_at (get_elem? src_all (pos_part type_index))
        (get_elem? dst_all (pos_part type_index)) (pos_part offset) (pos_part num)

-- `get_struct_all_to_buf_len`: four bytes for each type and for each field.
unfoldable pub get_struct_all_to_buf_len : List StructOne → ℕ
get_struct_all_to_buf_len [] = 0
get_struct_all_to_buf_len (s ∷ all) = (1 + length s.vars) * 4 + get_struct_all_to_buf_len all

-- A `uint32_t` that is stored and converted in place.
unfoldable pub put_word : Host → ℕ → List ℕ
put_word h w = store h 4 (convert_uint32 h w)

-- The address of the first field, which is what `p_var` points at for every field.
unfoldable pub first_addr : List Var → ℕ
first_addr [] = 0
first_addr (v ∷ vs) = v.addr

module _ (h : Host) where
  unfoldable pub put_sizes : List StructOne → List ℕ
  unfolding put_word
  put_sizes [] = []
  put_sizes (s ∷ all) = put_word h s.size ++ put_sizes all

  unfoldable pub put_addr : ℕ → ℕ → List ℕ
  unfolding put_word
  put_addr zero addr = []
  put_addr (suc n) addr = put_word h addr ++ put_addr n addr

  unfoldable pub put_vars : List StructOne → List ℕ
  unfolding put_addr first_addr
  put_vars [] = []
  put_vars (s ∷ all) = put_addr (length s.vars) (first_addr s.vars) ++ put_vars all

  -- `convert_struct_all_to_buf`, whether `malloc` has the memory first; `none` is -1.
  unfoldable pub convert_struct_all_to_buf : Bool → List StructOne → Option (List ℕ)
  unfolding put_sizes put_vars
  convert_struct_all_to_buf malloc all =
      if malloc then some (put_sizes all ++ put_vars all) else none

-- What `convert_buf_to_struct_all` comes to: -1, a read past the buffer, or the new description.
pub data Converted : Type 0 where
  rejected : Converted
  read_past : Converted
  converted : List StructOne → Converted

-- A field with an address from the buffer; the size of an element is that of its type in the new
-- description.
unfoldable pub size_at : Option StructOne → ℕ
size_at none = 0
size_at (some s) = s.size

unfoldable pub place_var : List StructOne → ℕ → Var → Var
unfolding size_at
place_var all addr v =
    let elem = size_at (get_elem? all v.type_num) in
    record v { addr = addr; elem_size = elem; size = v.len * elem % 2 ^ 32 }

unfoldable pub place_first : List StructOne → ℕ → List Var → List Var
unfolding place_var
place_first all addr [] = []
place_first all addr (v ∷ vs) = place_var all addr v ∷ vs

module _ (h : Host) where
  unfoldable pub get_word : List ℕ → Option (ℕ × List ℕ)
  get_word (a ∷ b ∷ c ∷ d ∷ rest) = some (convert_uint32 h (load h (a ∷ b ∷ c ∷ d ∷ [])), rest)
  get_word short = none

  unfoldable pub get_sizes : List StructOne → List ℕ → Option (List StructOne × List ℕ)
  unfolding get_word
  get_sizes [] bytes = some ([], bytes)
  get_sizes (s ∷ all) bytes = elim (get_word bytes) [
    | none ↦ none
    | some (w, more) ↦ elim (get_sizes all more) [
      | none ↦ none
      | some (all', rest) ↦ some (record s { size = w } ∷ all', rest)
    ]
  ]

  -- The loop over the fields of a type: every round is on the first field.
  unfoldable pub get_addrs : List StructOne → ℕ → List Var → List ℕ → Option (List Var × List ℕ)
  unfolding get_word place_first
  get_addrs sized zero vars bytes = some (vars, bytes)
  get_addrs sized (suc n) vars bytes = elim (get_word bytes) [
    | none ↦ none
    | some (w, more) ↦ get_addrs sized n (place_first sized w vars) more
  ]

  unfoldable pub get_vars : List StructOne → List StructOne → List ℕ → Option (List StructOne)
  unfolding get_addrs
  get_vars sized [] bytes = some []
  get_vars sized (s ∷ all) bytes = elim (get_addrs sized (length s.vars) s.vars bytes) [
    | none ↦ none
    | some (vars, more) ↦ elim (get_vars sized all more) [
      | none ↦ none
      | some all' ↦ some (record s { vars = vars } ∷ all')
    ]
  ]

  -- `convert_buf_to_struct_all` with the host's own description; whether `malloc` has the memory first.
  unfoldable pub convert_buf_to_struct_all : Bool → List StructOne → List ℕ → Converted
  unfolding get_sizes get_vars
  convert_buf_to_struct_all malloc own bytes =
      if ltb (length bytes) (get_struct_all_to_buf_len own) || (length own == 0 || not malloc)
      then rejected
      else (elim (get_sizes own bytes) [
        | none ↦ read_past
        | some (sized, more) ↦ elim (get_vars sized sized more) [
          | none ↦ read_past
          | some all ↦ converted all
        ]
      ])
