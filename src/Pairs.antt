-- ===== src/Pairs.antt =====
-- The tables of blocks by address and by id: `qsort_addr_pair`, `sort_addr_id`, `search_addr_id` and
-- `get_virtual_address_info` of moon_code/sync/src/moon_runtime.c.
pub mod Count
pub mod Keys
mod Round
mod Partition
pub mod Sort
pub mod Search
pub mod Address
mod Tests
use moon_in_water.Prelude.{
  ℕ, zero, suc, ◌+◌, ◌-◌, ◌/◌, ◌%◌, ◌^◌, ltb, leb, ◌==◌, ◌&&◌, if◌then◌else◌, List, [], ◌∷◌, ◌++◌,
  Bool, true, false, Option, none, some, length, get_elem?, take, drop, set, map, ℤ, pos, to_int,
  pos_part, ltb_ℤ, leb_ℤ,
}

-- An `addr_pair_s`, also called `id_pair_s`: the block, and its address or its id, which share a union.
pub record IdPair : Type 0 where
  pub addr : ℕ
  pub key : ℕ

-- `out[ i ]`, and a pair of zeros where there is none.
unfoldable pub or_zeros : Option IdPair → IdPair
or_zeros none = record { addr = 0; key = 0 }
or_zeros (some p) = p

unfoldable pub cell_at : List IdPair → ℕ → IdPair
unfolding or_zeros
cell_at out i = or_zeros (get_elem? out i)

-- The body of the loop in `qsort_addr_pair`: the array and `save_next` after the round `cmp_next`.
unfoldable pub part_step : ℕ → ℕ → ℕ → List IdPair → List IdPair × ℕ
unfolding cell_at
part_step cmp cmp_next save_next out =
    if ltb (cell_at out cmp_next).key cmp
    then (let saved = set out save_next (cell_at out cmp_next) in
        (set saved cmp_next (cell_at saved (save_next + 1)), save_next + 1))
    else (out, save_next)

-- The loop, with the rounds that are left.
unfoldable pub part_loop : ℕ → ℕ → ℕ → ℕ → List IdPair → List IdPair × ℕ
unfolding part_step
part_loop cmp zero cmp_next save_next out = (out, save_next)
part_loop cmp (suc n) cmp_next save_next out =
    let (out', save_next') = part_step cmp cmp_next save_next out in
    part_loop cmp n (cmp_next + 1) save_next' out'

-- The part before the two recursive calls: the array and `save_next`.
unfoldable pub partition : List IdPair → List IdPair × ℕ
unfolding part_loop
partition out =
    let half = length out / 2 in
    let cmp = cell_at out half in
    let (out', save_next) = part_loop cmp.key (length out - 1) 1 0 (set out half (cell_at out 0)) in
    (set out' save_next cmp, save_next)

-- The recursion, on fuel. A call on a part of the array leaves the rest of it as it is.
unfoldable pub qsort_fuel : ℕ → List IdPair → List IdPair
qsort_fuel zero out = out
qsort_fuel (suc fuel) out =
    let parts = partition out in
    let sorted =
      qsort_fuel fuel (take parts.1 parts.0)
      ++ (cell_at parts.0 parts.1 ∷ qsort_fuel fuel (drop (parts.1 + 1) parts.0)) in
    if leb (length out) 1 then out else sorted

unfoldable pub qsort_addr_pair : List IdPair → List IdPair
unfolding qsort_fuel partition
qsort_addr_pair out = qsort_fuel (length out) out

-- A block as the tables see it.
pub record Located : Type 0 where
  pub addr : ℕ
  pub virtual_addr : ℕ
  pub data_len : ℕ

-- `sort_addr_id` of the blocks of a table by id; `none` for NULL. Whether `malloc` has the memory is the
-- first argument.
unfoldable pub sort_addr_id : Bool → List Located → Option (List IdPair)
sort_addr_id malloc blocks =
    if leb (length blocks) 0
    then none
    else (if malloc
        then some
            (qsort_addr_pair (map (λ b. record { addr = b.addr; key = b.virtual_addr }) blocks))
        else none)

-- The loop of `search_addr_id`, on fuel: `some last` where it returns an index. A read past the array
-- and an end of the fuel are `none`.
unfoldable pub search_loop : ℕ → List IdPair → ℕ → ℕ → ℕ → ℕ → Option ℕ
search_loop zero xs id left right_next last = if ltb left right_next then none else some last
search_loop (suc fuel) xs id left right_next last =
    let mid = left / 2 + right_next / 2 in
    let probed : Option ℕ = elim (get_elem? xs mid) [
      | none ↦ none
      | some p ↦ if p.key == id then some mid else (elim (ltb p.key id) [
        | true ↦ search_loop fuel xs id (mid + 1) right_next mid
        | false ↦ search_loop fuel xs id left mid last
      ])
    ] in
    if ltb left right_next then probed else some last

pub map_some : Option ℕ → Option (Option ℕ)
map_some none = none
map_some (some i) = some (some i)

-- `search_addr_id`: the outer option as in the loop, and the inner one is `none` for NULL.
unfoldable pub search_addr_id : List IdPair → ℕ → Option (Option ℕ)
unfolding search_loop map_some
search_addr_id [] id = some none
search_addr_id (p ∷ xs) id =
    if ltb id p.key
    then some none
    else (if p.key == id
        then some (some 0)
        else map_some (search_loop (length xs) (p ∷ xs) id 1 (length xs + 1) 0))

-- `get_virtual_address_info`: the offset, or `none` for -1. The difference of the two addresses, a 64-bit
-- number, is kept in an int.
unfoldable pub get_virtual_address_info : Located → ℕ → Option ℕ
get_virtual_address_info b virtual_addr =
    let offset = to_int ((virtual_addr + (2 ^ 64 - b.virtual_addr % 2 ^ 64)) % 2 ^ 64 % 2 ^ 32) in
    if ltb_ℤ offset (pos 0)
    then none
    else (if leb_ℤ (pos b.data_len) offset then none else some (pos_part offset))
