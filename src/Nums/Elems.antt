-- ===== src/Nums/Elems.antt =====
-- One element of the numbers of moon_code/sync/src/moon_runtime.c, read from what was written.
use moon_in_water.Prelude.{ℕ, ◌^◌, ◌<◌, List, ◌++◌, ◌≡◌, ap, arith}
use moon_in_water.Wire.{Host, low_first}
use moon_in_water.Wire.Order.{
  store-convert_uint16, store-convert_uint32, convert_uint16-load, convert_uint32-load,
}
use moon_in_water.Nums.{
  elem_value, convert_elem16, convert_elem32, get_value, get_elem16, get_elem32,
}

pub convert_elem16_lem :
    (h : Host) (num bits : ℕ) → convert_elem16 h num bits ≡ low_first 2 (elem_value 15 num bits)
unfolding convert_elem16 elem_value
convert_elem16_lem h num bits = store-convert_uint16 h _ (ground arith)

pub convert_elem32_lem :
    (h : Host) (num bits : ℕ) → convert_elem32 h num bits ≡ low_first 4 (elem_value 31 num bits)
unfolding convert_elem32 elem_value
convert_elem32_lem h num bits = store-convert_uint32 h _ (ground arith)

pub get_elem16-low_first :
    (h : Host) (num bits v : ℕ) (rest : List ℕ)
    → v < 2 ^ 16
    → get_elem16 h num bits (low_first 2 v ++ rest) ≡ get_value 15 num bits v rest
unfolding get_elem16 low_first
get_elem16-low_first h num bits v rest k =
    ap (λ x. get_value 15 num bits x rest) (unfold low_first in convert_uint16-load h v k)

pub get_elem32-low_first :
    (h : Host) (num bits v : ℕ) (rest : List ℕ)
    → v < 2 ^ 32
    → get_elem32 h num bits (low_first 4 v ++ rest) ≡ get_value 31 num bits v rest
unfolding get_elem32 low_first
get_elem32-low_first h num bits v rest k =
    ap (λ x. get_value 31 num bits x rest) (unfold low_first in convert_uint32-load h v k)

pub elem_value16-lt : (num bits : ℕ) → elem_value 15 num bits < 2 ^ 16
unfolding elem_value
elem_value16-lt num bits = ground arith

pub elem_value32-lt : (num bits : ℕ) → elem_value 31 num bits < 2 ^ 32
unfolding elem_value
elem_value32-lt num bits = ground arith
