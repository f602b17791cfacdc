-- ===== src/Dlist.antt =====
-- moon_code/common/src/moon_common.h: the doubly linked lists whose links stand before the data. A node is named
-- by its address, 0 is NULL, and the store says what links are at an address.
pub mod Chain
pub mod Splice
pub mod Unlink
pub mod Insert
pub mod Cut
mod Tests
use moon_in_water.Prelude.{ℕ, ◌==◌, if◌then◌else◌, Bool, true, false}

-- `double_list_s`
pub record Links : Type 0 where
  pub prev : ℕ
  pub next : ℕ

abbrev pub Store : Type 0
Store = ℕ → Links

-- The two stores through a pointer.
unfoldable pub set_prev : Store → ℕ → ℕ → Store
set_prev s at value = λ node. if node == at then record (s node) { prev = value } else s node

unfoldable pub set_next : Store → ℕ → ℕ → Store
set_next s at value = λ node. if node == at then record (s node) { next = value } else s node

abbrev pub null : ℕ
null = 0

-- The link back is only changed where there is a node.
unfoldable pub set_prev_if : Store → ℕ → ℕ → Store
set_prev_if s at value = if at == null then s else set_prev s at value

unfoldable pub set_next_if : Store → ℕ → ℕ → Store
set_next_if s at value = if at == null then s else set_next s at value

-- Puts `node` before `head`; the result is `node`.
unfoldable pub dlist_insert : Store → ℕ → ℕ → Store
dlist_insert s head node =
    if head == null
    then s
    else let s1 = set_next s node head in
      let before = (s1 head).prev in
      let s2 = if before == null then s1 else set_next (set_prev s1 node before) before node in
      set_prev s2 head node

-- Puts `node` behind `head`; the result is `node`.
unfoldable pub dlist_append : Store → ℕ → ℕ → Store
dlist_append s head node =
    if head == null
    then s
    else let s1 = set_prev s node head in
      let after = (s1 head).next in
      let s2 = if after == null then s1 else set_prev (set_next s1 node after) after node in
      set_next s2 head node

-- The store, and the node behind the one that is taken out.
unfoldable pub dlist_del : Store → ℕ → Store × ℕ
dlist_del s node =
    let s1 = set_next_if s (s node).prev (s node).next in
    let s2 = set_prev_if s1 (s1 node).next (s1 node).prev in
    let after = (s2 node).next in (set_next (set_prev s2 node null) node null, after)

-- The list from `node` on is taken off.
unfoldable pub dlist_cut : Store → ℕ → Store
dlist_cut s node =
    let before = (s node).prev in
    if before == null then s else set_prev (set_next s before null) node null

unfoldable pub is_really_del : Store → ℕ → Store × Bool
is_really_del s node =
    if (s node).prev == null
    then if (s node).next == null then (s, false) else ((dlist_del s node).0, true)
    else ((dlist_del s node).0, true)
