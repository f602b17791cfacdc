-- ===== src/Commit/Fill.antt =====
-- The two traversals of a commit, moon_code/sync/src/moon_runtime.c: what is counted and what is
-- written.
use moon_in_water.Prelude.{
  ℕ, suc, ◌+◌, ◌%◌, ◌^◌, ◌≡◌, refl, arith, leb, List, [], ◌∷◌, false, some, length, get_elem?, pos,
}
use moon_in_water.Structs.{StructOne}
use moon_in_water.Pairs.{IdPair}
use moon_in_water.Commit.{
  Changed, get_blockbuf_len, Counts, Kind, is_new, is_deleted, is_written, kind, count_block,
  pac1_func, first_traversal,
}

abbrev pub pair_of : Changed → IdPair
pair_of b = record { addr = b.addr; key = b.id }

-- The pairs of the deleted and of the written blocks, and those of the new ones, numbered from an id
-- on: each in the order of the traversal.
abbrev pub del_pair : Kind → Changed → List IdPair → List IdPair
del_pair is_new b ps = ps
del_pair is_deleted b ps = pair_of b ∷ ps
del_pair is_written b ps = ps

abbrev pub write_pair : Kind → Changed → List IdPair → List IdPair
write_pair is_new b ps = ps
write_pair is_deleted b ps = ps
write_pair is_written b ps = pair_of b ∷ ps

abbrev pub new_pair : Kind → Changed → ℕ → (ℕ → List IdPair) → List IdPair
new_pair is_new b next ps = record { addr = b.addr; key = next % 2 ^ 64 } ∷ ps (next + 1)
new_pair is_deleted b next ps = ps next
new_pair is_written b next ps = ps next

abbrev pub dels_of : List Changed → List IdPair
dels_of [] = []
dels_of (b ∷ bs) = del_pair (kind b) b (dels_of bs)

abbrev pub writes_of : List Changed → List IdPair
writes_of [] = []
writes_of (b ∷ bs) = write_pair (kind b) b (writes_of bs)

abbrev pub news_of : ℕ → List Changed → List IdPair
news_of next [] = []
news_of next (b ∷ bs) = new_pair (kind b) b next (λ n. news_of n bs)

-- Every block has a type that is known, and every written one stands in the table of the version.
abbrev pub AreKnown : List StructOne → List Changed → Type 0
AreKnown all [] = Unit {0}
AreKnown all (b ∷ bs) = ((n : ℕ) × (get_blockbuf_len b all ≡ pos (suc n))) × AreKnown all bs

abbrev pub AreInTable : List IdPair → List IdPair → Type 0
AreInTable order_id [] = Unit {0}
AreInTable order_id (p ∷ ps) =
    ((i : ℕ) × (q : IdPair) × (get_elem? order_id i ≡ some q) × (q.key ≡ p.key))
    × AreInTable order_id ps

-- The counts are the numbers of blocks of each kind.
pub record IsCounted (c : Counts) (bs : List Changed) (c' : Counts) : Type 0 where
  pub dels : c'.del_num ≡ c.del_num + length (dels_of bs)
  pub writes : c'.write_num ≡ c.write_num + length (writes_of bs)
  pub news : (next : ℕ) → c'.new_num ≡ c.new_num + length (news_of next bs)

count_block-IsCounted :
    (k : Kind) (b : Changed) (bs : List Changed) (n : ℕ) (c c' : Counts)
    → IsCounted (count_block k n c) bs c'
    → (c'.del_num ≡ c.del_num + length (del_pair k b (dels_of bs)))
      × (c'.write_num ≡ c.write_num + length (write_pair k b (writes_of bs)))
      × ((next : ℕ) → c'.new_num ≡ c.new_num + length (new_pair k b next (λ m. news_of m bs)))
unfolding count_block
count_block-IsCounted is_new b bs n c c' h =
    (h.dels, h.writes, λ next. omega (arith, h.news (next + 1)))
count_block-IsCounted is_deleted b bs n c c' h = (omega (arith, h.dels), h.writes, h.news)
count_block-IsCounted is_written b bs n c c' h = (h.dels, omega (arith, h.writes), h.news)

pac1_func_lem :
    (all : List StructOne) (b : Changed) (c : Counts) (n : ℕ)
    → get_blockbuf_len b all ≡ pos (suc n)
    → pac1_func all b c ≡ some (count_block (kind b) (suc n) c)
unfolding pac1_func
pac1_func_lem all b c n e =
    let positive : leb (suc n + 0) 0 ≡ false = ground arith in rw e (rw positive refl)

pub first_traversal-IsCounted :
    (all : List StructOne) (bs : List Changed) (c : Counts)
    → AreKnown all bs
    → (c' : Counts) × (first_traversal all bs c ≡ some c') × IsCounted c bs c'
unfolding first_traversal
first_traversal-IsCounted all [] c k =
    (c, refl, record { dels = omega arith; writes = omega arith; news = λ next. omega arith })
first_traversal-IsCounted all (b ∷ bs) c ((n, e), k) =
    let (c', d, h) = first_traversal-IsCounted all bs (count_block (kind b) (suc n) c) k in
    let (x, y, z) = count_block-IsCounted (kind b) b bs (suc n) c c' h in
    (
      c',
      rw (pac1_func_lem all b c n e, first_traversal) d,
      record { dels = x; writes = y; news = z },
    )
