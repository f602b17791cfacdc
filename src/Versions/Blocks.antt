-- ===== src/Versions/Blocks.antt =====
-- The table by id of the new version in `_create_new_version` of moon_code/sync/src/moon_runtime.c.
use moon_in_water.Prelude.{
  ℕ, zero, suc, ◌+◌, ◌-◌, ◌%◌, ◌^◌, ◌<◌, ◌≡◌, refl, ap, sym, ◌∙◌, arith, List, [], ◌∷◌, ◌++◌, Bool,
  true, false, some, Option-cases, inl, inr, length, length-append, append_assoc, append-nil,
  get_elem?,
}
use moon_in_water.Changes.{Entry}
use moon_in_water.Pairs.{IdPair}
use moon_in_water.Pairs.Count.{set-middle}
use moon_in_water.Versions.{
  Memory, Merged, merge, create_loop, create_blocks, store_pairs, zero_pairs, write_id_start,
  fill_table, new_order_id,
}
use moon_in_water.Versions.Shuffle.{Shuffled, AreRising}
use moon_in_water.Versions.Merge.{merge_sound}
use moon_in_water.Versions.Ids.{
  AreConsecutive, AreUnder, AreRising-append, AreConsecutive-append, kept-AreRising, kept-AreUnder,
  kept-length, AreUnder-write_id_start, written_ids, created_ids,
}

-- Arrays filled from left to right.
store_pairs-middle :
    (xs ys zs ps : List IdPair)
    → length ps ≡ length ys
    → store_pairs (xs ++ (ys ++ zs)) (length xs) ps ≡ xs ++ (ps ++ zs)
unfolding store_pairs
store_pairs-middle xs [] zs [] h = refl
store_pairs-middle xs [] zs (p ∷ ps) h = absurd (omega arith)
store_pairs-middle xs (y ∷ ys) zs [] h = absurd (omega arith)
store_pairs-middle xs (y ∷ ys) zs (p ∷ ps) h = rw (set-middle xs (ys ++ zs) y p) (
    let n : length xs + 1 ≡ length (xs ++ (p ∷ [])) = omega (arith, length-append xs (p ∷ [])) in
    rw n (
      rw (sym (append_assoc xs (p ∷ []) (ys ++ zs))) (
        store_pairs-middle (xs ++ (p ∷ [])) ys zs ps (omega arith)
        ∙ append_assoc xs (p ∷ []) (ps ++ zs))))

zero_pairs_add : (m n : ℕ) → zero_pairs (m + n) ≡ zero_pairs m ++ zero_pairs n
unfolding zero_pairs
zero_pairs_add zero n = ap zero_pairs (omega arith)
zero_pairs_add (suc m) n =
    let e : suc m + n ≡ suc (m + n) = omega arith in
    rw e (ap (◌∷◌ (record { addr = 0; key = 0 })) (zero_pairs_add m n))

length-zero_pairs : (n : ℕ) → length (zero_pairs n) ≡ n
unfolding zero_pairs
length-zero_pairs zero = refl
length-zero_pairs (suc n) = ap suc (length-zero_pairs n)

store_pairs-last :
    (xs ys ps : List IdPair) (i : ℕ)
    → i ≡ length xs
    → length ps ≡ length ys
    → store_pairs (xs ++ ys) i ps ≡ xs ++ ps
store_pairs-last xs ys ps i e h =
    rw e (rw (append-nil ys, append-nil ps) at (store_pairs-middle xs ys [] ps h))

-- The three runs of pairs fill the array.
fill_table_lem :
    (m : Merged) (created : List IdPair) (n write_index write_num : ℕ)
    → n ≡ length m.kept + (length m.written + length created)
    → write_index ≡ length m.kept
    → write_num ≡ length m.written
    → fill_table n write_index write_num m created ≡ m.kept ++ (m.written ++ created)
unfolding fill_table
fill_table_lem m created n write_index write_num a b c =
    let k = length m.kept in
    let w = length m.written in
    let first : store_pairs (zero_pairs n) 0 m.kept
        ≡ m.kept ++ (zero_pairs w ++ zero_pairs (length created)) =
      rw (a, zero_pairs_add k (w + length created), zero_pairs_add w (length created))
        (store_pairs-middle [] (zero_pairs k) _ m.kept (sym (length-zero_pairs k))) in
    let second : store_pairs (m.kept ++ (zero_pairs w ++ zero_pairs (length created))) write_index
          m.written
        ≡ m.kept ++ (m.written ++ zero_pairs (length created)) =
      rw b (store_pairs-middle m.kept (zero_pairs w) _ m.written (sym (length-zero_pairs w))) in
    rw first (
      rw second (
        rw (sym (append_assoc m.kept m.written (zero_pairs (length created)))) (
          store_pairs-last (m.kept ++ m.written) (zero_pairs (length created)) created _
            (omega (arith, length-append m.kept m.written, b, c))
            (sym (length-zero_pairs (length created)))
          ∙ append_assoc m.kept m.written created)))

-- The parts of a table that was built.
new_order_id_parts :
    (mem : Memory) (has_new_id : Bool) (order_id : List IdPair) (ds ws ns : List Entry)
    (table : List IdPair)
    → new_order_id mem has_new_id order_id ds ws ns ≡ some table
    → (m : Merged) × (created : List IdPair) × (merge mem has_new_id order_id ds ws
          (write_id_start order_id)
        ≡ some m)
      × (create_blocks mem has_new_id ns ((write_id_start order_id + length ws) % 2 ^ 64)
          ≡ some created)
      × (table
          ≡ fill_table
              (length order_id + length ns - length ds)
              (length order_id - (length ws + length ds))
              (length ws)
              m
              created)
unfolding new_order_id
new_order_id_parts mem has_new_id order_id ds ws ns table h =
    elim (Option-cases (merge mem has_new_id order_id ds ws (write_id_start order_id))) [
      | inl e ↦ absurd (ground arith)
      | inr (m, e) ↦
          elim (Option-cases
            (create_blocks mem has_new_id ns ((write_id_start order_id + length ws) % 2 ^ 64))) [
              | inl f ↦ absurd (ground arith)
              | inr (created, f) ↦ (m, created, e, f, ground arith)
            ]
    ]

create_blocks_ids :
    (mem : Memory) (ns : List Entry) (next : ℕ) (ps : List IdPair)
    → next + length ns < 2 ^ 64
    → create_blocks mem false ns next ≡ some ps
    → AreConsecutive next ps × (length ps ≡ length ns)
unfolding create_blocks
create_blocks_ids mem [] next ps b h = let k : ps ≡ [] = cc in rw k (tt, refl)
create_blocks_ids mem (e ∷ es) next ps b h = created_ids mem e (suc (length es)) next ps b h

-- Where the packet has no ids of its own and the ids of the old table rise from 1 on, below a bound that leaves
-- room in 64 bits for an id of each written and each new block, the table by id of the
-- new version is the pairs of the old one that are neither deleted nor written, in order, and then as many new
-- pairs as there are written and new blocks, with the ids that follow the last old one; so its ids rise too.
pub new_order_id-AreRising :
    (mem : Memory) (p : IdPair) (ps : List IdPair) (ds ws ns : List Entry) (table : List IdPair)
    (b : ℕ)
    → AreRising 0 (p ∷ ps)
    → AreUnder b (p ∷ ps)
    → b + length ws + length ns < 2 ^ 64
    → new_order_id mem false (p ∷ ps) ds ws ns ≡ some table
    → (ks : List IdPair) × (olds : List IdPair) × (news : List IdPair) × Shuffled
        (p ∷ ps)
        ds
        ws
        ks
        olds
      × (table ≡ ks ++ news)
      × AreConsecutive (write_id_start (p ∷ ps)) news
      × (length news ≡ length ws + length ns)
      × AreRising 0 table
new_order_id-AreRising mem p ps ds ws ns table b r under fits h =
    let (m, created, e, f, g) = new_order_id_parts mem false (p ∷ ps) ds ws ns table h in
    let start = write_id_start (p ∷ ps) in
    let s = merge_sound mem false (p ∷ ps) ds ws start m e in
    let u = AreUnder-write_id_start b 0 p ps (omega arith) under r in
    let w = written_ids mem (p ∷ ps) ds ws start m (omega (arith, u.0)) e in
    let word : (start + length ws) % 2 ^ 64 ≡ start + length ws = omega (arith, u.0) in
    let c =
      create_blocks_ids mem ns (start + length ws) created (omega (arith, u.0)) (rw word at f) in
    let k = kept-length s in
    let shape : table ≡ m.kept ++ (m.written ++ created) =
      g
      ∙ fill_table_lem m created _ _ _ (omega (arith, k, w.1, c.1)) (omega (arith, k, w.1))
          (sym w.1) in
    let news : AreConsecutive start (m.written ++ created) =
      AreConsecutive-append start m.written created w.0 (rw (sym w.1) at c.0) in
    (
      m.kept,
      m.prev_pairs,
      m.written ++ created,
      s,
      shape,
      news,
      omega (arith, length-append m.written created, w.1, c.1),
      rw shape (
          AreRising-append 0 start m.kept _ u.1 (kept-AreRising 0 s r) (kept-AreUnder start s u.2)
            news),
    )

cons_alike :
    (n : ℕ) (p : IdPair) (ps : List IdPair)
    → p.key ≡ n
    → ((i : ℕ) (q : IdPair) → get_elem? ps i ≡ some q → q.key ≡ n)
    → (i : ℕ) (q : IdPair) → get_elem? (p ∷ ps) i ≡ some q
    → q.key ≡ n
cons_alike n p ps e all zero q h = ground arith
cons_alike n p ps e all (suc i) q h = all i q h

create_loop_alike :
    (mem : Memory) (e : Entry) (n next : ℕ) (ps : List IdPair)
    → create_loop mem true e n next ≡ some ps
    → (length ps ≡ n) × ((i : ℕ) (q : IdPair) → get_elem? ps i ≡ some q → q.key ≡ e.id_2)
unfolding create_loop
create_loop_alike mem e zero next ps h = let k : ps ≡ [] = cc in rw k (refl, λ i q d. absurd (cc))
create_loop_alike mem e (suc n) next ps h = elim (Option-cases (mem.create next e.id_0 e.id_1)) [
  | inl q ↦ absurd (ground arith)
  | inr (a, q) ↦ elim (Option-cases (create_loop mem true e n ((next + 1) % 2 ^ 64))) [
    | inl w ↦ absurd (ground arith)
    | inr (qs, w) ↦
        let r = create_loop_alike mem e n ((next + 1) % 2 ^ 64) qs w in
        let k : ps ≡ record { addr = a; key = e.id_2 } ∷ qs = ground arith in
        rw k (ap suc r.0, cons_alike e.id_2 (record { addr = a; key = e.id_2 }) qs refl r.1)
  ]
]

-- Where the packet has ids of its own, every block that is created gets the id of the first entry.
pub create_blocks_alike :
    (mem : Memory) (e : Entry) (es : List Entry) (next : ℕ) (ps : List IdPair)
    → create_blocks mem true (e ∷ es) next ≡ some ps
    → (length ps ≡ length (e ∷ es))
      × ((i : ℕ) (q : IdPair) → get_elem? ps i ≡ some q → q.key ≡ e.id_2)
unfolding create_blocks
create_blocks_alike mem e es next ps h = create_loop_alike mem e (suc (length es)) next ps h
