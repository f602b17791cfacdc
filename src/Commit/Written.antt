-- ===== src/Commit/Written.antt =====
-- The second traversal of a commit, `pac2_func` of moon_code/sync/src/moon_runtime.c.
use moon_in_water.Prelude.{
  ℕ, ◌+◌, ◌%◌, ◌^◌, ◌<◌, ◌≤◌, ◌≡◌, refl, ap, sym, ◌∙◌, arith, ltb, ◌==◌, List, [], ◌∷◌, ◌++◌, true,
  Option, none, some, length, length-append, append_assoc, append-nil, get_elem?,
}
use moon_in_water.Pairs.{IdPair, cell_at, or_zeros, search_addr_id}
use moon_in_water.Pairs.Count.{IsSorted}
use moon_in_water.Pairs.Search.{search_addr_id-IsFloor, IsFloor}
use moon_in_water.Points.{done}
use moon_in_water.Commit.{
  Changed, Counts, Kind, is_new, is_deleted, is_written, kind, Filled, add_pair, prev_pair,
  fill_block, pac2_func, second_traversal,
}
use moon_in_water.Commit.Fill.{
  pair_of, del_pair, write_pair, new_pair, dels_of, writes_of, news_of, AreInTable,
}

-- The pairs before a change: each one stands in the table of the version, with the id of the written
-- block.
abbrev pub ArePrev : List IdPair → List IdPair → List IdPair → Type 0
ArePrev order_id [] [] = Unit {0}
ArePrev order_id [] (w ∷ ws) = ⊥
ArePrev order_id (p ∷ ps) [] = ⊥
ArePrev order_id (p ∷ ps) (w ∷ ws) =
    ((i : ℕ) × (get_elem? order_id i ≡ some p)) × (p.key ≡ w.key) × ArePrev order_id ps ws

add_pair_lem :
    (num : ℕ) (ps : List IdPair) (p : IdPair)
    → length ps < num
    → add_pair num ps p ≡ done (ps ++ p ∷ [])
unfolding add_pair
add_pair_lem num ps p h = let e : ltb (length ps) num ≡ true = ground arith in rw e refl

found_prev :
    (order_id : List IdPair) (id i : ℕ) (q : IdPair) (found : Option ℕ)
    → IsFloor order_id id found
    → get_elem? order_id i ≡ some q
    → q.key ≡ id
    → (p : IdPair) × (prev_pair order_id id (some found) ≡ done p)
      × ((j : ℕ) × (get_elem? order_id j ≡ some p))
      × (p.key ≡ id)
unfolding prev_pair cell_at or_zeros
found_prev order_id id i q none floor e k = absurd (omega (arith, floor i q e))
found_prev order_id id i q (some j) (p, d, le, max) e k =
    let same : p.key ≡ id = omega (arith, max i q e) in
    let hit : p.key == id ≡ true = ground arith in
    (
      record { addr = p.addr; key = id },
      rw d (rw hit refl),
      (j, d ∙ ap (λ n. some (record { addr = p.addr; key = n })) same),
      refl,
    )

prev_pair_lem :
    (order_id : List IdPair) (id i : ℕ) (q : IdPair)
    → IsSorted order_id
    → get_elem? order_id i ≡ some q
    → q.key ≡ id
    → (p : IdPair) × (prev_pair order_id id (search_addr_id order_id id) ≡ done p)
      × ((j : ℕ) × (get_elem? order_id j ≡ some p))
      × (p.key ≡ id)
prev_pair_lem order_id id i q s e k =
    let (found, d, floor) = search_addr_id-IsFloor order_id id s in
    rw d (found_prev order_id id i q found floor e k)

-- The room that is left suffices for what is to come.
pub record HasRoom (start : ℕ) (c : Counts) (f : Filled) (ds ws : List IdPair)
    (ns : ℕ → List IdPair) : Type 0 where
  pub dels : length f.dels + length ds ≤ c.del_num
  pub writes : length f.writes + length ws ≤ c.write_num
  pub news : length f.news + length (ns (start + length f.news)) ≤ c.new_num
  pub prevs : length f.prev_pairs ≡ length f.writes

-- What one block adds to the lists.
record IsStep (order_id : List IdPair) (start : ℕ) (k : Kind) (b : Changed) (f f' : Filled)
    : Type 0 where
  dels : (ds : List IdPair) → f'.dels ++ ds ≡ f.dels ++ del_pair k b ds
  writes : (ws : List IdPair) → f'.writes ++ ws ≡ f.writes ++ write_pair k b ws
  news :
      (ns : ℕ → List IdPair)
      → f'.news ++ ns (start + length f'.news) ≡ f.news ++ new_pair k b (start + length f.news) ns
  prevs :
      (ps ws : List IdPair)
      → ArePrev order_id ps ws
      → (qs : List IdPair) × (f'.prev_pairs ++ ps ≡ f.prev_pairs ++ qs)
        × ArePrev order_id qs (write_pair k b ws)

in_table :
    (order_id : List IdPair) (k : Kind) (b : Changed) (bs : List Changed)
    → AreInTable order_id (write_pair k b (writes_of bs))
    → AreInTable order_id (writes_of bs)
in_table order_id is_new b bs t = t
in_table order_id is_deleted b bs t = t
in_table order_id is_written b bs t = t.1

module _ (order_id : List IdPair) (start : ℕ) (c : Counts) (sorted : IsSorted order_id) where
  fill_block-IsStep :
      (k : Kind) (b : Changed) (f : Filled) (ds ws : List IdPair) (ns : ℕ → List IdPair)
      → AreInTable order_id (write_pair k b ws)
      → HasRoom start c f (del_pair k b ds) (write_pair k b ws) (λ n. new_pair k b n ns)
      → (f' : Filled) × (fill_block order_id start c k b f ≡ done f')
        × IsStep order_id start k b f f'
        × HasRoom start c f' ds ws ns
  unfolding fill_block
  fill_block-IsStep is_new b f ds ws ns t r =
      let p : IdPair = record { addr = b.addr; key = (start + length f.news) % 2 ^ 64 } in
      let n : start + length (f.news ++ p ∷ []) ≡ start + length f.news + 1 =
        omega (arith, length-append f.news (p ∷ [])) in
      (
        record f { news = f.news ++ p ∷ [] },
        rw (add_pair_lem c.new_num f.news p (omega (arith, r.news))) refl,
        record {
          dels = λ ds. refl;
          writes = λ ws. refl;
          news = λ ns. rw n (append_assoc f.news (p ∷ []) (ns (start + length f.news + 1)));
          prevs = λ ps ws h. (ps, refl, h);
        },
        record {
          dels = r.dels;
          writes = r.writes;
          news = rw n (omega (arith, r.news, length-append f.news (p ∷ [])));
          prevs = r.prevs;
        },
      )
  fill_block-IsStep is_deleted b f ds ws ns t r = (
    record f { dels = f.dels ++ pair_of b ∷ [] },
    rw (add_pair_lem c.del_num f.dels (pair_of b) (omega (arith, r.dels))) refl,
    record {
      dels = λ ds. append_assoc f.dels (pair_of b ∷ []) ds;
      writes = λ ws. refl;
      news = λ ns. refl;
      prevs = λ ps ws h. (ps, refl, h);
    },
    record {
      dels = omega (arith, r.dels, length-append f.dels (pair_of b ∷ []));
      writes = r.writes;
      news = r.news;
      prevs = r.prevs;
    },
  )
  fill_block-IsStep is_written b f ds ws ns ((i, q, e, d), t) r =
      let (p, found, at, k) = prev_pair_lem order_id b.id i q sorted e d in
      (
        record f { writes = f.writes ++ pair_of b ∷ []; prev_pairs = f.prev_pairs ++ p ∷ [] },
        rw (add_pair_lem c.write_num f.writes (pair_of b) (omega (arith, r.writes))) (
            rw found (
              rw (add_pair_lem c.write_num f.prev_pairs p (omega (arith, r.writes, r.prevs)))
                refl)),
        record {
          dels = λ ds. refl;
          writes = λ ws. append_assoc f.writes (pair_of b ∷ []) ws;
          news = λ ns. refl;
          prevs = λ ps ws h. (p ∷ ps, append_assoc f.prev_pairs (p ∷ []) ps, (at, k, h));
        },
        record {
          dels = r.dels;
          writes = omega (arith, r.writes, length-append f.writes (pair_of b ∷ []));
          news = r.news;
          prevs = omega (
            arith,
            r.prevs,
            length-append f.writes (pair_of b ∷ []),
            length-append f.prev_pairs (p ∷ []),
          );
        },
      )

  pub second_traversal_lem :
      (bs : List Changed) (f : Filled)
      → AreInTable order_id (writes_of bs)
      → HasRoom start c f (dels_of bs) (writes_of bs) (λ n. news_of n bs)
      → (f' : Filled) × (second_traversal order_id start c bs f ≡ done f')
        × (f'.dels ≡ f.dels ++ dels_of bs)
        × (f'.writes ≡ f.writes ++ writes_of bs)
        × (f'.news ≡ f.news ++ news_of (start + length f.news) bs)
        × ((qs : List IdPair) × (f'.prev_pairs ≡ f.prev_pairs ++ qs)
            × ArePrev order_id qs (writes_of bs))
  unfolding second_traversal pac2_func
  second_traversal_lem [] f t r = (
    f,
    refl,
    sym (append-nil _),
    sym (append-nil _),
    sym (append-nil _),
    ([], sym (append-nil _), tt),
  )
  second_traversal_lem (b ∷ bs) f t r =
      let (f1, e, step, room) =
        fill_block-IsStep (kind b) b f (dels_of bs) (writes_of bs) (λ n. news_of n bs) t r in
      let (f2, d, x, y, z, (qs, w, prev)) =
        second_traversal_lem bs f1 (in_table order_id (kind b) b bs t) room in
      let (ps, v, prev') = step.prevs qs (writes_of bs) prev in
      (
        f2,
        rw e d,
        x ∙ step.dels _,
        y ∙ step.writes _,
        z ∙ step.news (λ n. news_of n bs),
        (ps, w ∙ v, prev'),
      )
