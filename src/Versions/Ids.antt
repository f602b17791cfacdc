-- ===== src/Versions/Ids.antt =====
-- The ids of the blocks of a new version in `_create_new_version` of moon_code/sync/src/moon_runtime.c.
use moon_in_water.Prelude.{
  ℕ, zero, suc, ◌+◌, ◌-◌, ◌%◌, ◌^◌, ◌<◌, ◌≤◌, ◌≡◌, refl, ap, sym, subst, ◌∙◌, arith, List, [], ◌∷◌,
  ◌++◌, false, some, Option-cases, inl, inr, length,
}
use moon_in_water.Changes.{Entry}
use moon_in_water.Pairs.{IdPair, cell_at, or_zeros}
use moon_in_water.Versions.{
  Memory, Merged, fate, rest_of, written_id, merge, create_loop, write_id_start,
}
use moon_in_water.Versions.Shuffle.{
  Shuffled, nothing, keep, delete, write, AreRising, fate_written_inv, keep_pair_inv,
  write_pair_inv, Fate-cases,
}
use moon_in_water.Versions.Merge.{merge_kept, merge_deleted, merge_written, merge_illegal}

-- All ids below a bound.
abbrev pub AreUnder : ℕ → List IdPair → Type 0
AreUnder n [] = Unit {0}
AreUnder n (p ∷ ps) = (p.key < n) × AreUnder n ps

-- The ids n, n + 1, and so on.
abbrev pub AreConsecutive : ℕ → List IdPair → Type 0
AreConsecutive n [] = Unit {0}
AreConsecutive n (p ∷ ps) = (p.key ≡ n) × AreConsecutive (n + 1) ps

AreRising-lt : (c d : ℕ) (ps : List IdPair) → c ≤ d → AreRising d ps → AreRising c ps
AreRising-lt c d [] h r = tt
AreRising-lt c d (p ∷ ps) h r = (omega arith, r.1)

AreConsecutive-AreRising :
    (c n : ℕ) (ps : List IdPair) → c < n → AreConsecutive n ps → AreRising c ps
AreConsecutive-AreRising c n [] h s = tt
AreConsecutive-AreRising c n (p ∷ ps) h s =
    (omega arith, AreConsecutive-AreRising p.key (n + 1) ps (omega arith) s.1)

pub AreRising-append :
    (c n : ℕ) (xs ys : List IdPair)
    → c < n
    → AreRising c xs
    → AreUnder n xs
    → AreConsecutive n ys
    → AreRising c (xs ++ ys)
AreRising-append c n [] ys h r u s = AreConsecutive-AreRising c n ys h s
AreRising-append c n (x ∷ xs) ys h r u s = (r.0, AreRising-append x.key n xs ys u.0 r.1 u.1 s)

pub AreConsecutive-append :
    (n : ℕ) (xs ys : List IdPair)
    → AreConsecutive n xs
    → AreConsecutive (n + length xs) ys
    → AreConsecutive n (xs ++ ys)
AreConsecutive-append n [] ys r s = let e : n + 0 ≡ n = omega arith in rw e at s
AreConsecutive-append n (x ∷ xs) ys r s =
    let e : n + suc (length xs) ≡ n + 1 + length xs = omega arith in
    (r.0, AreConsecutive-append (n + 1) xs ys r.1 (rw e at s))

-- What is kept of a table.
pub kept-AreRising :
    (c : ℕ) {xs : List IdPair} {ds ws : List Entry} {ks olds : List IdPair}
    → Shuffled xs ds ws ks olds
    → AreRising c xs
    → AreRising c ks
kept-AreRising c nothing r = tt
kept-AreRising c (keep p s) r = (r.0, kept-AreRising p.key s r.1)
kept-AreRising c (delete p d e s) r =
    AreRising-lt c p.key _ (omega arith) (kept-AreRising p.key s r.1)
kept-AreRising c (write p w e s) r =
    AreRising-lt c p.key _ (omega arith) (kept-AreRising p.key s r.1)

pub kept-AreUnder :
    (n : ℕ) {xs : List IdPair} {ds ws : List Entry} {ks olds : List IdPair}
    → Shuffled xs ds ws ks olds
    → AreUnder n xs
    → AreUnder n ks
kept-AreUnder n nothing u = tt
kept-AreUnder n (keep p s) u = (u.0, kept-AreUnder n s u.1)
kept-AreUnder n (delete p d e s) u = kept-AreUnder n s u.1
kept-AreUnder n (write p w e s) u = kept-AreUnder n s u.1

pub kept-length :
    {xs : List IdPair} {ds ws : List Entry} {ks olds : List IdPair}
    → Shuffled xs ds ws ks olds
    → length ks + length ds + length ws ≡ length xs
kept-length nothing = omega arith
kept-length (keep p s) = omega (arith, kept-length s)
kept-length (delete p d e s) = omega (arith, kept-length s)
kept-length (write p w e s) = omega (arith, kept-length s)

-- The last id of the table is the greatest.
write_id_start-cons :
    (p q : IdPair) (ps : List IdPair) → write_id_start (p ∷ q ∷ ps) ≡ write_id_start (q ∷ ps)
unfolding write_id_start cell_at or_zeros
write_id_start-cons p q ps =
    let a : suc (suc (length ps)) - 1 ≡ suc (length ps) = omega arith in
    let b : suc (length ps) - 1 ≡ length ps = omega arith in rw (a, b) refl

write_id_start_one : (p : IdPair) → write_id_start (p ∷ []) ≡ (p.key + 1) % 2 ^ 64
unfolding write_id_start cell_at or_zeros
write_id_start_one p = refl

pub AreUnder-write_id_start :
    (b c : ℕ) (p : IdPair) (ps : List IdPair)
    → b < 2 ^ 64
    → AreUnder b (p ∷ ps)
    → AreRising c (p ∷ ps)
    → (write_id_start (p ∷ ps) ≤ b)
      × (c < write_id_start (p ∷ ps))
      × AreUnder (write_id_start (p ∷ ps)) (p ∷ ps)
AreUnder-write_id_start b c p [] k under r =
    let e = write_id_start_one p in
    let small : p.key < b = under.0 in (omega (arith, e), omega (arith, e), (omega (arith, e), tt))
AreUnder-write_id_start b c p (q ∷ ps) k under r =
    let u = AreUnder-write_id_start b p.key q ps k under.1 r.1 in
    subst (λ s. (s ≤ b) × (c < s) × AreUnder s (p ∷ q ∷ ps)) (sym (write_id_start-cons p q ps))
      (u.0, omega (arith, u.1), (omega (arith, u.1), u.2))

written_id-false : (next : ℕ) (ws : List Entry) → written_id false next ws ≡ next
unfolding written_id
written_id-false next [] = refl
written_id-false next (w ∷ ws) = refl

-- The written blocks of a merge, where the packet has no new ids.
module _ (mem : Memory) where
  pub written_ids :
      (xs : List IdPair) (ds ws : List Entry) (next : ℕ) (m : Merged)
      → next + length ws < 2 ^ 64
      → merge mem false xs ds ws next ≡ some m
      → AreConsecutive next m.written × (length m.written ≡ length ws)
  unfolding merge rest_of written_id
  written_ids [] [] [] next m b e =
      let d : m ≡ record { kept = []; written = []; prev_pairs = [] } = cc in rw d (tt, refl)
  written_ids [] [] (w ∷ ws) next m b e = absurd (cc)
  written_ids [] (d ∷ ds) ws next m b e = absurd (cc)
  written_ids (p ∷ ps) ds ws next m b e = elim (Fate-cases (fate p.key ds ws)) [
    | inl f ↦ absurd (cc (merge_illegal mem false p ps ds ws next f, e))
    | inr (inl f) ↦
        written_ids ps (rest_of ds) ws next m b
          (sym (merge_deleted mem false p ps ds ws next f) ∙ e)
    | inr (inr (inl f)) ↦
        let (w, us, g, h) = fate_written_inv p.key ds ws f in
        let (n, a, o, k) =
          write_pair_inv p _ _ _ m (sym (merge_written mem false p ps ds ws next f) ∙ e) in
        let long : length (rest_of ws) + 1 ≡ length ws = rw g (omega arith) in
        let word : (next + 1) % 2 ^ 64 ≡ next + 1 = omega (arith, long) in
        let r = written_ids ps ds (rest_of ws) (next + 1) n (omega (arith, long)) (rw word at o) in
        subst (λ (x : Merged). AreConsecutive next x.written × (length x.written ≡ length ws))
          (sym k)
          ((written_id-false next ws, r.0), rw g (ap suc (r.1 ∙ ap (λ x. length (rest_of x)) g)))
    | inr (inr (inr f)) ↦
        let (n, o, k) = keep_pair_inv p _ m (sym (merge_kept mem false p ps ds ws next f) ∙ e) in
        let r = written_ids ps ds ws next n b o in rw k r
  ]

  pub created_ids :
      (e : Entry) (n next : ℕ) (ps : List IdPair)
      → next + n < 2 ^ 64
      → create_loop mem false e n next ≡ some ps
      → AreConsecutive next ps × (length ps ≡ n)
  unfolding create_loop
  created_ids e zero next ps b h = let k : ps ≡ [] = cc in rw k (tt, refl)
  created_ids e (suc n) next ps b h = elim (Option-cases (mem.create next e.id_0 e.id_1)) [
    | inl q ↦ absurd (ground arith)
    | inr (a, q) ↦ elim (Option-cases (create_loop mem false e n ((next + 1) % 2 ^ 64))) [
      | inl w ↦ absurd (ground arith)
      | inr (qs, w) ↦
          let word : (next + 1) % 2 ^ 64 ≡ next + 1 = omega arith in
          let r = created_ids e n (next + 1) qs (omega arith) (rw word at w) in
          let k : ps ≡ record { addr = a; key = next } ∷ qs = ground arith in
          rw k ((refl, r.0), ap suc r.1)
    ]
  ]
