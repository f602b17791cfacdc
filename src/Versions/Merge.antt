-- ===== src/Versions/Merge.antt =====
-- The loop over the old table in `_create_new_version` of moon_code/sync/src/moon_runtime.c, against a
-- description of what it takes apart.
use moon_in_water.Prelude.{
  ℕ, ◌+◌, ◌%◌, ◌^◌, ◌≡◌, refl, ap, sym, ◌∙◌, List, [], ◌∷◌, Bool, none, some, inl, inr, subst,
}
use moon_in_water.Changes.{Entry}
use moon_in_water.Pairs.{IdPair}
use moon_in_water.Versions.{
  Memory, Merged, keep_pair, write_pair, illegal, deleted, written, kept, fate, rest_of, written_id,
  merge,
}
use moon_in_water.Versions.Shuffle.{
  Shuffled, nothing, keep, delete, write, AreRising, write_fate_kept, fate_past, fate_deleted,
  write_fate_written, fate_deleted_inv, fate_written_inv, keep_pair_inv, write_pair_inv, Fate-cases,
}

module _ (mem : Memory) (has_new_id : Bool) where
  -- One round, by the fate of the pair.
  module _ (p : IdPair) (ps : List IdPair) (ds ws : List Entry) (next : ℕ) where
    pub merge_kept :
        fate p.key ds ws ≡ kept
        → merge mem has_new_id (p ∷ ps) ds ws next
          ≡ keep_pair p (merge mem has_new_id ps ds ws next)
    unfolding merge
    merge_kept e = rw (e, merge) refl

    pub merge_deleted :
        fate p.key ds ws ≡ deleted
        → merge mem has_new_id (p ∷ ps) ds ws next ≡ merge mem has_new_id ps (rest_of ds) ws next
    unfolding merge
    merge_deleted e = rw (e, merge) refl

    pub merge_written :
        fate p.key ds ws ≡ written
        → merge mem has_new_id (p ∷ ps) ds ws next
          ≡ write_pair p
              (written_id has_new_id next ws)
              (mem.dump p.addr)
              (merge mem has_new_id ps ds (rest_of ws) ((next + 1) % 2 ^ 64))
    unfolding merge
    merge_written e = rw (e, merge) refl

    pub merge_illegal : fate p.key ds ws ≡ illegal → merge mem has_new_id (p ∷ ps) ds ws next ≡ none
    unfolding merge
    merge_illegal e = rw (e, merge) refl

  -- A table that is taken apart so is merged so, if every block can be dumped.
  pub merge_complete :
      ((a : ℕ) → (b : ℕ) × (mem.dump a ≡ some b))
      → (c next : ℕ) {xs ks olds : List IdPair} {ds ws : List Entry} → Shuffled xs ds ws ks olds
      → AreRising c xs
      → (m : Merged) × (merge mem has_new_id xs ds ws next ≡ some m)
        × (m.kept ≡ ks)
        × (m.prev_pairs ≡ olds)
  unfolding merge keep_pair write_pair rest_of
  merge_complete dumps c next nothing r =
      (record { kept = []; written = []; prev_pairs = [] }, refl, refl, refl)
  merge_complete dumps c next (keep p {ps} {ds} {ws} s) r =
      let (m, e, k, o) = merge_complete dumps p.key next s r.1 in
      (
        record m { kept = p ∷ m.kept },
        merge_kept p ps ds ws next (fate_past p.key ws ds s r.1 ∙ write_fate_kept p.key ws s r.1)
            ∙ rw e refl,
        ap (◌∷◌ p) k,
        o,
      )
  merge_complete dumps c next (delete p d {ps} {ds} {ws} h s) r =
      let (m, e, k, o) = merge_complete dumps p.key next s r.1 in
      (m, merge_deleted p ps (d ∷ ds) ws next (fate_deleted d ds ws p.key h) ∙ e, k, o)
  merge_complete dumps c next (write p w {ps} {ds} {ws} h s) r =
      let (m, e, k, o) = merge_complete dumps p.key ((next + 1) % 2 ^ 64) s r.1 in
      let (b, d) = dumps p.addr in
      (
        record m {
          written = record { addr = b; key = written_id has_new_id next (w ∷ ws) } ∷ m.written;
          prev_pairs = p ∷ m.prev_pairs;
        },
        merge_written p ps ds (w ∷ ws) next
              (fate_past p.key (w ∷ ws) ds s r.1 ∙ write_fate_written w ws p.key h)
            ∙ rw (d, e) refl,
        k,
        ap (◌∷◌ p) o,
      )

  -- A merge that succeeds has taken the table apart.
  pub merge_sound :
      (xs : List IdPair) (ds ws : List Entry) (next : ℕ) (m : Merged)
      → merge mem has_new_id xs ds ws next ≡ some m
      → Shuffled xs ds ws m.kept m.prev_pairs
  unfolding merge rest_of
  merge_sound [] [] [] next m e =
      let d : m ≡ record { kept = []; written = []; prev_pairs = [] } = cc in rw d nothing
  merge_sound [] [] (w ∷ ws) next m e = absurd (cc)
  merge_sound [] (d ∷ ds) ws next m e = absurd (cc)
  merge_sound (p ∷ ps) ds ws next m e = elim (Fate-cases (fate p.key ds ws)) [
    | inl f ↦ absurd (cc (merge_illegal p ps ds ws next f, e))
    | inr (inl f) ↦
        let (d, es, g, h) = fate_deleted_inv p.key ds ws f in
        let s = merge_sound ps (rest_of ds) ws next m (sym (merge_deleted p ps ds ws next f) ∙ e) in
        rw g (delete p d h (subst (λ x. Shuffled ps (rest_of x) ws m.kept m.prev_pairs) g s))
    | inr (inr (inl f)) ↦
        let (w, us, g, h) = fate_written_inv p.key ds ws f in
        let (n, a, o, k) = write_pair_inv p _ _ _ m (sym (merge_written p ps ds ws next f) ∙ e) in
        let s = merge_sound ps ds (rest_of ws) ((next + 1) % 2 ^ 64) n o in
        rw (g, k) (write p w h (subst (λ x. Shuffled ps ds (rest_of x) n.kept n.prev_pairs) g s))
    | inr (inr (inr f)) ↦
        let (n, o, k) = keep_pair_inv p _ m (sym (merge_kept p ps ds ws next f) ∙ e) in
        rw k (keep p (merge_sound ps ds ws next n o))
  ]

  -- Where every block can be dumped and the ids of the old table rise from 1 on, the merge succeeds exactly
  -- if the table is the pairs that stay, the deleted ones and the written ones, each in the order of its list;
  -- and it finds those that stay and the old pairs of the written ones.
  pub merge_iff :
      ((a : ℕ) → (b : ℕ) × (mem.dump a ≡ some b))
      → (xs : List IdPair) (ds ws : List Entry) (next : ℕ) → AreRising 0 xs
      → ((m : Merged)
          → merge mem has_new_id xs ds ws next ≡ some m
          → Shuffled xs ds ws m.kept m.prev_pairs)
        × ((ks olds : List IdPair)
            → Shuffled xs ds ws ks olds
            → (m : Merged) × (merge mem has_new_id xs ds ws next ≡ some m)
              × (m.kept ≡ ks)
              × (m.prev_pairs ≡ olds))
  merge_iff dumps xs ds ws next r =
      (merge_sound xs ds ws next, λ ks olds s. merge_complete dumps 0 next s r)
