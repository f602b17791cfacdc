-- ===== src/Versions/Shuffle.antt =====
-- The fate of a pair of the old table in `_create_new_version` of moon_code/sync/src/moon_runtime.c, and
-- a description of the tables that are taken apart.
use moon_in_water.Prelude.{
  ℕ, ◌<◌, ◌≡◌, refl, arith, List, [], ◌∷◌, Option, none, some, inl, inr, ◌⊎◌,
}
use moon_in_water.Changes.{Entry}
use moon_in_water.Pairs.{IdPair}
use moon_in_water.Versions.{
  Merged, keep_pair, write_pair, Fate, illegal, deleted, written, kept, write_fate, fate,
}

-- The table ps is the pairs that stay, those whose ids the deleted entries name and those whose ids the
-- written entries name, each in order.
pub data Shuffled : List IdPair → List Entry → List Entry → List IdPair → List IdPair → Type 0 where
  nothing : Shuffled [] [] [] [] []
  keep :
      (p : IdPair) {ps : List IdPair} {ds ws : List Entry} {ks olds : List IdPair}
      → Shuffled ps ds ws ks olds
      → Shuffled (p ∷ ps) ds ws (p ∷ ks) olds
  delete :
      (p : IdPair) (d : Entry) {ps : List IdPair} {ds ws : List Entry} {ks olds : List IdPair}
      → d.id_0 ≡ p.key
      → Shuffled ps ds ws ks olds
      → Shuffled (p ∷ ps) (d ∷ ds) ws ks olds
  write :
      (p : IdPair) (w : Entry) {ps : List IdPair} {ds ws : List Entry} {ks olds : List IdPair}
      → w.id_0 ≡ p.key
      → Shuffled ps ds ws ks olds
      → Shuffled (p ∷ ps) ds (w ∷ ws) ks (p ∷ olds)

-- The ids rise from above c on.
abbrev pub AreRising : ℕ → List IdPair → Type 0
AreRising c [] = Unit {0}
AreRising c (p ∷ ps) = (c < p.key) × AreRising p.key ps

first_deleted :
    {d : Entry} {ps : List IdPair} {ds ws : List Entry} {ks olds : List IdPair} {c : ℕ}
    → Shuffled ps (d ∷ ds) ws ks olds
    → AreRising c ps
    → c < d.id_0
first_deleted (keep p s) r = omega (arith, first_deleted s r.1)
first_deleted (delete p d e s) r = omega arith
first_deleted (write p w e s) r = omega (arith, first_deleted s r.1)

first_written :
    {w : Entry} {ps : List IdPair} {ds ws : List Entry} {ks olds : List IdPair} {c : ℕ}
    → Shuffled ps ds (w ∷ ws) ks olds
    → AreRising c ps
    → c < w.id_0
first_written (keep p s) r = omega (arith, first_written s r.1)
first_written (delete p d e s) r = omega (arith, first_written s r.1)
first_written (write p w e s) r = omega arith

pub write_fate_kept :
    (c : ℕ) (ws : List Entry) {ps ks olds : List IdPair} {ds : List Entry}
    → Shuffled ps ds ws ks olds
    → AreRising c ps
    → write_fate c ws ≡ kept
unfolding write_fate
write_fate_kept c [] s r = refl
write_fate_kept c (w ∷ ws) s r = ground (arith, first_written s r)

pub fate_past :
    (c : ℕ) (us ds : List Entry) {ps ks olds : List IdPair} {ws : List Entry}
    → Shuffled ps ds ws ks olds
    → AreRising c ps
    → fate c ds us ≡ write_fate c us
unfolding fate
fate_past c us [] s r = refl
fate_past c us (d ∷ ds) s r = ground (arith, first_deleted s r)

pub fate_deleted :
    (d : Entry) (ds ws : List Entry) (c : ℕ) → d.id_0 ≡ c → fate c (d ∷ ds) ws ≡ deleted
unfolding fate
fate_deleted d ds ws c e = ground arith

pub write_fate_written :
    (w : Entry) (ws : List Entry) (c : ℕ) → w.id_0 ≡ c → write_fate c (w ∷ ws) ≡ written
unfolding write_fate
write_fate_written w ws c e = ground arith

-- What a merge takes apart, by the fate of the first pair.
pub fate_deleted_inv :
    (c : ℕ) (ds ws : List Entry)
    → fate c ds ws ≡ deleted
    → (d : Entry) × (es : List Entry) × (ds ≡ d ∷ es) × (d.id_0 ≡ c)
unfolding fate write_fate
fate_deleted_inv c [] [] e = absurd (cc)
fate_deleted_inv c [] (w ∷ ws) e = absurd (ground arith)
fate_deleted_inv c (d ∷ ds) [] e = (d, ds, refl, ground arith)
fate_deleted_inv c (d ∷ ds) (w ∷ ws) e = (d, ds, refl, ground arith)

pub fate_written_inv :
    (c : ℕ) (ds ws : List Entry)
    → fate c ds ws ≡ written
    → (w : Entry) × (us : List Entry) × (ws ≡ w ∷ us) × (w.id_0 ≡ c)
unfolding fate write_fate
fate_written_inv c [] [] e = absurd (cc)
fate_written_inv c [] (w ∷ ws) e = (w, ws, refl, ground arith)
fate_written_inv c (d ∷ ds) [] e = absurd (ground arith)
fate_written_inv c (d ∷ ds) (w ∷ ws) e = (w, ws, refl, ground arith)

pub keep_pair_inv :
    (p : IdPair) (o : Option Merged) (m : Merged)
    → keep_pair p o ≡ some m
    → (n : Merged) × (o ≡ some n) × (m ≡ record n { kept = p ∷ n.kept })
unfolding keep_pair
keep_pair_inv p none m e = absurd (cc)
keep_pair_inv p (some n) m e = (n, refl, cc)

pub write_pair_inv :
    (p : IdPair) (id : ℕ) (b : Option ℕ) (o : Option Merged) (m : Merged)
    → write_pair p id b o ≡ some m
    → (n : Merged) × (a : ℕ) × (o ≡ some n)
      × (m ≡ record n {
        written = record { addr = a; key = id } ∷ n.written;
        prev_pairs = p ∷ n.prev_pairs;
      })
unfolding write_pair
write_pair_inv p id none o m e = absurd (cc)
write_pair_inv p id (some a) none m e = absurd (cc)
write_pair_inv p id (some a) (some n) m e = (n, a, refl, cc)

pub Fate-cases : (f : Fate) → (f ≡ illegal) ⊎ ((f ≡ deleted) ⊎ ((f ≡ written) ⊎ (f ≡ kept)))
Fate-cases illegal = inl refl
Fate-cases deleted = inr (inl refl)
Fate-cases written = inr (inr (inl refl))
Fate-cases kept = inr (inr (inr refl))
