-- ===== src/Replicator/Table.antt =====
-- The hash table of the replicator as a whole: all buckets, and every entry that was registered.
use scot.Base.{
  ℕ, suc, ◌+◌, ◌*◌, ◌%◌, ◌≡◌, ◌≢◌, ◌≤◌, ◌<◌, ◌⊎◌, sym, ap, inl, inr, Bool, true, false, Option,
  some, List, [], ◌∷◌, ◌++◌, ◌||◌, length, arith, ◌==◌, leb, ltb, Option-cases, Bool-cases,
}
use native.Mathlib.Nat.{mod-eq_of_lt}
use scot.Entry.{Heap}
use scot.Lfmap.{get_bucket, get_bucket_by_idx}
use scot.Lfmap.Chain.{Cell, has, find, rest, kept, keep_dead}
use scot.Lfmap.Upsert.{insert, swap, upsert, upsert_at}
use scot.Lfmap.Rewire.{has-insert, has-swap}
use scot.Lfmap.Bucket.{IsBucket}
use scot.Lfmap.Find.{hash_table}
use scot.Replicator.Latest.{Leads}

abbrev pub among : ℕ → List ℕ → Bool
among a [] = false
among a (b ∷ bs) = (a == b) || among a bs

-- The head of the list for a hash value.
abbrev pub head_of : (nelem bucket i : ℕ) → ℕ
head_of nelem bucket i = get_bucket_by_idx (hash_table nelem bucket) i

-- A registered entry leads, in fewer steps than there are entries, to the one that the table has
-- for its hash value.
pub record Newest (h : Heap) (found : Option ℕ) (reg : List ℕ) (a : ℕ) : Type 0 where
  pub entry : ℕ
  pub steps : ℕ
  pub has_entry : found ≡ some entry
  pub chain : Leads h (λ x. among x reg ≡ true) entry steps a
  pub few : steps < length reg

pub record IsTable (nelem bucket : ℕ) (h : Heap) (cells : ℕ → List Cell) (reg : List ℕ)
    : Type 0 where
  pub some_lists : 0 < nelem
  pub lists : (i : ℕ) → i < nelem → IsBucket h (head_of nelem bucket i) (cells i)
  pub placed :
      (i a : ℕ)
      → i < nelem
      → has a (cells i) ≡ true
      → ((h a).hashv % nelem ≡ i) × (among a reg ≡ true)
  pub heads : (i : ℕ) → i < nelem → among (head_of nelem bucket i) reg ≡ false
  pub short : (i : ℕ) → i < nelem → length (cells i) ≤ length reg
  pub newest :
      (a : ℕ) → among a reg ≡ true → Newest h (find (h a).hashv (cells ((h a).hashv % nelem))) reg a

pub get_bucket_lem :
    (nelem bucket k : ℕ)
    → 0 < nelem
    → get_bucket (hash_table nelem bucket) k ≡ head_of nelem bucket (k % nelem)
unfolding get_bucket get_bucket_by_idx
get_bucket_lem nelem bucket k pos = elim (Bool-cases (leb nelem k)) [
  | inl large ↦ rw large
  | inr small ↦ rw small (ap (λ (t : ℕ). bucket + 48 * t) (sym (mod-eq_of_lt (ground arith))))
]

-- Two heads are different addresses.
pub head-injective :
    (nelem bucket i j : ℕ) → head_of nelem bucket i ≡ head_of nelem bucket j → i ≡ j
unfolding get_bucket_by_idx
head-injective nelem bucket i j e = omega arith

-- An update adds at most one cell, and no address but the new one.
module _ (k new : ℕ) where
  length-keep_dead :
      (c : Cell) (ds es : List Cell) → length (keep_dead c ds ++ es) ≤ suc (length (ds ++ es))
  unfolding keep_dead
  length-keep_dead c [] es = omega arith
  length-keep_dead c (d ∷ ds) es = omega arith

  length-insert : (cs : List Cell) → length (insert k new cs) ≤ suc (length cs)
  unfolding kept rest
  length-insert [] = omega arith
  length-insert ((a, j, true) ∷ cs) = elim (Bool-cases (ltb k j)) [
    | inl beyond ↦ rw beyond (omega arith)
    | inr within ↦ rw within (
        omega (
          arith,
          length-keep_dead (a, j, true) (kept k cs) ((new, k, false) ∷ rest k cs),
          length-insert cs,
        ))
  ]
  length-insert ((a, j, false) ∷ cs) = ground (arith, length-insert cs)

  length-swap : (cs : List Cell) → length (swap k new cs) ≤ suc (length cs)
  unfolding swap
  length-swap [] = omega arith
  length-swap ((a, j, true) ∷ cs) = ground (arith, length-swap cs)
  length-swap ((a, j, false) ∷ cs) = ground (arith, length-swap cs)

  pub length-upsert : (cs : List Cell) → length (upsert k new cs) ≤ suc (length cs)
  unfolding upsert
  length-upsert cs = elim (Option-cases (find k cs)) [
    | inl e ↦ rw (e, upsert_at) (length-insert cs)
    | inr (q, e) ↦ rw (e, upsert_at) (length-swap cs)
  ]

  has-upsert :
      (a : ℕ) (cs : List Cell) → a ≢ new → has a cs ≡ false → has a (upsert k new cs) ≡ false
  unfolding upsert
  has-upsert a cs ne out = elim (Option-cases (find k cs)) [
    | inl e ↦ rw (e, upsert_at) (has-insert k a new cs ne out)
    | inr (q, e) ↦ rw (e, upsert_at) (has-swap k a new cs ne out)
  ]

  pub has-upsert_cases :
      (a : ℕ) (cs : List Cell) → has a (upsert k new cs) ≡ true → (a ≡ new) ⊎ (has a cs ≡ true)
  has-upsert_cases a cs e = ground (arith, has-upsert a cs)
