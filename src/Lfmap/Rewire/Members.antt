-- ===== src/Lfmap/Rewire/Members.antt =====
-- Which addresses occur among the cells after an insertion or a replacement.
use scot.Base.{
  ℕ, ◌≡◌, ◌≢◌, ◌⊎◌, refl, inl, inr, true, false, some, List, [], ◌∷◌, ◌++◌, arith, ltb, Bool-cases,
  List-cases,
}
use scot.Lfmap.Chain.{Cell, has, start, find, last, rest, kept, keep_dead}
use scot.Lfmap.Upsert.{insert, swap}

pub has_ne : (a b : ℕ) (cs : List Cell) → has a cs ≡ false → has b cs ≡ true → b ≢ a
has_ne a b cs out inside e = cc

module _ (k : ℕ) where
  pub has-rest : (a : ℕ) (cs : List Cell) → has a cs ≡ false → has a (rest k cs) ≡ false
  unfolding rest
  has-rest a [] e = refl
  has-rest a ((b, j, dead) ∷ cs) e = ground (arith, has-rest a cs)

  pub has-keep_dead :
      (a b j : ℕ) (ds es : List Cell)
      → a ≢ b
      → has a (ds ++ es) ≡ false
      → has a (keep_dead (b, j, true) ds ++ es) ≡ false
  unfolding keep_dead
  has-keep_dead a b j [] es ne e = e
  has-keep_dead a b j (d ∷ ds) es ne e = ground arith

  pub has-insert :
      (a new : ℕ) (cs : List Cell) → a ≢ new → has a cs ≡ false → has a (insert k new cs) ≡ false
  unfolding kept rest
  has-insert a new [] ne e = ground arith
  has-insert a new ((b, j, true) ∷ cs) ne e = elim (Bool-cases (ltb k j)) [
    | inl beyond ↦ rw beyond (ground arith)
    | inr within ↦ rw within (
        has-keep_dead a b j (kept k cs) ((new, k, false) ∷ rest k cs) (ground arith)
          (has-insert a new cs ne (ground arith)))
  ]
  has-insert a new ((b, j, false) ∷ cs) ne e = elim (Bool-cases (ltb k j)) [
    | inl beyond ↦ rw beyond (ground arith)
    | inr within ↦ rw within (ground (arith, has-insert a new cs ne))
  ]

  pub has-swap :
      (a new : ℕ) (cs : List Cell) → a ≢ new → has a cs ≡ false → has a (swap k new cs) ≡ false
  unfolding swap
  has-swap a new [] ne e = refl
  has-swap a new ((b, j, true) ∷ cs) ne e = ground (arith, has-swap a new cs ne)
  has-swap a new ((b, j, false) ∷ cs) ne e = ground (arith, has-swap a new cs ne)

  -- Where nothing is kept the search ends behind the entry that it began behind.
  pub last-eq_of_nil : (p : ℕ) (cs : List Cell) → kept k cs ≡ [] → last k p cs ≡ p
  unfolding kept last keep_dead
  last-eq_of_nil p [] e = refl
  last-eq_of_nil p ((a, j, true) ∷ cs) e = elim (List-cases (kept k cs)) [
    | inl nil ↦ ground (arith, last-eq_of_nil p cs nil)
    | inr (d, ds, more) ↦ ground arith
  ]
  last-eq_of_nil p ((a, j, false) ∷ cs) e = ground arith

  pub has-last_of_live :
      (p : ℕ) (cs : List Cell) → (last k p cs ≡ p) ⊎ (has (last k p cs) cs ≡ true)
  unfolding last
  has-last_of_live p [] = inl refl
  has-last_of_live p ((a, j, true) ∷ cs) = ground (arith, has-last_of_live p cs)
  has-last_of_live p ((a, j, false) ∷ cs) = ground (arith, has-last_of_live a cs)

  -- Otherwise it ends behind one of the cells, and the first one is kept.
  pub has-last :
      (p : ℕ) (cs : List Cell) (d : Cell) (ds : List Cell)
      → kept k cs ≡ d ∷ ds
      → has (last k p cs) cs ≡ true
  unfolding kept last keep_dead
  has-last p [] d ds e = cc
  has-last p ((a, j, true) ∷ cs) d ds e = elim (List-cases (kept k cs)) [
    | inl nil ↦ ground arith
    | inr (c, es, more) ↦ ground (arith, has-last p cs c es more)
  ]
  has-last p ((a, j, false) ∷ cs) d ds e = ground (arith, has-last_of_live a cs)

  pub start-kept :
      (stop : ℕ) (cs : List Cell) (d : Cell) (ds : List Cell)
      → kept k cs ≡ d ∷ ds
      → start stop cs ≡ d.0
  unfolding kept keep_dead
  start-kept stop [] d ds e = cc
  start-kept stop ((a, j, true) ∷ cs) d ds e = elim (List-cases (kept k cs)) [
    | inl nil ↦ ground arith
    | inr (c, es, more) ↦ ground arith
  ]
  start-kept stop ((a, j, false) ∷ cs) d ds e = ground arith

pub has-find : (k q : ℕ) (cs : List Cell) → find k cs ≡ some q → has q cs ≡ true
unfolding find
has-find k q [] e = cc
has-find k q ((a, j, dead) ∷ cs) e = ground (arith, has-find k q cs)

pub start-swap : (stop k new : ℕ) (cs : List Cell) → start stop (swap k new cs) ≡ start stop cs
unfolding swap
start-swap stop k new [] = refl
start-swap stop k new ((a, j, true) ∷ cs) = refl
start-swap stop k new ((a, j, false) ∷ cs) = ground arith

-- The chain after the insertion of `new`.
