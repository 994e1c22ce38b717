-- ===== src/Lfmap/Chain.antt =====
-- The cells that the references lead through from a list's head back to it, and the pure functions
-- on such cells that say what a search comes to.
use scot.Base.{
  ℕ, ◌+◌, ◌%◌, ◌≡◌, ◌≢◌, ◌≤◌, ◌<◌, arith, Bool, true, false, not, ◌&&◌, ◌||◌, Option, none, some,
  List, [], ◌∷◌, ◌==◌, ltb, if◌then◌else◌,
}
use scot.Entry.{Heap}

-- Address, hash value, and whether the entry is marked as deleted.
abbrev pub Cell : Type 0
Cell = ℕ × ℕ × Bool

abbrev pub has : ℕ → List Cell → Bool
has a [] = false
has a ((b, _, _) ∷ cs) = (a == b) || has a cs

-- The address of the first cell, or of the head where there is none.
abbrev pub start : ℕ → List Cell → ℕ
start stop [] = stop
start stop ((a, _, _) ∷ cs) = a

abbrev pub mark_of : Bool → ℕ
mark_of true = 1
mark_of false = 0

-- Each entry leads to the next, the last one to `stop`, and none occurs twice.
abbrev pub Chain : Heap → ℕ → List Cell → Type 0
Chain h stop [] = Unit {0}
Chain h stop ((a, k, dead) ∷ cs) =
    (a % 4 ≡ 0)
    × (a ≢ stop)
    × ((h a).hashv ≡ k)
    × ((h a).next ≡ start stop cs + mark_of dead)
    × (has a cs ≡ false)
    × Chain h stop cs

-- Hash values do not fall, and rise behind an entry that is not deleted; `low` bounds the first.
abbrev pub IsSorted : ℕ → List Cell → Type 0
IsSorted low [] = Unit {0}
IsSorted low ((a, k, true) ∷ cs) = (low ≤ k) × IsSorted k cs
IsSorted low ((a, k, false) ∷ cs) = (low ≤ k) × IsSorted (k + 1) cs

-- The first entry with hash value `k` that is not deleted.
unfoldable pub find : ℕ → List Cell → Option ℕ
find k [] = none
find k ((a, j, dead) ∷ cs) =
    if ltb k j then none else if not dead && (j == k) then some a else find k cs

-- The last entry that is not deleted and has no greater hash value; `p` where there is none.
unfoldable pub last : ℕ → ℕ → List Cell → ℕ
last k p [] = p
last k p ((a, j, dead) ∷ cs) = if ltb k j then p else last k (if dead then p else a) cs

-- The cells from the first one with a greater hash value on.
unfoldable pub rest : ℕ → List Cell → List Cell
rest k [] = []
rest k ((a, j, dead) ∷ cs) = if ltb k j then (a, j, dead) ∷ cs else rest k cs

-- A deleted cell stays if one that is not deleted follows.
unfoldable pub keep_dead : Cell → List Cell → List Cell
keep_dead c [] = []
keep_dead c (d ∷ ds) = c ∷ d ∷ ds

-- The cells up to `last`: what lies between that and `rest` is deleted.
unfoldable pub kept : ℕ → List Cell → List Cell
kept k [] = []
kept k ((a, j, true) ∷ cs) = if ltb k j then [] else keep_dead (a, j, true) (kept k cs)
kept k ((a, j, false) ∷ cs) = if ltb k j then [] else (a, j, false) ∷ kept k cs

-- The clauses of `find`, one case each.
module _ (k : ℕ) where
  pub find-nil : (q : ℕ) → find k [] ≢ some q
  unfolding find
  find-nil q e = cc

  module _ (a j : ℕ) where
    pub find-within :
        (dead : Bool) (cs : List Cell) (q : ℕ)
        → find k ((a, j, dead) ∷ cs) ≡ some q
        → ltb k j ≡ false
    unfolding find
    find-within dead cs q e = ground arith

    module _ (cs : List Cell) where
      pub find-dead : ltb k j ≡ false → find k ((a, j, true) ∷ cs) ≡ find k cs
      unfolding find
      find-dead e = ground arith

      pub find-less : j < k → find k ((a, j, false) ∷ cs) ≡ find k cs
      unfolding find
      find-less e = ground arith

      pub find-eq : (q : ℕ) → find k ((a, j, false) ∷ cs) ≡ some q → (j == k) ≡ true → a ≡ q
      unfolding find
      find-eq q e same = ground arith

      pub find-none_lt : find k ((a, j, false) ∷ cs) ≡ none → ltb k j ≡ false → j < k
      unfolding find
      find-none_lt e within = ground arith

      pub find-some_lt : (q : ℕ) → find k ((a, j, false) ∷ cs) ≡ some q → (j == k) ≡ false → j < k
      unfolding find
      find-some_lt q e differ = ground arith
