-- ===== src/Slot/Count.antt =====
-- How many of the first `n` threads stand at a place.
use scot.Base.{
  ℕ, zero, suc, ◌+◌, ◌≡◌, ◌≤◌, ◌<◌, ◌==◌, if◌then◌else◌, refl, Bool-cases, inl, inr, ne_of, ==_iff,
  arith,
}
use scot.Slot.{Pc, idle, waiting, working, counted, marked, resetting, clearing, update}

module _ (weight : Pc → ℕ) where
  pub count : ℕ → (ℕ → Pc) → ℕ
  count zero pc = 0
  count (suc n) pc = weight (pc n) + count n pc

  count-update_out :
      (n : ℕ) (pc : ℕ → Pc) (i : ℕ) (p : Pc) → n ≤ i → count n (update pc i p) ≡ count n pc
  unfolding count
  count-update_out zero pc i p h = refl
  count-update_out (suc n) pc i p h = ground (arith, count-update_out n pc i p)

  -- One thread moves: its old place loses it and its new place gains it.
  pub count-update :
      (n : ℕ) (pc : ℕ → Pc) (i : ℕ) (p : Pc)
      → i < n
      → count n (update pc i p) + weight (pc i) ≡ count n pc + weight p
  unfolding count
  count-update zero pc i p h = absurd (omega arith)
  count-update (suc n) pc i p h = elim (Bool-cases (i == n)) [
    | inl same ↦ let e = (==_iff i n).0 same in ground (arith, count-update_out n pc i p)
    | inr differ ↦ let ne = ne_of i n differ in ground (arith, count-update n pc i p)
  ]

  pub weight-le-count : (n : ℕ) (pc : ℕ → Pc) (i : ℕ) → i < n → weight (pc i) ≤ count n pc
  unfolding count
  weight-le-count zero pc i h = absurd (omega arith)
  weight-le-count (suc n) pc i h = elim (Bool-cases (i == n)) [
    | inl same ↦ let e = (==_iff i n).0 same in rw e (omega arith)
    | inr differ ↦ let ne = ne_of i n differ in omega (arith, weight-le-count n pc i (omega arith))
  ]

  pub count-le : ((p : Pc) → weight p ≤ 1) → (n : ℕ) (pc : ℕ → Pc) → count n pc ≤ n
  unfolding count
  count-le small zero pc = omega arith
  count-le small (suc n) pc = omega (arith, small (pc n), count-le small n pc)

  -- A place where no thread starts.
  pub count-start : weight idle ≡ 0 → (n : ℕ) → count n (λ i. idle) ≡ 0
  unfolding count
  count-start e zero = refl
  count-start e (suc n) = omega (arith, count-start e n)

abbrev pub is_waiting : Pc → ℕ
is_waiting waiting = 1
is_waiting _ = 0

abbrev pub is_working : Pc → ℕ
is_working (working i) = 1
is_working _ = 0

-- A thread that has counted the last slot, and has not seen all others counted.
abbrev pub is_marked : Pc → ℕ
is_marked marked = 1
is_marked (counted i) = if i == 511 then 1 else 0
is_marked _ = 0

abbrev pub is_resetting : Pc → ℕ
is_resetting resetting = 1
is_resetting _ = 0

abbrev pub is_clearing : Pc → ℕ
is_clearing clearing = 1
is_clearing _ = 0

-- A thread that works on the last slot.
abbrev pub holds_last : Pc → ℕ
holds_last (working i) = if i == 511 then 1 else 0
holds_last _ = 0

-- The slot a thread works on, counted from 1; 0 if it works on none.
abbrev pub slot_of : Pc → ℕ
slot_of (working i) = suc i
slot_of _ = 0

pub slot_of-idle : (p : Pc) → is_working p ≡ 0 → slot_of p ≡ 0
slot_of-idle idle e = refl
slot_of-idle waiting e = refl
slot_of-idle (working i) e = absurd (omega arith)
slot_of-idle (counted i) e = refl
slot_of-idle marked e = refl
slot_of-idle resetting e = refl
slot_of-idle clearing e = refl
