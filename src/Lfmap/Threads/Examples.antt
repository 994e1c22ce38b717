-- ===== src/Lfmap/Threads/Examples.antt =====
-- Runs of two and three calls of `__ht_try_insert` on one list.
use scot.Base.{
  ℕ, zero, suc, ◌+◌, ◌*◌, ◌≡◌, ◌≢◌, ◌≤◌, ◌<◌, inl, inr, refl, List, [], ◌∷◌, ◌==◌, if◌then◌else◌,
  arith, true, replicate,
}
use scot.Mark.{
  is_marked_as_deleted, is_same_baseref, get_unmarked_reference, get_marked_as_protected,
  get_marked_as_deleted,
}
use scot.Lfmap.Threads.{Calls, done, run, fresh, IsApart}
use scot.Lfmap.Threads.Unique.{entry_at, IsBefore, IsLive, run-IsUnique, run-deleted}
use scot.Lfmap.Threads.Lost.{IsRace, insert-lost}
use scot.Lfmap.Threads.Kept.{insert-kept}
use scot.Lfmap.Threads.Finite.{run-returns}
use scot.Lfmap.Threads.Progress.{call-returns}

abbrev hashes : ℕ → ℕ
hashes a = if a == 8 then 1 else if a == 12 then 3 else 2

-- The list at 4, and the entries 8, 12, 16 and so on.
abbrev calls : (ℕ → ℕ) → Calls
calls hashv = record { list = 4; hashv = hashv; entry = λ i. 8 + 4 * i }

calls-IsApart : (hashv : ℕ → ℕ) → IsApart (calls hashv)
calls-IsApart hashv = record {
  list_aligned = omega arith;
  entry_aligned = λ i. omega arith;
  entry_ne = λ i e. omega arith;
  entry_inj = λ i j e. omega arith;
}

abbrev different : Calls
different = calls hashes

abbrev same : Calls
same = calls (λ a. 1)

-- Call 0 by itself, then call 1.
abbrev two_inserts : List ℕ
two_inserts = 0 ∷ 0 ∷ 0 ∷ 0 ∷ 0 ∷ 1 ∷ 1 ∷ 1 ∷ 1 ∷ 1 ∷ 1 ∷ 1 ∷ []

two_inserts-IsBefore : IsBefore different (run different two_inserts (fresh different)).next 1
unfolding run entry_at is_same_baseref is_marked_as_deleted get_unmarked_reference
two_inserts-IsBefore zero h e = omega arith
two_inserts-IsBefore (suc zero) h e = omega arith
two_inserts-IsBefore (suc (suc j)) h e = omega arith

run-IsUnique_example :
    (hashes (entry_at different (run different two_inserts (fresh different)).next 0)
      ≤ hashes (entry_at different (run different two_inserts (fresh different)).next 1))
    × (IsLive
          (run different two_inserts (fresh different)).next
          (entry_at different (run different two_inserts (fresh different)).next 0)
        → hashes (entry_at different (run different two_inserts (fresh different)).next 0)
          < hashes (entry_at different (run different two_inserts (fresh different)).next 1))
run-IsUnique_example =
    run-IsUnique different two_inserts 0 1 (calls-IsApart hashes) two_inserts-IsBefore (omega arith)

-- Both calls come to their CASV; that of call 0 fails, and it begins again.
abbrev two_racing : List ℕ
two_racing = 0 ∷ 0 ∷ 0 ∷ 0 ∷ 1 ∷ 1 ∷ 1 ∷ 1 ∷ 1 ∷ 0 ∷ 0 ∷ 0 ∷ 0 ∷ 0 ∷ 0 ∷ []

insert-kept_example :
    (n : ℕ) × (entry_at different (run different two_racing (fresh different)).next n ≡ 8)
unfolding run is_same_baseref is_marked_as_deleted get_unmarked_reference get_marked_as_protected
insert-kept_example = insert-kept different two_racing 0 (calls-IsApart hashes) (omega arith) refl

-- Call 1 replaces the entry of call 0, and call 2 begins.
run-deleted_example :
    is_marked_as_deleted (
      (run same
          (2 ∷ 2 ∷ 2 ∷ [])
          (run same (0 ∷ 0 ∷ 0 ∷ 0 ∷ 0 ∷ 1 ∷ 1 ∷ 1 ∷ 1 ∷ 1 ∷ 1 ∷ []) (fresh same))).next
        8)
    ≡ true
unfolding run is_marked_as_deleted is_same_baseref get_marked_as_protected get_unmarked_reference
    get_marked_as_deleted
run-deleted_example =
    run-deleted same (0 ∷ 0 ∷ 0 ∷ 0 ∷ 0 ∷ 1 ∷ 1 ∷ 1 ∷ 1 ∷ 1 ∷ 1 ∷ []) (2 ∷ 2 ∷ 2 ∷ []) 0
      (calls-IsApart (λ a. 1)) refl refl

-- Call 0 returns, call 1 has read what follows its entry, and call 2 is about to add its own.
abbrev race_schedule : List ℕ
race_schedule = 0 ∷ 0 ∷ 0 ∷ 0 ∷ 0 ∷ 1 ∷ 1 ∷ 1 ∷ 2 ∷ 2 ∷ 2 ∷ 2 ∷ 2 ∷ 2 ∷ []

race : IsRace different (run different race_schedule (fresh different)) 1 2 8 4 4 16
unfolding run is_same_baseref is_marked_as_deleted get_unmarked_reference
race = record {
  apart = λ e. omega arith;
  reader = refl;
  seen_base = refl;
  adding = inl (refl, refl, refl);
  next_aligned = omega arith;
  entry_aligned = omega arith;
  entry_ne = λ e. omega arith;
  ends = inl refl;
}

insert-lost_example :
    ((run different (2 ∷ 1 ∷ 1 ∷ 1 ∷ []) (run different race_schedule (fresh different))).pc 2
      ≡ done)
    × ((n : ℕ)
        → entry_at different
            (run different
              (2 ∷ 1 ∷ 1 ∷ 1 ∷ [])
              (run different race_schedule (fresh different))).next
            n
          ≢ 16)
insert-lost_example = insert-lost different race_schedule 1 2 8 4 4 16 (calls-IsApart hashes) race

-- The same with a call 2 that replaces the entry of call 0.
abbrev replacing : Calls
replacing = calls (λ a. if a == 12 then 3 else 1)

abbrev replace_schedule : List ℕ
replace_schedule = 0 ∷ 0 ∷ 0 ∷ 0 ∷ 0 ∷ 1 ∷ 1 ∷ 1 ∷ 2 ∷ 2 ∷ 2 ∷ 2 ∷ 2 ∷ []

replace-IsRace : IsRace replacing (run replacing replace_schedule (fresh replacing)) 1 2 8 4 4 17
unfolding run is_same_baseref is_marked_as_deleted get_unmarked_reference get_marked_as_protected
    get_marked_as_deleted
replace-IsRace = record {
  apart = λ e. omega arith;
  reader = refl;
  seen_base = refl;
  adding = inr (refl, refl, refl);
  next_aligned = omega arith;
  entry_aligned = omega arith;
  entry_ne = λ e. omega arith;
  ends = inl refl;
}

run-returns_example :
    (n : ℕ) × (entry_at different (run different race_schedule (fresh different)).next n ≡ 4)
    × ((x y : ℕ)
        → x < y
        → y ≤ n
        → entry_at different (run different race_schedule (fresh different)).next x
          ≢ entry_at different (run different race_schedule (fresh different)).next y)
run-returns_example = run-returns different race_schedule (calls-IsApart hashes)

-- Call 1 has read what follows the entry behind which it will add its own, and call 2 is about to add
-- one there.
call-returns_example :
    (t : ℕ) × ((run different (replicate t 1) (run different race_schedule (fresh different))).pc 1
      ≡ done)
call-returns_example = call-returns different race_schedule 1 (calls-IsApart hashes)
