-- ===== src/Lfmap/Threads/Unique.antt =====
-- What any interleaving of calls of `__ht_try_insert` leaves of the list: order, and one live entry for
-- each hash value.
use scot.Base.{
  ℕ, zero, suc, ◌≡◌, ◌≢◌, ◌≤◌, ◌<◌, inl, inr, refl, true, false, arith, List, Bool-cases, ◌==◌,
  ==_iff, ne_of,
}
use scot.Mark.{is_marked_as_deleted, get_unmarked_reference}
use scot.Mark.Written.{unmarked-base}
use scot.Lfmap.Threads.{Calls, Links, done, run, fresh, IsApart}
use scot.Lfmap.Threads.Ordered.{IsOrdered}
use scot.Lfmap.Threads.Invariant.{IsNode, run-IsSound, fresh-IsSound}

-- The entry at a position of the walk along the references, from the head.
unfoldable pub entry_at : Calls → Links → ℕ → ℕ
entry_at k m zero = get_unmarked_reference (m k.list)
entry_at k m (suc n) = get_unmarked_reference (m (entry_at k m n))

-- The walk has not come back to the head by position `n`.
abbrev pub IsBefore : Calls → Links → ℕ → Type 0
IsBefore k m n = (j : ℕ) → j ≤ n → entry_at k m j ≢ k.list

abbrev pub IsLive : Links → ℕ → Type 0
IsLive m a = is_marked_as_deleted (m a) ≡ false

module _ (k : Calls) (P : ℕ → Type 0) (m : Links) (ord : IsOrdered k P m) (head : P k.list) where
  pub entry_at-inside : (n : ℕ) → P (entry_at k m n)
  unfolding entry_at
  entry_at-inside zero = rw (unmarked-base (m k.list)) (ord.closed k.list head)
  entry_at-inside (suc n) =
      rw (unmarked-base (m (entry_at k m n))) (ord.closed _ (entry_at-inside n))

  entry_at-suc :
      (n : ℕ)
      → IsBefore k m (suc n)
      → (k.hashv (entry_at k m n) ≤ k.hashv (entry_at k m (suc n)))
        × (IsLive m (entry_at k m n) → k.hashv (entry_at k m n) < k.hashv (entry_at k m (suc n)))
  unfolding entry_at
  entry_at-suc n before =
      let e = unmarked-base (m (entry_at k m n)) in
      let there = rw e at (before (suc n) (omega arith)) in
      rw e (ord.order (entry_at k m n) (entry_at-inside n) (before n (omega arith)) there)

  -- Along the walk hash values do not fall, and grow after a live entry.
  pub entry_at-lt :
      (x y : ℕ)
      → IsBefore k m y
      → x < y
      → (k.hashv (entry_at k m x) ≤ k.hashv (entry_at k m y))
        × (IsLive m (entry_at k m x) → k.hashv (entry_at k m x) < k.hashv (entry_at k m y))
  entry_at-lt x zero before lt = absurd (omega arith)
  entry_at-lt x (suc y) before lt =
      let b = entry_at-suc y before in
      elim (Bool-cases (x == y)) [
        | inl t ↦ let q : x ≡ y = (==_iff x y).0 t in rw q b
        | inr f ↦
            let ne = ne_of x y f in
            let a = entry_at-lt x y (λ j h. before j (omega arith)) (omega arith) in
            (omega arith, λ live. let c = a.1 live in omega arith)
      ]

-- After any accesses of any calls, in any order, until a walk from the head comes back to it: hash
-- values do not fall along the walk, and after a live entry it meets larger ones only, so that it
-- meets at most one live entry of a hash value.
pub run-IsUnique :
    (k : Calls) (schedule : List ℕ) (x y : ℕ)
    → IsApart k
    → IsBefore k (run k schedule (fresh k)).next y
    → x < y
    → (k.hashv (entry_at k (run k schedule (fresh k)).next x)
        ≤ k.hashv (entry_at k (run k schedule (fresh k)).next y))
      × (IsLive (run k schedule (fresh k)).next (entry_at k (run k schedule (fresh k)).next x)
          → k.hashv (entry_at k (run k schedule (fresh k)).next x)
            < k.hashv (entry_at k (run k schedule (fresh k)).next y))
run-IsUnique k schedule x y apart before lt =
    let s = run k schedule (fresh k) in
    let sound = (run-IsSound k apart schedule (fresh k) (fresh-IsSound k apart)).0 in
    entry_at-lt k (IsNode k s.pc) s.next sound.ordered (inl refl) x y before lt

-- Once a call has returned its entry stays an entry of the list's memory, and once that is marked as
-- deleted no access of any call takes the mark away.
pub run-deleted :
    (k : Calls) (first second : List ℕ) (i : ℕ)
    → IsApart k
    → (run k first (fresh k)).pc i ≡ done
    → is_marked_as_deleted ((run k first (fresh k)).next (k.entry i)) ≡ true
    → is_marked_as_deleted ((run k second (run k first (fresh k))).next (k.entry i)) ≡ true
run-deleted k first second i apart d h =
    let sound = (run-IsSound k apart first (fresh k) (fresh-IsSound k apart)).0 in
    (run-IsSound k apart second (run k first (fresh k)) sound).1.deleted (k.entry i)
      (inr (i, refl, d)) h
