-- ===== src/Replicator/Alone.antt =====
-- A whole call of `__ht_try_insert` that no other call interrupts.
use scot.Base.{
  ℕ, zero, suc, ◌≡◌, refl, sym, ◌∙◌, inl, inr, true, false, Bool, Option, none, some, List, [], ◌∷◌,
  All, length, if◌then◌else◌, ◌>>=◌, Bool-cases, subst, arith, ap₂,
}
use scot.Entry.{Heap}
use scot.Lfmap.{SearchResult, get_bucket, elem_search, elem_insert, elem_switch}
use scot.Lfmap.Chain.{Cell}
use scot.Lfmap.Upsert.{upsert}
use scot.Lfmap.Bucket.{IsBucket, IsFresh}
use scot.Lfmap.Find.{hash_table}
use scot.Lfmap.Threads.{Calls, Links, Stage, starting, done, move, State, step, run}
use scot.Lfmap.Threads.Invariant.{update_self}
use scot.Lfmap.Threads.Alone.{
  Alone, stays, moves, Alone-trans, links, HasHashes, Returns, Returns-after, elem_insert-Returns,
  elem_switch-Returns,
}
use scot.Lfmap.Threads.AloneSearch.{Finds, list_search-Finds}
use scot.Replicator.{try_round, ht_try_insert}
use scot.Replicator.TryInsert.{ht_try_insert-upserts}

abbrev Done : Calls → (new : ℕ) → Stage → Links → Option Heap → Type 0
Done k new p m none = Unit
Done k new p m (some g) = Alone k new p m done (links g)

Done-after :
    (k : Calls) (new : ℕ) (p q : Stage) (m n : Links) (o : Option Heap)
    → Alone k new p m q n
    → Done k new q n o
    → Done k new p m o
Done-after k new p q m n none a r = tt
Done-after k new p q m n (some g) a r = Alone-trans a r

module _ (nelem bucket : ℕ) (k : Calls) (new : ℕ)
    (here : k.list ≡ get_bucket (hash_table nelem bucket) (k.hashv new)) where
  found-Returns :
      (fuel : ℕ) (p : Stage) (m : Links) (o : Option SearchResult)
      → Finds k new p m o
      → Returns k new p m (
          o >>= λ s.
          if s.found
          then elem_switch fuel s.heap new s.left s.right
          else elem_insert fuel s.heap new s.left s.right)
  found-Returns fuel p m none f = tt
  found-Returns fuel p m (some r) (a, hashes) = elim (Bool-cases r.found) [
    | inl e ↦ rw e (
        Returns-after k new _ _ _ _ _ (rw e at a)
          (elem_switch-Returns k new fuel r.heap r.left r.right hashes))
    | inr e ↦ rw e (
        Returns-after k new _ _ _ _ _ (rw e at a)
          (elem_insert-Returns k new fuel r.heap r.left r.right hashes))
  ]

  try_round-Returns :
      (fuel : ℕ) (h : Heap)
      → HasHashes k h
      → Returns k new starting (links h) (try_round (hash_table nelem bucket) fuel h new)
  unfolding try_round elem_search
  try_round-Returns fuel h hashes =
      rw (hashes new, sym here)
        (found-Returns fuel starting (links h) _ (list_search-Finds k new fuel h hashes))

  again-Done :
      (rounds fuel : ℕ) (m : Links) (o : Option (Bool × Heap))
      → ((g : Heap)
          → HasHashes k g
          → Done k new starting
              (links g)
              (ht_try_insert (hash_table nelem bucket) rounds fuel g new))
      → Returns k new starting m o
      → Done k new starting m (
          o >>= λ r.
          (if r.0 then some r.1 else ht_try_insert (hash_table nelem bucket) rounds fuel r.1 new))
  again-Done rounds fuel m none next r = tt
  again-Done rounds fuel m (some (true, g)) next (a, hashes) = a
  again-Done rounds fuel m (some (false, g)) next (a, hashes) =
      Done-after k new _ _ _ _ _ a (next g hashes)

  ht_try_insert-Done :
      (rounds fuel : ℕ) (h : Heap)
      → HasHashes k h
      → Done k new starting (links h) (ht_try_insert (hash_table nelem bucket) rounds fuel h new)
  unfolding ht_try_insert
  ht_try_insert-Done zero fuel h hashes = tt
  ht_try_insert-Done (suc rounds) fuel h hashes =
      again-Done rounds fuel (links h) (try_round (hash_table nelem bucket) fuel h new)
        (ht_try_insert-Done rounds fuel) (try_round-Returns fuel h hashes)

-- Accesses of one call as a schedule of that call only.
Alone-run :
    (k : Calls) (i : ℕ) {p q : Stage} {m n : Links} (s : State)
    → Alone k (k.entry i) p m q n
    → s.pc i ≡ p
    → s.next ≡ m
    → (schedule : List ℕ) × All (λ j. j ≡ i) schedule
      × ((run k schedule s).pc i ≡ q)
      × ((run k schedule s).next ≡ n)
unfolding run step
Alone-run k i s stays e f = ([], tt, e, f)
Alone-run k i s (moves {p} {q} {m} {n} a) e f =
    let place =
      update_self s.pc i (move k (k.entry i) (s.pc i) s.next).0
      ∙ ap₂ (λ (x : Stage) (y : Links). (move k (k.entry i) x y).0) e f in
    let memory = ap₂ (λ (x : Stage) (y : Links). (move k (k.entry i) x y).1) e f in
    let r = Alone-run k i (step k i s) a place memory in (i ∷ r.0, (refl, r.1), r.2, r.3)

-- A call that no other interrupts, on a list that is a sorted chain, with an unused aligned entry: after
-- some accesses it returns, and the memory is the one that `ht_try_insert` leaves in its first round,
-- with fuel for one round more than the list has cells, where the list holds what inserting into a
-- sorted map gives.
pub insert-alone :
    (nelem bucket : ℕ) (k : Calls) (i : ℕ) (s : State) (h : Heap) (cs : List Cell)
    → k.list ≡ get_bucket (hash_table nelem bucket) (k.hashv (k.entry i))
    → HasHashes k h
    → s.pc i ≡ starting
    → s.next ≡ links h
    → IsBucket h k.list cs
    → IsFresh h k.list (k.hashv (k.entry i)) (k.entry i) cs
    → (schedule : List ℕ) × All (λ j. j ≡ i) schedule
      × (g : Heap) × (ht_try_insert (hash_table nelem bucket) 1 (suc (length cs)) h (k.entry i)
          ≡ some g)
      × ((run k schedule s).pc i ≡ done)
      × ((run k schedule s).next ≡ links g)
      × IsBucket g k.list (upsert (k.hashv (k.entry i)) (k.entry i) cs)
insert-alone nelem bucket k i s h cs here hashes e f b fresh =
    let hash = fresh.hash in
    let b' : IsBucket h (get_bucket (hash_table nelem bucket) (h (k.entry i)).hashv) cs =
      rw (hash, sym here) b in
    let f' : IsFresh h (get_bucket (hash_table nelem bucket) (h (k.entry i)).hashv)
        (h (k.entry i)).hashv (k.entry i) cs =
      rw (hash, sym here) fresh in
    let (g, returns, bucket_after, _, _, _) =
      ht_try_insert-upserts nelem bucket (length cs) h (k.entry i) cs b' f' (omega arith) 0 in
    let alone =
      subst (Done k (k.entry i) starting (links h)) returns
        (ht_try_insert-Done nelem bucket k (k.entry i) here 1 (suc (length cs)) h hashes) in
    let r = Alone-run k i s alone e f in
    (r.0, r.1, g, returns, r.2, r.3, rw (hash, sym here) at bucket_after)
