-- ===== src/Lfmap/Threads/Progress.antt =====
-- No schedule of calls of `__ht_try_insert` leads to a place from which a call cannot return: it does as
-- soon as the others leave it alone.
use scot.Base.{ℕ, suc, ◌≡◌, inl, inr, refl, List, replicate}
use scot.Lfmap.Threads.{Calls, Links, Stage, done, State, step, run, fresh, IsApart}
use scot.Lfmap.Threads.Invariant.{
  IsNode, IsSound, update_self, done-cases, sound-IsList, run-IsSound, fresh-IsSound,
}
use scot.Lfmap.Threads.Alone.{Alone, stays, moves}
use scot.Lfmap.Threads.Single.{IsSingle, run-IsSingle, fresh-IsSingle}
use scot.Lfmap.Threads.Finite.{HasRanks, run-HasRanks, fresh-HasRanks}
use scot.Lfmap.Threads.Finishes.{IsReady}
use scot.Lfmap.Threads.Returns.{any-Finishes}

-- The accesses of one call as steps of the state.
Alone-run :
    {k : Calls} {i : ℕ} {p q : Stage} {m n : Links}
    → Alone k (k.entry i) p m q n
    → (s : State) → s.pc i ≡ p
    → s.next ≡ m
    → (t : ℕ) × ((run k (replicate t i) s).pc i ≡ q)
unfolding run step
Alone-run stays s e f = (0, e)
Alone-run {k} {i} {p} {q} {m} {n} (moves a) s e f =
    let w =
      Alone-run {k = k} {i = i} a (step k i s) (rw (← e, ← f) (update_self s.pc i _))
        (rw (← e, ← f) refl) in
    (suc w.0, w.1)

sound-returns :
    (k : Calls) (apart : IsApart k) (s : State) (i : ℕ)
    → IsSound k s
    → HasRanks k s
    → IsSingle (IsNode k s.pc) s.next
    → (t : ℕ) × ((run k (replicate t i) s).pc i ≡ done)
unfolding run
sound-returns k apart s i sound ranked single = elim (done-cases (s.pc i)) [
  | inl e ↦ (0, e)
  | inr ne ↦
      let ready : IsReady k (IsNode k s.pc) (k.entry i) s.next = record {
        list = sound-IsList k apart s i sound ne;
        ranked = ranked;
        single = single;
      } in
      let f = any-Finishes k (IsNode k s.pc) (k.entry i) s.next ready (s.pc i) (sound.local i) in
      Alone-run f.1 s refl refl
]

-- After any accesses of any calls, in any order, each call returns if it then makes enough accesses
-- with none of another call between them.
pub call-returns :
    (k : Calls) (schedule : List ℕ) (i : ℕ)
    → IsApart k
    → (t : ℕ) × ((run k (replicate t i) (run k schedule (fresh k))).pc i ≡ done)
call-returns k schedule i apart =
    let start = fresh-IsSound k apart in
    sound-returns k apart (run k schedule (fresh k)) i
      (run-IsSound k apart schedule (fresh k) start).0
      (run-HasRanks k apart schedule (fresh k) start (fresh-HasRanks k apart))
      (run-IsSingle k apart schedule (fresh k) start (fresh-IsSingle k apart))
