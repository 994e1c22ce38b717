-- ===== src/Lfmap/Threads/Finite.antt =====
-- A walk along the references comes back to the head, whatever the calls of `__ht_try_insert` do.
use scot.Base.{
  ℕ, zero, suc, ◌+◌, ◌*◌, ◌≡◌, ◌≢◌, ◌≤◌, ◌<◌, ◌⊎◌, inl, inr, refl, sym, ◌∙◌, subst, ap, arith, List,
  [], ◌∷◌, ◌==◌, Bool-cases, ==_iff, ne_of,
}
use scot.Mark.Written.{base, unmarked-base}
use scot.Lfmap.Threads.{Calls, Links, done, move, State, step, run, fresh, starting, IsApart}
use scot.Lfmap.Threads.Ordered.{IsOrdered}
use scot.Lfmap.Threads.Moves.{move-Result}
use scot.Lfmap.Threads.Invariant.{
  IsNode, IsSound, IsNode-from, step-done, done-cases, sound-IsList, step-IsSound, run-IsSound,
  fresh-IsSound,
}
use scot.Lfmap.Threads.Unique.{entry_at, IsBefore, entry_at-inside}
use scot.Lfmap.Threads.Ranked.{IsRanked, move-IsOldOr, added-live, extend-IsRanked}

abbrev pub HasRanks : Calls → State → Type 0
HasRanks k s = IsRanked k (IsNode k s.pc) s.next

module _ (k : Calls) (apart : IsApart k) where
  step-HasRanks : (i : ℕ) (s : State) → IsSound k s → HasRanks k s → HasRanks k (step k i s)
  unfolding step
  step-HasRanks i s sound ranked = elim (done-cases (s.pc i)) [
    | inl e ↦ subst (HasRanks k) (sym (step-done k i s e)) ranked
    | inr ne ↦
        let P = IsNode k s.pc in
        let new = k.entry i in
        let list = sound-IsList k apart s i sound ne in
        let p' = (move k new (s.pc i) s.next).0 in
        let n = (move k new (s.pc i) s.next).1 in
        let res = move-Result k P s.next new list (s.pc i) ne (sound.local i) in
        let after = (step-IsSound k apart i s sound).0.ordered in
        extend-IsRanked k P s.next new list ranked (IsNode k (step k i s).pc) n
          (λ a h. elim (IsNode-from k apart s.pc i ne p' a h) [ inl q ↦ inl q | inr q ↦ inr q.0 ])
          (λ a h level. move-IsOldOr k P s.next new list (s.pc i) a h (sound.local i) level)
          (λ h level. elim (IsNode-from k apart s.pc i ne p' new h) [
            | inl q ↦ list.new_outside q
            | inr q ↦
                let live = added-live k P s.next new list p' n res q.1 in
                let lt = (after.order new h level.0 level.1).1 live in
                let eq = level.2 in absurd (omega arith)
          ])
  ]

  pub run-HasRanks :
      (schedule : List ℕ) (s : State) → IsSound k s → HasRanks k s → HasRanks k (run k schedule s)
  unfolding run
  run-HasRanks [] s sound ranked = ranked
  run-HasRanks (i ∷ schedule) s sound ranked =
      run-HasRanks schedule (step k i s) (step-IsSound k apart i s sound).0
        (step-HasRanks i s sound ranked)

  pub fresh-HasRanks : HasRanks k (fresh k)
  fresh-HasRanks = record {
    rank = λ a. 0;
    top = k.hashv k.list;
    rank_le = λ a h. omega arith;
    hashv_le = λ a h. elim h [ inl e ↦ rw e (omega arith) | inr (_, _, d) ↦ absurd (not_done d) ];
    rises =
        λ a h level. elim h [ inl e ↦ absurd (level.0 e) | inr (_, _, d) ↦ absurd (not_done d) ];
  }
    where
      not_done : starting ≢ done
      not_done e = cc

-- What grows along a walk until it comes back to the head, and that it does.
module _ (k : Calls) (P : ℕ → Type 0) (m : Links) (ord : IsOrdered k P m) (ranked : IsRanked k P m)
    (head : P k.list) where
  abbrev pub measure : ℕ → ℕ
  measure a = k.hashv a * (ranked.top + 1) + ranked.rank a

  pub measure_le : (a : ℕ) → P a → measure a ≤ ranked.top * (ranked.top + 1) + ranked.top
  measure_le a h = let r = ranked.rank_le a h in let v = ranked.hashv_le a h in grind arith

  pub measure_lt :
      (a : ℕ) → P a → a ≢ k.list → base (m a) ≢ k.list → measure a < measure (base (m a))
  measure_lt a h p q = elim (Bool-cases (k.hashv a == k.hashv (base (m a)))) [
    | inl t ↦
        let e : k.hashv a ≡ k.hashv (base (m a)) = (==_iff _ _).0 t in
        let lt = ranked.rises a h (p, q, e) in rw e (omega arith)
    | inr f ↦
        let ne = ne_of _ _ f in
        let le = (ord.order a h p q).0 in let r = ranked.rank_le a h in grind arith
  ]

  entry_at-suc_lt :
      (n : ℕ) → IsBefore k m (suc n) → measure (entry_at k m n) < measure (entry_at k m (suc n))
  unfolding entry_at
  entry_at-suc_lt n before =
      let e = unmarked-base (m (entry_at k m n)) in
      let there = rw e at (before (suc n) (omega arith)) in
      rw e (
        measure_lt (entry_at k m n) (entry_at-inside k P m ord head n) (before n (omega arith))
          there)

  entry_at-measure_lt :
      (x y : ℕ) → IsBefore k m y → x < y → measure (entry_at k m x) < measure (entry_at k m y)
  entry_at-measure_lt x zero before lt = absurd (omega arith)
  entry_at-measure_lt x (suc y) before lt =
      let b = entry_at-suc_lt y before in
      elim (Bool-cases (x == y)) [
        | inl t ↦ let q : x ≡ y = (==_iff x y).0 t in rw q b
        | inr f ↦
            let ne = ne_of x y f in
            let a = entry_at-measure_lt x y (λ j h. before j (omega arith)) (omega arith) in
            omega arith
      ]

  measure_ge : (n : ℕ) → IsBefore k m n → n ≤ measure (entry_at k m n)
  measure_ge zero before = omega arith
  measure_ge (suc n) before =
      let ih = measure_ge n (λ j h. before j (omega arith)) in
      let lt = entry_at-suc_lt n before in omega arith

  -- The walk has not come back by position `n`, or some position is the first at which it has.
  abbrev Returns : ℕ → Type 0
  Returns n = (entry_at k m n ≡ k.list) × ((j : ℕ) → j < n → entry_at k m j ≢ k.list)

  Returns-cases : (n : ℕ) → ((j : ℕ) × Returns j) ⊎ IsBefore k m n
  Returns-cases zero = elim (Bool-cases (entry_at k m 0 == k.list)) [
    | inl t ↦ inl (0, ((==_iff _ _).0 t, λ j lt. absurd (omega arith)))
    | inr f ↦ inr (λ j le. let q : j ≡ 0 = omega arith in rw q (ne_of _ _ f))
  ]
  Returns-cases (suc n) = elim (Returns-cases n) [
    | inl r ↦ inl r
    | inr before ↦ elim (Bool-cases (entry_at k m (suc n) == k.list)) [
      | inl t ↦ inl (suc n, ((==_iff _ _).0 t, λ j lt. before j (omega arith)))
      | inr f ↦ inr (λ j le. elim (Bool-cases (j == suc n)) [
        | inl e ↦ let q : j ≡ suc n = (==_iff _ _).0 e in rw q (ne_of _ _ f)
        | inr g ↦ let ne = ne_of _ _ g in before j (omega arith)
      ])
    ]
  ]

  pub walk-returns :
      (n : ℕ) × (entry_at k m n ≡ k.list)
      × ((x y : ℕ) → x < y → y ≤ n → entry_at k m x ≢ entry_at k m y)
  walk-returns =
      let far = suc (ranked.top * (ranked.top + 1) + ranked.top) in
      elim (Returns-cases far) [
        | inr before ↦
            let ge = measure_ge far before in
            let le = measure_le (entry_at k m far) (entry_at-inside k P m ord head far) in
            absurd (omega arith)
        | inl (n, (e, first)) ↦ (
          n,
          e,
          λ x y lt le eq. elim (Bool-cases (y == n)) [
            | inl t ↦
                let q : y ≡ n = (==_iff _ _).0 t in
                first x (omega arith) (eq ∙ ap (entry_at k m) q ∙ e)
            | inr f ↦
                let ne = ne_of _ _ f in
                let less = entry_at-measure_lt x y (λ j h. first j (omega arith)) lt in
                let same = ap measure eq in absurd (omega arith)
          ],
        )
      ]

-- After any accesses of any calls, in any order, a walk from the head comes back to it, and meets no
-- entry twice before.
pub run-returns :
    (k : Calls) (schedule : List ℕ)
    → IsApart k
    → (n : ℕ) × (entry_at k (run k schedule (fresh k)).next n ≡ k.list)
      × ((x y : ℕ)
          → x < y
          → y ≤ n
          → entry_at k (run k schedule (fresh k)).next x
            ≢ entry_at k (run k schedule (fresh k)).next y)
run-returns k schedule apart =
    let s = run k schedule (fresh k) in
    let start = fresh-IsSound k apart in
    walk-returns k (IsNode k s.pc) s.next (run-IsSound k apart schedule (fresh k) start).0.ordered
      (run-HasRanks k apart schedule (fresh k) start (fresh-HasRanks k apart)) (inl refl)
