-- ===== src/Lfmap/Threads/Finishes.antt =====
-- A call of `__ht_try_insert` that has the list to itself: what it keeps, and how the loops of
-- `__elem_insert`, of `__elem_switch` and of the CASV of `__elemSearch` end.
use scot.Base.{
  ℕ, ◌%◌, ◌/◌, ◌≡◌, ◌≢◌, inl, inr, refl, ◌∙◌, true, false, not, arith, ◌==◌, Bool-cases,
}
use scot.Mark.{
  is_marked_as_protected, get_unmarked_reference, get_marked_as_protected, get_marked_as_deleted,
}
use scot.Lfmap.Threads.{
  Calls, Links, Stage, starting, inserting, insert_linked, switching, switch_linked, done, store,
  test_insert, test_switch, move,
}
use scot.Lfmap.Threads.Ordered.{cas-cases, store_ne}
use scot.Lfmap.Threads.Locals.{Local}
use scot.Lfmap.Threads.Written.{IsList}
use scot.Lfmap.Threads.Moves.{goes_on, publishes, move-Result}
use scot.Lfmap.Threads.Ranked.{IsRanked, move-IsOldOr, extend-IsRanked}
use scot.Lfmap.Threads.Single.{IsSingle, move-IsSingle}
use scot.Lfmap.Threads.Alone.{Alone, stays, moves}

-- Some accesses of the call, one after the other, and it has returned.
abbrev pub Finishes : Calls → (new : ℕ) → Stage → Links → Type 0
Finishes k new p m = (n : Links) × Alone k new p m done n

module _ (k : Calls) (new : ℕ) where
  pub Finishes-done : (p : Stage) (m : Links) → p ≡ done → Finishes k new p m
  Finishes-done p m e = rw e (m, stays)

  pub Finishes-move :
      (p : Stage) (m : Links)
      → Finishes k new (move k new p m).0 (move k new p m).1
      → Finishes k new p m
  Finishes-move p m f = (f.0, moves f.1)

-- The list, ranked, before the call adds its entry.
pub record IsReady (k : Calls) (P : ℕ → Type 0) (new : ℕ) (m : Links) : Type 0 where
  pub list : IsList k P m new
  pub ranked : IsRanked k P m
  pub single : IsSingle P m

-- An access after which the call has not returned.
pub move-IsReady :
    (k : Calls) (P : ℕ → Type 0) (new : ℕ) (p : Stage) (m : Links)
    → p ≢ done
    → (move k new p m).0 ≢ done
    → IsReady k P new m
    → Local k P m new p
    → IsReady k P new (move k new p m).1 × Local k P (move k new p m).1 new (move k new p m).0
move-IsReady k P new p m ne go ready l = elim (move-Result k P m new ready.list p ne l) [
  | publishes e _ _ _ _ _ ↦ absurd (go e)
  | goes_on _ w own ↦ (
    record {
      list = record {
        ordered = w.ordered;
        aligned = ready.list.aligned;
        head_inside = ready.list.head_inside;
        new_aligned = ready.list.new_aligned;
        new_outside = ready.list.new_outside;
      };
      ranked =
          extend-IsRanked k P m new ready.list ready.ranked P _ (λ a h. inl h)
            (λ a h level. move-IsOldOr k P m new ready.list p a h l level)
            (λ h level. ready.list.new_outside h);
      single = move-IsSingle k P m new ready.list ready.single p l;
    },
    own,
  )
]

-- A reference with the mark of protection and no other.
protected_lem :
    (c : ℕ)
    → not (is_marked_as_protected c) ≡ false
    → c % 4 ≢ 3
    → c ≡ get_marked_as_protected (get_unmarked_reference c)
unfolding is_marked_as_protected get_marked_as_protected get_unmarked_reference
protected_lem c f single = let odd : c / 2 % 2 ≡ 1 = ground arith in omega arith

module _ (k : Calls) (new : ℕ) (m : Links) (prev : ℕ) (apart : prev ≢ new) where
  -- The reference is the one that the CASV expects.
  pub insert_exact : (next : ℕ) → m prev ≡ next → Finishes k new (inserting prev next) m
  unfolding move test_insert
  insert_exact next e =
      let e' = store_ne m new next prev apart ∙ e in
      let t : (store m new next prev == next) ≡ true = ground arith in
      Finishes-move k new _ _ (Finishes-move k new _ _ (Finishes-done k new _ _ (rw t refl)))

  pub switch_exact :
      (next : ℕ) → m prev ≡ get_marked_as_protected next → Finishes k new (switching prev next) m
  unfolding move test_switch
  switch_exact next e =
      let e' = store_ne m new next prev apart ∙ e in
      let t : (store m new next prev == get_marked_as_protected next) ≡ true = ground arith in
      Finishes-move k new _ _ (Finishes-move k new _ _ (Finishes-done k new _ _ (rw t refl)))

  -- The CASV of `__elem_insert`: it writes, or finds the mark that it then expects, or the search
  -- begins again.
  pub insert_linked-Finishes :
      (next : ℕ)
      → (m prev ≢ next → m prev ≢ get_marked_as_protected next → Finishes k new starting m)
      → Finishes k new (insert_linked prev next) m
  unfolding move test_insert
  insert_linked-Finishes next again = elim (cas-cases m prev next new) [
    | inl (hit, w) ↦
        let t : (m prev == next) ≡ true = ground arith in
        Finishes-move k new _ _ (Finishes-done k new _ _ (rw t refl))
    | inr (miss, w) ↦
        let t : (m prev == next) ≡ false = ground arith in
        elim (Bool-cases (not (m prev == get_marked_as_protected next))) [
          | inl f ↦ Finishes-move k new _ _ (rw (t, f) (again miss (ground arith)))
          | inr f ↦ Finishes-move k new _ _ (rw (t, f) (insert_exact (m prev) refl))
        ]
  ]

  -- The same for `__elem_switch`.
  pub switch_linked-Finishes :
      (next : ℕ)
      → m prev % 4 ≢ 3
      → Finishes k new starting m
      → Finishes k new (switch_linked prev next) m
  unfolding move test_switch
  switch_linked-Finishes next single again =
      elim (cas-cases m prev (get_marked_as_protected next) (get_marked_as_deleted new)) [
        | inl (hit, w) ↦
            let t : (m prev == get_marked_as_protected next) ≡ true = ground arith in
            Finishes-move k new _ _ (Finishes-done k new _ _ (rw t refl))
        | inr (miss, w) ↦
            let t : (m prev == get_marked_as_protected next) ≡ false = ground arith in
            elim (Bool-cases (not (is_marked_as_protected (m prev)))) [
              | inl f ↦ Finishes-move k new _ _ (rw (t, f) again)
              | inr f ↦
                  Finishes-move k new _ _
                    (rw (t, f) (switch_exact _ (protected_lem (m prev) f single)))
            ]
      ]
