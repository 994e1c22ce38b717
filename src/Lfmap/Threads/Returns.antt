-- ===== src/Lfmap/Threads/Returns.antt =====
-- From every state that calls of `__ht_try_insert` reach, a call that the others leave alone returns.
use scot.Base.{
  ℕ, ◌%◌, ◌≡◌, ◌≢◌, inl, inr, refl, sym, ◌∙◌, true, false, ◌||◌, arith, ◌==◌, Bool-cases, ==_iff,
  subst, ap,
}
use scot.Mark.{
  is_marked_as_deleted, get_unmarked_reference, get_marked_as_protected, get_same_mark,
  is_same_baseref,
}
use scot.Mark.Written.{
  base, base_of_aligned, base-same_mark, is_deleted-same_mark, is_deleted-aligned,
}
use scot.Lfmap.Threads.{
  Calls, Links, Stage, starting, started, reading, protecting, keeping, relinking, inserting,
  insert_linked, switching, switch_linked, done, store, test_protect, move,
}
use scot.Lfmap.Threads.Ordered.{store_self, store_ne}
use scot.Lfmap.Threads.Locals.{Local, IsLater}
use scot.Lfmap.Threads.Written.{ne_of_inside}
use scot.Lfmap.Threads.Goes.{test_protect-Goes}
use scot.Lfmap.Threads.Finishes.{
  Finishes, Finishes-done, Finishes-move, IsReady, move-IsReady, switch_exact,
  insert_linked-Finishes, switch_linked-Finishes,
}
use scot.Lfmap.Threads.Passes.{reading-Finishes}

near_lem :
    (c next : ℕ)
    → base c ≡ next
    → is_marked_as_deleted c ≡ false
    → c ≢ next
    → c ≢ get_marked_as_protected next
    → ⊥
unfolding is_marked_as_deleted get_marked_as_protected
near_lem c next e live p q = let even : c % 2 ≡ 0 = ground arith in omega arith

protected-unmarked :
    (c : ℕ) → get_marked_as_protected (get_unmarked_reference c) ≡ get_marked_as_protected c
unfolding get_marked_as_protected get_unmarked_reference
protected-unmarked c = omega arith

same_baseref-base : (a b : ℕ) → is_same_baseref a b ≡ true → base a ≡ base b
unfolding is_same_baseref
same_baseref-base a b e = ground arith

-- A live reference to the entry in front of which the new one goes: `__elem_insert` succeeds.
insert_near :
    (k : Calls) (new : ℕ) (m : Links) (prev : ℕ)
    → prev ≢ new
    → (next : ℕ) → base (m prev) ≡ next
    → is_marked_as_deleted (m prev) ≡ false
    → Finishes k new (inserting prev next) m
unfolding move
insert_near k new m prev apart next e live =
    let same = store_ne m new next prev apart in
    Finishes-move k new (inserting prev next) m (
      insert_linked-Finishes k new (store m new next) prev apart next
        (λ p q. absurd (near_lem (m prev) next e live (rw same at p) (rw same at q))))

module _ (k : Calls) (P : ℕ → Type 0) (new : ℕ) (m : Links) (ready : IsReady k P new m) where
  apart_from : (a : ℕ) → P a → a ≢ new
  apart_from a h = ne_of_inside k P m new ready.list a h

  -- The CASV of the inner loop of `__elemSearch` finds what it expects.
  protects-Finishes :
      (curr : ℕ)
      → Local k P m new (protecting curr (m curr))
      → Finishes k new (protecting curr (m curr)) m
  unfolding move test_protect
  protects-Finishes curr l =
      let c = m curr in
      let t : (c == c || c == get_marked_as_protected c) ≡ true = ground arith in
      let hit : (c == c) ≡ true = ground arith in
      Finishes-move k new (protecting curr c) m (
        rw (t, hit)
          (switch_exact k new (store m curr (get_marked_as_protected c)) curr
            (apart_from curr l.0.inside) (get_unmarked_reference c)
            (store_self m curr (get_marked_as_protected c) ∙ sym (protected-unmarked c))))

  -- `prev_next` is what `prev` refers to, and is not marked as deleted.
  abbrev Fresh : ℕ → ℕ → Type 0
  Fresh prev prev_next = (m prev ≡ prev_next) × (is_marked_as_deleted prev_next ≡ false)

  relinks-Fresh :
      (prev prev_next curr : ℕ)
      → Fresh prev prev_next
      → Local k P m new (relinking prev prev_next curr)
      → Finishes k new (relinking prev prev_next curr) m
  unfolding move
  relinks-Fresh prev prev_next curr (hit, live) l =
      let al = ready.list.aligned curr l.1 in
      let t : (m prev == prev_next) ≡ true = ground arith in
      let r = get_same_mark curr prev_next in
      let now = store_self m prev r in
      Finishes-move k new (relinking prev prev_next curr) m (
        rw t (
          insert_near k new (store m prev r) prev (apart_from prev l.0.inside) curr
            (rw now (base-same_mark curr prev_next al))
            (rw now (is_deleted-same_mark curr prev_next al ∙ live))))

  inserts-Fresh :
      (prev prev_next curr : ℕ)
      → Fresh prev prev_next
      → P curr
      → is_same_baseref prev_next curr ≡ true
      → Local k P m new (inserting prev curr)
      → Finishes k new (inserting prev curr) m
  inserts-Fresh prev prev_next curr (hit, live) inside same l =
      let e = base_of_aligned curr (ready.list.aligned curr inside) in
      insert_near k new m prev (apart_from prev l.0.inside) curr
        (ap base hit ∙ same_baseref-base prev_next curr same ∙ e) (rw hit live)

  pub starting-Finishes : Finishes k new starting m
  unfolding move
  starting-Finishes =
      let al = ready.list.ordered.head in
      let l = (move-IsReady k P new (started (m k.list)) m (λ e. cc) (λ e. cc) ready tt).1 in
      Finishes-move k new starting m (
        Finishes-move k new (started (m k.list)) m (
          reading-Finishes k P new m ready Fresh (λ curr live. (refl, live)) relinks-Fresh
            inserts-Fresh protects-Finishes k.list (m k.list) (m k.list)
            (refl, is_deleted-aligned (m k.list) al) l))

-- The same from any place of the call: where an access finds that another call was there before it, the
-- search begins again.
module _ (k : Calls) (P : ℕ → Type 0) (new : ℕ) where
  inserts-Finishes :
      (m : Links)
      → IsReady k P new m
      → (prev next : ℕ) → Local k P m new (inserting prev next)
      → Finishes k new (inserting prev next) m
  unfolding move
  inserts-Finishes m ready prev next l =
      let after = move-IsReady k P new (inserting prev next) m (λ e. cc) (λ e. cc) ready l in
      Finishes-move k new (inserting prev next) m (
        insert_linked-Finishes k new (store m new next) prev
          (apart_from k P new m ready prev l.0.inside) next
          (λ _ _. starting-Finishes k P new (store m new next) after.0))

  relinks-Finishes :
      (m : Links)
      → IsReady k P new m
      → (prev prev_next curr : ℕ) → Local k P m new (relinking prev prev_next curr)
      → Finishes k new (relinking prev prev_next curr) m
  unfolding move
  relinks-Finishes m ready prev prev_next curr l =
      let after =
        move-IsReady k P new (relinking prev prev_next curr) m (λ e. cc) (λ e. cc) ready l in
      Finishes-move k new (relinking prev prev_next curr) m
        (inserts-Finishes _ after.0 prev curr after.1)

  reads-Finishes :
      (m : Links)
      → IsReady k P new m
      → (prev prev_next curr : ℕ) → Local k P m new (reading prev prev_next curr)
      → Finishes k new (reading prev prev_next curr) m
  reads-Finishes m ready prev prev_next curr l =
      reading-Finishes k P new m ready (λ _ _. Unit {0}) (λ _ _. tt)
        (λ a b c _ h. relinks-Finishes m ready a b c h)
        (λ a b c _ _ _ h. inserts-Finishes m ready a c h) (protects-Finishes k P new m ready) prev
        prev_next curr tt l

  keeps-Finishes :
      (m : Links)
      → IsReady k P new m
      → (prev curr_next : ℕ) → Local k P m new (keeping prev curr_next)
      → Finishes k new (keeping prev curr_next) m
  unfolding move
  keeps-Finishes m ready prev curr_next l =
      let after = move-IsReady k P new (keeping prev curr_next) m (λ e. cc) (λ e. cc) ready l in
      Finishes-move k new (keeping prev curr_next) m
        (reads-Finishes m ready prev (m prev) _ after.1)

  -- The CASV of the inner loop finds another reference than it expects.
  protects_missed :
      (m : Links)
      → IsReady k P new m
      → (curr curr_next : ℕ) → (m curr == curr_next) ≡ false
      → Local k P m new (protecting curr curr_next)
      → Finishes k new (protecting curr curr_next) m
  unfolding move test_protect
  protects_missed m ready curr curr_next f l =
      let later : IsLater P P m m = record { more = λ a h. h; deleted = λ a h d. d } in
      let g = (test_protect-Goes k P m new ready.list curr curr_next m l.0 l.1 later).1 in
      Finishes-move k new (protecting curr curr_next) m
        (elim (Bool-cases (m curr == get_marked_as_protected curr_next)) [
          | inl t ↦
              let e = (==_iff _ _).0 t ∙ sym (protected-unmarked curr_next) in
              rw (f, t) (switch_exact k new m curr (apart_from k P new m ready curr l.0.inside) _ e)
          | inr t ↦ elim (Bool-cases (is_marked_as_deleted (m curr))) [
            | inl d ↦ rw (f, t, d) (keeps-Finishes m ready curr (m curr) (rw (f, t, d) at g))
            | inr d ↦ rw (f, t, d) (protects-Finishes k P new m ready curr (rw (f, t, d) at g))
          ]
        ])

  protects_any :
      (m : Links)
      → IsReady k P new m
      → (curr curr_next : ℕ) → Local k P m new (protecting curr curr_next)
      → Finishes k new (protecting curr curr_next) m
  protects_any m ready curr curr_next l = elim (Bool-cases (m curr == curr_next)) [
    | inl t ↦
        let e : m curr ≡ curr_next = (==_iff _ _).0 t in
        subst (λ (x : ℕ). Finishes k new (protecting curr x) m) e
          (protects-Finishes k P new m ready curr (rw e l))
    | inr f ↦ protects_missed m ready curr curr_next f l
  ]

  switches-Finishes :
      (m : Links)
      → IsReady k P new m
      → (prev next : ℕ) → Local k P m new (switch_linked prev next)
      → Finishes k new (switch_linked prev next) m
  switches-Finishes m ready prev next l =
      switch_linked-Finishes k new m prev (apart_from k P new m ready prev l.0.inside) next
        (ready.single prev l.0.inside) (starting-Finishes k P new m ready)

  pub any-Finishes :
      (m : Links) → IsReady k P new m → (p : Stage) → Local k P m new p → Finishes k new p m
  unfolding move
  any-Finishes m ready starting l = starting-Finishes k P new m ready
  any-Finishes m ready (started a) l =
      let after = move-IsReady k P new (started a) m (λ e. cc) (λ e. cc) ready l in
      Finishes-move k new (started a) m (reads-Finishes m ready k.list a (m k.list) after.1)
  any-Finishes m ready (reading prev prev_next curr) l =
      reads-Finishes m ready prev prev_next curr l
  any-Finishes m ready (protecting curr curr_next) l = protects_any m ready curr curr_next l
  any-Finishes m ready (keeping prev curr_next) l = keeps-Finishes m ready prev curr_next l
  any-Finishes m ready (relinking prev prev_next curr) l =
      relinks-Finishes m ready prev prev_next curr l
  any-Finishes m ready (inserting prev next) l = inserts-Finishes m ready prev next l
  any-Finishes m ready (insert_linked prev next) l =
      insert_linked-Finishes k new m prev (apart_from k P new m ready prev l.0.inside) next
        (λ _ _. starting-Finishes k P new m ready)
  any-Finishes m ready (switching prev next) l =
      let after = move-IsReady k P new (switching prev next) m (λ e. cc) (λ e. cc) ready l in
      Finishes-move k new (switching prev next) m
        (switches-Finishes (store m new next) after.0 prev next after.1)
  any-Finishes m ready (switch_linked prev next) l = switches-Finishes m ready prev next l
  any-Finishes m ready done l = Finishes-done k new done m refl
