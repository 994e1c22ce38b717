-- ===== src/Lfmap/Threads/Alone.antt =====
-- A call of `__ht_try_insert` that no other call interrupts makes the same accesses as the functions of
-- src/lfmap.cc that are modelled as one thread runs them: insertion and replacement.
use scot.Base.{
  ℕ, zero, suc, ◌≡◌, refl, sym, inl, inr, Bool, not, Option, none, some, ◌==◌, if◌then◌else◌,
  Bool-cases, arith, fun_ext, subst,
}
use scot.Entry.{Heap, set_next}
use scot.Mark.{is_marked_as_protected, get_marked_as_protected, get_marked_as_deleted}
use scot.Lfmap.{casv, elem_insert, elem_switch}
use scot.Lfmap.Threads.{
  Calls, Links, Stage, starting, inserting, switching, done, store, cas, test_insert, test_switch,
  move,
}

-- Some accesses of one call, one after the other.
pub data Alone (k : Calls) (new : ℕ) : Stage → Links → Stage → Links → Type 0 where
  stays : {p : Stage} {m : Links} → Alone k new p m p m
  moves :
      {p q : Stage} {m n : Links}
      → Alone k new (move k new p m).0 (move k new p m).1 q n
      → Alone k new p m q n

pub Alone-trans :
    {k : Calls} {new : ℕ} {p q r : Stage} {m n o : Links}
    → Alone k new p m q n
    → Alone k new q n r o
    → Alone k new p m r o
Alone-trans stays b = b
Alone-trans (moves a) b = moves (Alone-trans a b)

abbrev pub links : Heap → Links
links h a = (h a).next

-- The hash values of the entries are those that the calls compare.
abbrev pub HasHashes : Calls → Heap → Type 0
HasHashes k h = (a : ℕ) → (h a).hashv ≡ k.hashv a

pub links-set_next : (h : Heap) (p r : ℕ) → links (set_next h p r) ≡ store (links h) p r
unfolding set_next store
links-set_next h p r = fun_ext (λ a. ground arith)

pub links-casv : (h : Heap) (p o n : ℕ) → links (casv h p o n).1 ≡ cas (links h) p o n
unfolding casv cas
links-casv h p o n = elim (Bool-cases ((h p).next == o)) [
  | inl e ↦ rw e (links-set_next h p n)
  | inr e ↦ rw e refl
]

pub set_next-HasHashes :
    (k : Calls) (h : Heap) (p r : ℕ) → HasHashes k h → HasHashes k (set_next h p r)
unfolding set_next
set_next-HasHashes k h p r f a = let e = f a in let e' = f p in ground arith

pub casv-HasHashes :
    (k : Calls) (h : Heap) (p o n : ℕ) → HasHashes k h → HasHashes k (casv h p o n).1
unfolding casv
casv-HasHashes k h p o n f = elim (Bool-cases ((h p).next == o)) [
  | inl e ↦ rw e (set_next-HasHashes k h p n f)
  | inr e ↦ rw e f
]

-- The call comes to where the function returns, with the memory that it leaves.
abbrev pub Returns : Calls → (new : ℕ) → Stage → Links → Option (Bool × Heap) → Type 0
Returns k new p m none = Unit
Returns k new p m (some (b, g)) =
    Alone k new p m (if b then done else starting) (links g) × HasHashes k g

pub Returns-after :
    (k : Calls) (new : ℕ) (p q : Stage) (m n : Links) (o : Option (Bool × Heap))
    → Alone k new p m q n
    → Returns k new q n o
    → Returns k new p m o
Returns-after k new p q m n none a r = tt
Returns-after k new p q m n (some (b, g)) a r = (Alone-trans a r.0, r.1)

module _ (k : Calls) (new : ℕ) where
  -- Two accesses: the store to `new->next`, and the CASV.
  insert_twice :
      (h : Heap) (prev next : ℕ)
      → Alone k new
          (inserting prev next)
          (links h)
          (test_insert prev next (set_next h new next prev).next)
          (links (casv (set_next h new next) prev next new).1)
  unfolding move
  insert_twice h prev next =
      subst (Alone k new (inserting prev next) (links h) _)
        (sym (links-casv (set_next h new next) prev next new))
        (subst
          (λ (n : Links).
            Alone k new (inserting prev next) (links h) (test_insert prev next (n prev))
              (cas n prev next new))
          (sym (links-set_next h new next)) (moves (moves stays)))

  switch_twice :
      (h : Heap) (prev next : ℕ)
      → Alone k new
          (switching prev next)
          (links h)
          (test_switch prev next (set_next h new next prev).next)
          (links
            (casv
              (set_next h new next)
              prev
              (get_marked_as_protected next)
              (get_marked_as_deleted new)).1)
  unfolding move
  switch_twice h prev next =
      subst (Alone k new (switching prev next) (links h) _)
        (sym (
          links-casv (set_next h new next) prev (get_marked_as_protected next)
            (get_marked_as_deleted new)))
        (subst
          (λ (n : Links).
            Alone k new (switching prev next) (links h) (test_switch prev next (n prev))
              (cas n prev (get_marked_as_protected next) (get_marked_as_deleted new)))
          (sym (links-set_next h new next)) (moves (moves stays)))

  module _ (h : Heap) (hashes : HasHashes k h) (prev next : ℕ) where
    abbrev inserted : Heap
    inserted = (casv (set_next h new next) prev next new).1

    inserted-HasHashes : HasHashes k inserted
    inserted-HasHashes =
        casv-HasHashes k (set_next h new next) prev next new
          (set_next-HasHashes k h new next hashes)

    abbrev switched : Heap
    switched =
        (casv (set_next h new next) prev (get_marked_as_protected next)
          (get_marked_as_deleted new)).1

    switched-HasHashes : HasHashes k switched
    switched-HasHashes =
        casv-HasHashes k (set_next h new next) prev (get_marked_as_protected next)
          (get_marked_as_deleted new) (set_next-HasHashes k h new next hashes)

  pub elem_insert-Returns :
      (fuel : ℕ) (h : Heap) (prev next : ℕ)
      → HasHashes k h
      → Returns k new (inserting prev next) (links h) (elem_insert fuel h new prev next)
  unfolding elem_insert casv test_insert
  elem_insert-Returns zero h prev next hashes = tt
  elem_insert-Returns (suc fuel) h prev next hashes =
      let two = insert_twice h prev next in
      let kept = inserted-HasHashes h hashes prev next in
      elim (Bool-cases ((set_next h new next prev).next == next)) [
        | inl e ↦ rw e (rw e at two, rw e at kept)
        | inr e ↦
            elim (Bool-cases
              (not ((set_next h new next prev).next == get_marked_as_protected next))) [
                | inl f ↦ rw (e, f) (rw (e, f) at two, rw e at kept)
                | inr f ↦
                    rw (e, f)
                      (Returns-after k new _ _ _ _ _ (rw (e, f) at two)
                        (elem_insert-Returns fuel _ prev _ (rw e at kept)))
              ]
      ]

  pub elem_switch-Returns :
      (fuel : ℕ) (h : Heap) (prev next : ℕ)
      → HasHashes k h
      → Returns k new (switching prev next) (links h) (elem_switch fuel h new prev next)
  unfolding elem_switch casv test_switch
  elem_switch-Returns zero h prev next hashes = tt
  elem_switch-Returns (suc fuel) h prev next hashes =
      let two = switch_twice h prev next in
      let kept = switched-HasHashes h hashes prev next in
      elim (Bool-cases ((set_next h new next prev).next == get_marked_as_protected next)) [
        | inl e ↦ rw e (rw e at two, rw e at kept)
        | inr e ↦ elim (Bool-cases (not (is_marked_as_protected (set_next h new next prev).next))) [
          | inl f ↦ rw (e, f) (rw (e, f) at two, rw e at kept)
          | inr f ↦
              rw (e, f)
                (Returns-after k new _ _ _ _ _ (rw (e, f) at two)
                  (elem_switch-Returns fuel _ prev _ (rw e at kept)))
        ]
      ]
