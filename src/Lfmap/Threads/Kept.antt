-- ===== src/Lfmap/Threads/Kept.antt =====
-- As long as the CAS after the loop of `__elemSearch` (src/lfmap.cc:194) finds another value than it
-- expects, every access of any call keeps every entry on the list.
use scot.Base.{
  ℕ, suc, ◌≡◌, ◌≢◌, ◌⊎◌, inl, inr, refl, sym, ◌∙◌, ap, subst, List, [], ◌∷◌, ◌==◌, Bool-cases,
  ==_iff, ne_of,
}
use scot.Mark.{get_same_mark, get_marked_as_protected, get_marked_as_deleted}
use scot.Mark.Written.{base, base_of_aligned, base-protected, base-deleted, unmarked-base}
use scot.Lfmap.Threads.{
  Calls, Links, Stage, starting, started, reading, protecting, keeping, relinking, inserting,
  insert_linked, switching, switch_linked, done, store, cas, move, State, update, step, run, fresh,
  IsApart,
}
use scot.Lfmap.Threads.Ordered.{cas-cases, store_self, store_ne}
use scot.Lfmap.Threads.Locals.{Local}
use scot.Lfmap.Threads.Written.{IsList, ne_of_inside}
use scot.Lfmap.Threads.Moves.{Result, goes_on, publishes, move-Result}
use scot.Lfmap.Threads.Invariant.{
  update_self, update_ne, step-done, IsNode, IsSound, done-cases, sound-IsList, step-IsSound,
  fresh-IsSound,
}
use scot.Lfmap.Threads.Unique.{entry_at}

-- What a walk from the head meets.
pub data IsReached (k : Calls) (m : Links) : ℕ → Type 0 where
  head : {b : ℕ} → b ≡ k.list → IsReached k m b
  follow : {a b : ℕ} → IsReached k m a → base (m a) ≡ b → IsReached k m b

-- Where the walk stands after an access: the reference is the same, or it goes through `new`.
abbrev IsSpliced : Links → Links → ℕ → ℕ → Type 0
IsSpliced m n new a = (base (n a) ≡ base (m a)) ⊎ ((base (n a) ≡ new) × (base (n new) ≡ base (m a)))

-- The CAS after the loop of `__elemSearch` does not write.
abbrev pub IsCalm : Stage → Links → Type 0
IsCalm (relinking prev prev_next curr) m = m prev ≢ prev_next
IsCalm _ m = Unit

module _ (k : Calls) (P : ℕ → Type 0) (m : Links) (new : ℕ) (list : IsList k P m new) where
  IsReached-inside : (b : ℕ) → IsReached k m b → P b
  IsReached-inside b (head e) = subst P (sym e) list.head_inside
  IsReached-inside b (follow {a} r e) = subst P e (list.ordered.closed a (IsReached-inside a r))

  IsReached-spliced :
      (n : Links) (b : ℕ)
      → ((a : ℕ) → P a → IsSpliced m n new a)
      → IsReached k m b
      → IsReached k n b
  IsReached-spliced n b f (head e) = head e
  IsReached-spliced n b f (follow {a} r e) =
      let ih = IsReached-spliced n a f r in
      elim (f a (IsReached-inside a r)) [
        | inl same ↦ follow ih (same ∙ e)
        | inr (through, on) ↦ follow (follow ih through) (on ∙ e)
      ]

  -- A write that keeps the address a reference holds.
  cas-IsSpliced : (p o r a : ℕ) → base r ≡ base o → IsSpliced m (cas m p o r) new a
  cas-IsSpliced p o r a e = elim (cas-cases m p o r) [
    | inr (_, miss) ↦ rw miss (inl refl)
    | inl (hit, w) ↦ elim (Bool-cases (a == p)) [
      | inl t ↦ let q : a ≡ p = (==_iff a p).0 t in rw (w, q, store_self m p r, hit) (inl e)
      | inr f ↦ rw (w, store_ne m p r a (ne_of a p f)) (inl refl)
    ]
  ]

  -- The write that adds `new` behind `p`.
  store-IsSpliced :
      (p r a : ℕ) → P p → base r ≡ new → base (m new) ≡ base (m p) → IsSpliced m (store m p r) new a
  store-IsSpliced p r a inside e on = elim (Bool-cases (a == p)) [
    | inl t ↦
        let q : a ≡ p = (==_iff a p).0 t in
        let ne : new ≢ p = λ z. ne_of_inside k P m new list p inside (sym z) in
        rw (q, store_self m p r, store_ne m p r new ne) (inr (e, on))
    | inr f ↦ rw (store_ne m p r a (ne_of a p f)) (inl refl)
  ]

  own-IsSpliced : (r a : ℕ) → P a → IsSpliced m (store m new r) new a
  own-IsSpliced r a inside =
      rw (store_ne m new r a (ne_of_inside k P m new list a inside)) (inl refl)

  move-IsSpliced :
      (p : Stage) (a : ℕ)
      → P a
      → Local k P m new p
      → IsCalm p m
      → IsSpliced m (move k new p m).1 new a
  unfolding move
  move-IsSpliced starting a h l calm = inl refl
  move-IsSpliced (started _) a h l calm = inl refl
  move-IsSpliced (reading _ _ _) a h l calm = inl refl
  move-IsSpliced (protecting curr curr_next) a h l calm =
      cas-IsSpliced curr curr_next _ a (base-protected curr_next)
  move-IsSpliced (keeping _ _) a h l calm = inl refl
  move-IsSpliced (relinking prev prev_next curr) a h l calm =
      elim (cas-cases m prev prev_next (get_same_mark curr prev_next)) [
        | inl (hit, _) ↦ absurd (calm hit)
        | inr (_, miss) ↦ rw miss (inl refl)
      ]
  move-IsSpliced (inserting _ next) a h l calm = own-IsSpliced next a h
  move-IsSpliced (insert_linked prev next) a h l calm = elim (cas-cases m prev next new) [
    | inr (_, miss) ↦ rw miss (inl refl)
    | inl (hit, w) ↦ rw w (
        store-IsSpliced prev new a l.0.inside (base_of_aligned new list.new_aligned)
          (ap base (l.4 ∙ sym hit)))
  ]
  move-IsSpliced (switching _ next) a h l calm = own-IsSpliced next a h
  move-IsSpliced (switch_linked prev next) a h l calm =
      elim (cas-cases m prev (get_marked_as_protected next) (get_marked_as_deleted new)) [
        | inr (_, miss) ↦ rw miss (inl refl)
        | inl (hit, w) ↦ rw w (
            store-IsSpliced prev (get_marked_as_deleted new) a l.0.inside
              (base-deleted new ∙ base_of_aligned new list.new_aligned)
              (ap base l.2 ∙ sym (base-protected next) ∙ sym (ap base hit)))
      ]
  move-IsSpliced done a h l calm = inl refl

abbrev pub IsComplete : Calls → State → Type 0
IsComplete k s = (i : ℕ) → s.pc i ≡ done → IsReached k s.next (k.entry i)

module _ (k : Calls) (apart : IsApart k) where
  node-IsReached : (s : State) → IsComplete k s → (a : ℕ) → IsNode k s.pc a → IsReached k s.next a
  node-IsReached s complete a (inl e) = head e
  node-IsReached s complete a (inr (i, e, d)) = subst (IsReached k s.next) e (complete i d)

  module _ (i : ℕ) (s : State) (sound : IsSound k s) (ne : s.pc i ≢ done)
      (complete : IsComplete k s) (calm : IsCalm (s.pc i) s.next) where
    abbrev after : Links
    after = (move k (k.entry i) (s.pc i) s.next).1

    abbrev place : Stage
    place = (move k (k.entry i) (s.pc i) s.next).0

    still-IsReached : (b : ℕ) → IsReached k s.next b → IsReached k after b
    still-IsReached b r =
        let list = sound-IsList k apart s i sound ne in
        IsReached-spliced k (IsNode k s.pc) s.next (k.entry i) list after b
          (λ a h.
            move-IsSpliced k (IsNode k s.pc) s.next (k.entry i) list (s.pc i) a h (sound.local i)
              calm)
          r

    added-IsReached :
        (p : Stage)
        → Result k (IsNode k s.pc) s.next (k.entry i) p after
        → p ≡ done
        → IsReached k after (k.entry i)
    added-IsReached p (goes_on go w l) e = absurd (go e)
    added-IsReached p (publishes q w a inside b _) e =
        follow (still-IsReached a (node-IsReached s complete a inside)) b

    move-IsComplete : IsComplete k (step k i s)
    unfolding step
    move-IsComplete j d = elim (Bool-cases (j == i)) [
      | inl t ↦
          let q : j ≡ i = (==_iff j i).0 t in
          let r =
            move-Result k (IsNode k s.pc) s.next (k.entry i) (sound-IsList k apart s i sound ne)
              (s.pc i) ne (sound.local i) in
          rw q (
            added-IsReached place r (
              sym (update_self s.pc i place) ∙ subst (λ (x : ℕ). update s.pc i place x ≡ done) q d))
      | inr f ↦
          still-IsReached (k.entry j)
            (complete j (sym (update_ne s.pc i place j (ne_of j i f)) ∙ d))
    ]

  step-IsComplete :
      (i : ℕ) (s : State)
      → IsSound k s
      → IsComplete k s
      → IsCalm (s.pc i) s.next
      → IsComplete k (step k i s)
  step-IsComplete i s sound complete calm = elim (done-cases (s.pc i)) [
    | inl e ↦ subst (IsComplete k) (sym (step-done k i s e)) complete
    | inr ne ↦ move-IsComplete i s sound ne complete calm
  ]

-- In no step of the run does that CAS write.
abbrev pub IsCalmRun : Calls → List ℕ → State → Type 0
IsCalmRun k [] s = Unit
IsCalmRun k (i ∷ schedule) s = IsCalm (s.pc i) s.next × IsCalmRun k schedule (step k i s)

run-IsComplete :
    (k : Calls) (schedule : List ℕ) (s : State)
    → IsApart k
    → IsSound k s
    → IsComplete k s
    → IsCalmRun k schedule s
    → IsComplete k (run k schedule s)
unfolding run
run-IsComplete k [] s apart sound complete calm = complete
run-IsComplete k (i ∷ schedule) s apart sound complete calm =
    run-IsComplete k schedule (step k i s) apart (step-IsSound k apart i s sound).0
      (step-IsComplete k apart i s sound complete calm.0) calm.1

IsReached-entry_at :
    (k : Calls) (m : Links) (b : ℕ)
    → IsReached k m b
    → (b ≡ k.list) ⊎ ((n : ℕ) × (entry_at k m n ≡ b))
unfolding entry_at
IsReached-entry_at k m b (head e) = inl e
IsReached-entry_at k m b (follow {a} r e) = elim (IsReached-entry_at k m a r) [
  | inl q ↦ inr (0, unmarked-base (m k.list) ∙ subst (λ (x : ℕ). base (m x) ≡ b) q e)
  | inr (n, q) ↦
      inr (suc n, unmarked-base (m (entry_at k m n)) ∙ subst (λ (x : ℕ). base (m x) ≡ b) (sym q) e)
]

-- After any accesses of any calls, in any order, among which the CAS after the loop of a search never
-- writes: a walk from the head meets the entry of each call that has returned.
pub insert-kept :
    (k : Calls) (schedule : List ℕ) (i : ℕ)
    → IsApart k
    → IsCalmRun k schedule (fresh k)
    → (run k schedule (fresh k)).pc i ≡ done
    → (n : ℕ) × (entry_at k (run k schedule (fresh k)).next n ≡ k.entry i)
insert-kept k schedule i apart calm d =
    let complete =
      run-IsComplete k schedule (fresh k) apart (fresh-IsSound k apart) (λ j e. absurd (not_done e))
        calm in
    elim (IsReached-entry_at k _ (k.entry i) (complete i d)) [
      | inl e ↦ absurd (apart.entry_ne i e)
      | inr w ↦ w
    ]
  where
    not_done : starting ≢ done
    not_done e = cc
