-- ===== src/Lfmap/Threads/Single.antt =====
-- No reference of the list carries both marks.
use scot.Base.{
  ℕ, ◌%◌, ◌≡◌, ◌≢◌, inl, inr, sym, subst, arith, List, [], ◌∷◌, ◌==◌, Bool-cases, ==_iff, ne_of,
  false, ◌∙◌,
}
use scot.Mark.{is_marked_as_deleted, get_marked_as_protected, get_marked_as_deleted, get_same_mark}
use scot.Mark.Written.{same_mark-mod}
use scot.Lfmap.Threads.{
  Calls, Links, Stage, starting, started, reading, protecting, keeping, relinking, inserting,
  insert_linked, switching, switch_linked, done, store, cas, move, State, step, run, fresh, IsApart,
}
use scot.Lfmap.Threads.Ordered.{cas-cases, store_self, store_ne}
use scot.Lfmap.Threads.Locals.{Local}
use scot.Lfmap.Threads.Written.{IsList, ne_of_inside}
use scot.Lfmap.Threads.Moves.{move-Result}
use scot.Lfmap.Threads.Ranked.{added-live}
use scot.Lfmap.Threads.Invariant.{
  IsNode, IsSound, IsNode-from, step-done, done-cases, sound-IsList, step-IsSound,
}

abbrev pub IsSingle : (ℕ → Type 0) → Links → Type 0
IsSingle P m = (a : ℕ) → P a → m a % 4 ≢ 3

cas-IsSingle :
    (m : Links) (p o r a : ℕ) → (m p ≡ o → r % 4 ≢ 3) → m a % 4 ≢ 3 → cas m p o r a % 4 ≢ 3
cas-IsSingle m p o r a new old = elim (cas-cases m p o r) [
  | inr (_, miss) ↦ rw miss old
  | inl (hit, w) ↦ elim (Bool-cases (a == p)) [
    | inl t ↦ let q : a ≡ p = (==_iff a p).0 t in rw (w, q, store_self m p r) (new hit)
    | inr f ↦ rw (w, store_ne m p r a (ne_of a p f)) old
  ]
]

protected-IsSingle : (c : ℕ) → get_marked_as_protected c % 4 ≢ 3
unfolding get_marked_as_protected
protected-IsSingle c e = omega arith

deleted-IsSingle : (c : ℕ) → get_marked_as_deleted c % 4 ≢ 3
unfolding get_marked_as_deleted
deleted-IsSingle c e = omega arith

live-IsSingle : (c : ℕ) → is_marked_as_deleted c ≡ false → c % 4 ≢ 3
unfolding is_marked_as_deleted
live-IsSingle c live e = let odd : c % 2 ≡ 1 = omega arith in ground arith

module _ (k : Calls) (P : ℕ → Type 0) (m : Links) (new : ℕ) (list : IsList k P m new)
    (single : IsSingle P m) where
  own-IsSingle : (r : ℕ) → IsSingle P (store m new r)
  own-IsSingle r a h = rw (store_ne m new r a (ne_of_inside k P m new list a h)) (single a h)

  pub move-IsSingle : (p : Stage) → Local k P m new p → IsSingle P (move k new p m).1
  unfolding move
  move-IsSingle starting l a h = single a h
  move-IsSingle (started _) l a h = single a h
  move-IsSingle (reading _ _ _) l a h = single a h
  move-IsSingle (protecting curr curr_next) l a h =
      cas-IsSingle m curr curr_next _ a (λ _. protected-IsSingle curr_next) (single a h)
  move-IsSingle (keeping _ _) l a h = single a h
  move-IsSingle (relinking prev prev_next curr) l a h =
      cas-IsSingle m prev prev_next (get_same_mark curr prev_next) a
        (λ hit e.
          single prev l.0.inside
            (rw hit (sym (same_mark-mod curr prev_next (list.aligned curr l.1)) ∙ e)))
        (single a h)
  move-IsSingle (inserting _ next) l a h = own-IsSingle next a h
  move-IsSingle (insert_linked prev next) l a h =
      cas-IsSingle m prev next new a (λ _ e. let al = list.new_aligned in omega arith) (single a h)
  move-IsSingle (switching _ next) l a h = own-IsSingle next a h
  move-IsSingle (switch_linked prev next) l a h =
      cas-IsSingle m prev (get_marked_as_protected next) _ a (λ _. deleted-IsSingle new)
        (single a h)
  move-IsSingle done l a h = single a h

module _ (k : Calls) (apart : IsApart k) where
  step-IsSingle :
      (i : ℕ) (s : State)
      → IsSound k s
      → IsSingle (IsNode k s.pc) s.next
      → IsSingle (IsNode k (step k i s).pc) (step k i s).next
  unfolding step
  step-IsSingle i s sound single = elim (done-cases (s.pc i)) [
    | inl e ↦
        subst (λ (t : State). IsSingle (IsNode k t.pc) t.next) (sym (step-done k i s e)) single
    | inr ne ↦ λ a h.
        let P = IsNode k s.pc in
        let new = k.entry i in
        let list = sound-IsList k apart s i sound ne in
        let p' = (move k new (s.pc i) s.next).0 in
        let n = (move k new (s.pc i) s.next).1 in
        let res = move-Result k P s.next new list (s.pc i) ne (sound.local i) in
        elim (IsNode-from k apart s.pc i ne p' a h) [
          | inl q ↦ move-IsSingle k P s.next new list single (s.pc i) (sound.local i) a q
          | inr q ↦ rw q.0 (live-IsSingle (n new) (added-live k P s.next new list p' n res q.1))
        ]
  ]

  pub run-IsSingle :
      (schedule : List ℕ) (s : State)
      → IsSound k s
      → IsSingle (IsNode k s.pc) s.next
      → IsSingle (IsNode k (run k schedule s).pc) (run k schedule s).next
  unfolding run
  run-IsSingle [] s sound single = single
  run-IsSingle (i ∷ schedule) s sound single =
      run-IsSingle schedule (step k i s) (step-IsSound k apart i s sound).0
        (step-IsSingle i s sound single)

  pub fresh-IsSingle : IsSingle (IsNode k (fresh k).pc) (fresh k).next
  fresh-IsSingle a (inl e) z = let al = apart.list_aligned in ground arith
  fresh-IsSingle a (inr (_, _, d)) z = absurd (not_done d)
    where
      not_done : starting ≢ done
      not_done e = cc
