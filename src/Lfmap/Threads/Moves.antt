-- ===== src/Lfmap/Threads/Moves.antt =====
-- One access of a call of `__ht_try_insert`: what it leaves of the list and of its local variables.
use scot.Base.{
  ℕ, ◌≡◌, ◌≢◌, ◌<◌, inl, inr, refl, sym, ◌∙◌, true, false, not, arith, ◌==◌, Bool-cases, ==_iff,
  absurd_both, subst,
}
use scot.Mark.{
  is_marked_as_deleted, is_marked_as_protected, get_marked_as_protected, get_marked_as_deleted,
}
use scot.Mark.Written.{
  base, base_aligned, base_of_aligned, unmarked-base, base-protected, is_deleted-protected,
  base-deleted, is_deleted-deleted, is_deleted-aligned,
}
use scot.Lfmap.Threads.{
  Calls, Links, Stage, starting, started, reading, protecting, keeping, relinking, inserting,
  insert_linked, switching, switch_linked, done, store, cas, test_insert, test_switch, move,
}
use scot.Lfmap.Threads.Ordered.{Link, cas-cases, store_self, store_ne}
use scot.Lfmap.Threads.Locals.{IsBehind, IsLater, Local, IsBehind-later, IsSame-later}
use scot.Lfmap.Threads.Goes.{Goes, test_entry-Goes, test_protect-Goes}
use scot.Lfmap.Threads.Written.{
  Or, IsWritten, IsList, ne_of_inside, IsWritten-same, store_new-IsWritten, store-IsWritten,
  protect-IsWritten, relink-IsWritten,
}

-- A call goes on, or adds `new`, which is not deleted, behind an entry and is done.
pub data Result (k : Calls) (P : ℕ → Type 0) (m : Links) (new : ℕ) (p : Stage) (n : Links)
    : Type 0 where
  goes_on : p ≢ done → IsWritten k P P m new n → Local k P n new p → Result k P m new p n
  publishes :
      p ≡ done
      → IsWritten k P (Or P new) m new n
      → (a : ℕ) → P a
      → base (n a) ≡ new
      → is_marked_as_deleted (n new) ≡ false
      → Result k P m new p n

module _ (k : Calls) (P : ℕ → Type 0) (m : Links) (new : ℕ) (list : IsList k P m new) where
  reads : (p : Stage) → Goes k P m new p → Result k P m new p m
  reads p g = goes_on g.0 (IsWritten-same k P m new list.ordered) g.1

  -- A write behind another entry leaves the reference of `new`.
  own_kept : (prev r : ℕ) → P prev → store m prev r new ≡ m new
  own_kept prev r inside =
      store_ne m prev r new (λ e. ne_of_inside k P m new list prev inside (sym e))

  -- The CASV of `__elem_insert` adds `new`, or the call goes on.
  insert-Result :
      (prev next : ℕ)
      → Local k P m new (insert_linked prev next)
      → Result k P m new (test_insert prev next (m prev)) (cas m prev next new)
  unfolding test_insert
  insert-Result prev next (b, ahead, inside, live, own) = elim (cas-cases m prev next new) [
    | inl (hit, e) ↦
        let t : (m prev == next) ≡ true = ground arith in
        let e' = base_of_aligned new list.new_aligned in
        let live' : is_marked_as_deleted (m prev) ≡ false = rw hit live in
        let other = own_kept prev new b.inside in
        rw (t, e)
          (publishes refl
            (store-IsWritten k P m new list prev new b.inside e' (λ _. list.new_aligned)
              (λ d. absurd_both d live') (rw own inside)
              (rw own (λ p q. let a = ahead q in (omega arith, λ _. a)))
              (λ p q. rw e' (b.le p, λ _. strict b live' p)))
            prev b.inside (rw (store_self m prev new) e') (rw (other, own) live))
    | inr (miss, e) ↦
        let t : (m prev == next) ≡ false = ground arith in
        elim (Bool-cases (not (m prev == get_marked_as_protected next))) [
          | inl differ ↦
              rw (t, differ, e) (goes_on (λ e. cc) (IsWritten-same k P m new list.ordered) tt)
          | inr same ↦
              let q : m prev ≡ get_marked_as_protected next = ground arith in
              rw (t, same, e)
                (goes_on (λ e. cc) (IsWritten-same k P m new list.ordered)
                  (
                    b,
                    rw (q, base-protected next) ahead,
                    rw (q, base-protected next) inside,
                    rw q (is_deleted-protected next),
                  ))
        ]
  ]
    where
      strict :
          IsBehind k P m new prev
          → is_marked_as_deleted (m prev) ≡ false
          → prev ≢ k.list
          → k.hashv prev < k.hashv new
      strict b live p = elim (Bool-cases (k.hashv prev == k.hashv new)) [
        | inl e ↦ absurd_both (b.late p ((==_iff (k.hashv prev) (k.hashv new)).0 e)) live
        | inr e ↦ let l = b.le p in ground arith
      ]

  -- The CASV of `__elem_switch` adds `new`, or the call goes on.
  switch-Result :
      (prev next : ℕ)
      → Local k P m new (switch_linked prev next)
      → Result k P m new
          (test_switch prev next (m prev))
          (cas m prev (get_marked_as_protected next) (get_marked_as_deleted new))
  unfolding test_switch
  switch-Result prev next (s, al, own) =
      elim (cas-cases m prev (get_marked_as_protected next) (get_marked_as_deleted new)) [
        | inl (hit, e) ↦
            let t : (m prev == get_marked_as_protected next) ≡ true = ground arith in
            let e' = base-deleted new ∙ base_of_aligned new list.new_aligned in
            let to : base (m prev) ≡ base next = rw hit (base-protected next) in
            let other = own_kept prev (get_marked_as_deleted new) s.inside in
            let link = subst (Link k prev) hit (list.ordered.order prev s.inside) in
            rw (t, e)
              (publishes refl
                (store-IsWritten k P m new list prev (get_marked_as_deleted new) s.inside e'
                  (λ z. absurd (s.ne z)) (λ _. is_deleted-deleted new)
                  (rw (own, sym to) (list.ordered.closed prev s.inside))
                  (rw own (λ p q.
                    let a = rw (base-protected next) at (
                      (link s.ne (λ z. q (sym (base-protected next) ∙ z))).1
                        (is_deleted-protected next)) in
                    (omega (arith, s.eq), λ _. omega (arith, s.eq))))
                  (λ p q. rw e' (omega (arith, s.eq), λ d. absurd_both (is_deleted-deleted new) d)))
                prev s.inside (rw (store_self m prev (get_marked_as_deleted new)) e')
                (rw (other, own) (is_deleted-aligned next al)))
        | inr (miss, e) ↦
            let t : (m prev == get_marked_as_protected next) ≡ false = ground arith in
            elim (Bool-cases (not (is_marked_as_protected (m prev)))) [
              | inl differ ↦
                  rw (t, differ, e) (goes_on (λ e. cc) (IsWritten-same k P m new list.ordered) tt)
              | inr same ↦
                  rw (t, same, e, unmarked-base (m prev))
                    (goes_on (λ e. cc) (IsWritten-same k P m new list.ordered)
                      (s, base_aligned (m prev)))
            ]
      ]

  writes :
      (p : Stage) (n : Links)
      → IsWritten k P P m new n
      → (IsLater P P m n → Goes k P n new p)
      → Result k P m new p n
  writes p n w g = let go = g w.later in goes_on go.0 w go.1

  head_IsBehind : IsBehind k P m new k.list
  head_IsBehind = record {
    inside = list.head_inside;
    le = λ ne. absurd (ne refl);
    late = λ ne e. absurd (ne refl);
  }

  pub move-Result :
      (p : Stage)
      → p ≢ done
      → Local k P m new p
      → Result k P m new (move k new p m).0 (move k new p m).1
  unfolding move
  move-Result starting ne l = reads (started (m k.list)) (λ e. cc, tt)
  move-Result (started prev_next) ne l =
      let e = base_of_aligned (m k.list) list.ordered.head in
      reads _ (λ e. cc, (head_IsBehind, subst P e (list.ordered.closed k.list list.head_inside)))
  move-Result (reading prev prev_next curr) ne l =
      reads _ (test_entry-Goes k P m new list prev prev_next curr l.0 l.1)
  move-Result (protecting curr curr_next) ne l =
      writes _ _ (protect-IsWritten k P m new list curr curr_next l.0 l.1)
        (test_protect-Goes k P m new list curr curr_next _ l.0 l.1)
  move-Result (keeping prev curr_next) ne l =
      reads _ (λ e. cc, (l.0, rw (unmarked-base curr_next) l.1))
  move-Result (relinking prev prev_next curr) ne l =
      let al = list.aligned curr l.1 in
      let e = base_of_aligned curr al in
      writes _ _ (relink-IsWritten k P m new list prev prev_next curr l.0 l.1 l.2) (λ later. (
        λ e. cc,
        (
          IsBehind-later k P P m _ later new prev l.0,
          rw e l.2,
          rw e l.1,
          is_deleted-aligned curr al,
        ),
      ))
  move-Result (inserting prev next) ne l =
      writes _ _ (store_new-IsWritten k P m new list next) (λ later. (
        λ e. cc,
        (IsBehind-later k P P m _ later new prev l.0, l.1, l.2, l.3, store_self m new next),
      ))
  move-Result (insert_linked prev next) ne l = insert-Result prev next l
  move-Result (switching prev next) ne l =
      writes _ _ (store_new-IsWritten k P m new list next) (λ later.
        (λ e. cc, (IsSame-later k P P m _ later new prev l.0, l.1, store_self m new next)))
  move-Result (switch_linked prev next) ne l = switch-Result prev next l
  move-Result done ne l = absurd (ne refl)
