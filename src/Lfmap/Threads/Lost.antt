-- ===== src/Lfmap/Threads/Lost.antt =====
-- The CAS after the loop of `__elemSearch` (src/lfmap.cc:194) can unlink an entry whose insertion or
-- replacement has returned true: `prev_next` is read again after `curr_next`, so it can be newer.
use scot.Base.{
  ℕ, zero, suc, ◌%◌, ◌*◌, ◌/◌, ap, ==_iff, ne_of, ◌≡◌, ◌≢◌, ◌<◌, ◌⊎◌, inl, inr, refl, sym, ◌∙◌,
  true, false, not, ◌&&◌, arith, List, [], ◌∷◌, ◌==◌, leb, Bool-cases, subst,
}
use scot.Mark.{
  is_same_baseref, get_same_mark, get_marked_as_protected, get_marked_as_deleted,
  get_unmarked_reference,
}
use scot.Mark.Written.{
  base, base_of_aligned, base-protected, base-deleted, unmarked-base, base-same_mark,
}
use scot.Lfmap.Threads.{
  Calls, Links, Stage, reading, keeping, relinking, inserting, insert_linked, switch_linked, done,
  store, cas, test_entry, test_insert, test_switch, move, State, update, step, run, fresh, IsApart,
}
use scot.Lfmap.Threads.Ordered.{store_self, store_ne}
use scot.Lfmap.Threads.Invariant.{
  update_self, update_ne, IsNode, entry_outside, run-IsSound, fresh-IsSound,
}
use scot.Lfmap.Threads.Unique.{entry_at, entry_at-inside}

-- A call comes to the CASV that adds its entry `new` behind `prev`, by insertion or by replacement, and
-- this will succeed: `r` is the reference that it writes.
abbrev pub IsAdding : Stage → Links → (new prev next r : ℕ) → Type 0
IsAdding p m new prev next r =
    ((p ≡ insert_linked prev next) × (m prev ≡ next) × (r ≡ new))
    ⊎ ((p ≡ switch_linked prev next)
        × (m prev ≡ get_marked_as_protected next)
        × (r ≡ get_marked_as_deleted new))

-- Call `i` has read in `seen` that `next` follows `prev`, where its search will end, and comes to read
-- `prev->next` again; call `j` is about to add its entry between the two.
pub record IsRace (k : Calls) (s : State) (i j prev next seen r : ℕ) : Type 0 where
  pub apart : i ≢ j
  pub reader : s.pc i ≡ keeping prev seen
  pub seen_base : base seen ≡ next
  pub adding : IsAdding (s.pc j) s.next (k.entry j) prev next r
  pub next_aligned : next % 4 ≡ 0
  pub entry_aligned : k.entry j % 4 ≡ 0
  pub entry_ne : k.entry j ≢ next
  pub ends : (next ≡ k.list) ⊎ (k.hashv (k.entry i) < k.hashv next)

step-at :
    (k : Calls) (i : ℕ) (s : State) (p : Stage)
    → s.pc i ≡ p
    → step k i s ≡ record {
      next = (move k (k.entry i) p s.next).1;
      pc = update s.pc i (move k (k.entry i) p s.next).0;
    }
unfolding step
step-at k i s p e = rw e refl

module _ (k : Calls) (s : State) (i j prev next seen r : ℕ)
    (race : IsRace k s i j prev next seen r) where
  -- Call `j` adds its entry and returns.
  abbrev added : State
  added = record { next = store s.next prev r; pc = update s.pc j done }

  step-added : step k j s ≡ added
  unfolding move test_insert test_switch cas
  step-added = elim race.adding [
    | inl (at, linked, e) ↦
        let t : (s.next prev == next) ≡ true = (==_iff (s.next prev) next).1 linked in
        step-at k j s (insert_linked prev next) at ∙ rw (t, e) refl
    | inr (at, linked, e) ↦
        let t : (s.next prev == get_marked_as_protected next) ≡ true =
          (==_iff (s.next prev) (get_marked_as_protected next)).1 linked in
        step-at k j s (switch_linked prev next) at ∙ rw (t, e) refl
  ]

  r_base : base r ≡ k.entry j
  r_base = elim race.adding [
    | inl (_, _, e) ↦ rw e (base_of_aligned (k.entry j) race.entry_aligned)
    | inr (_, _, e) ↦
        rw e (base-deleted (k.entry j) ∙ base_of_aligned (k.entry j) race.entry_aligned)
  ]

  linked_base : base (s.next prev) ≡ next
  linked_base = elim race.adding [
    | inl (_, e, _) ↦ rw e (base_of_aligned next race.next_aligned)
    | inr (_, e, _) ↦ rw e (base-protected next ∙ base_of_aligned next race.next_aligned)
  ]

  -- Call `i` reads the new reference.
  abbrev read : State
  read = record { next = added.next; pc = update added.pc i (reading prev r next) }

  step-read : step k i added ≡ read
  unfolding move
  step-read =
      step-at k i added (keeping prev seen) (update_ne s.pc j done i race.apart ∙ race.reader)
      ∙ rw (store_self s.next prev r, unmarked-base seen, race.seen_base) refl

  -- Its search ends.
  abbrev ended : State
  ended = record { next = added.next; pc = update read.pc i (relinking prev r next) }

  test_entry-ends :
      (curr_next : ℕ) → test_entry k (k.entry i) prev r next curr_next ≡ relinking prev r next
  unfolding test_entry is_same_baseref
  test_entry-ends curr_next =
      let t : (not (next == k.list) && leb (k.hashv next) (k.hashv (k.entry i))) ≡ false =
        elim race.ends [ inl e ↦ ground arith | inr lt ↦ ground arith ] in
      let ne : base r ≢ base next =
        λ e. race.entry_ne (sym r_base ∙ e ∙ base_of_aligned next race.next_aligned) in
      let u : (r / 4 * 4 == next / 4 * 4) ≡ false = ground arith in rw (t, u) refl

  step-ended : step k i read ≡ ended
  unfolding move
  step-ended =
      step-at k i read (reading prev r next) (update_self added.pc i (reading prev r next))
      ∙ rw (test_entry-ends (added.next next)) refl

  -- Its CAS writes the old reference back, with the mark of the new one.
  abbrev lost : State
  lost = record {
    next = store added.next prev (get_same_mark next r);
    pc = update ended.pc i (inserting prev next);
  }

  step-lost : step k i ended ≡ lost
  unfolding move cas
  step-lost =
      let t : (added.next prev == r) ≡ true =
        (==_iff (added.next prev) r).1 (store_self s.next prev r) in
      step-at k i ended (relinking prev r next) (update_self read.pc i (relinking prev r next))
      ∙ rw t refl

  run-lost : run k (j ∷ i ∷ i ∷ i ∷ []) s ≡ lost
  unfolding run
  run-lost =
      ap (λ (t : State). run k (i ∷ i ∷ i ∷ []) t) step-added
      ∙ ap (λ (t : State). run k (i ∷ i ∷ []) t) step-read
      ∙ ap (λ (t : State). run k (i ∷ []) t) step-ended
      ∙ step-lost

  -- Every reference leads where it led before.
  lost-base : (a : ℕ) → base (lost.next a) ≡ base (s.next a)
  lost-base a = elim (Bool-cases (a == prev)) [
    | inl t ↦
        let q : a ≡ prev = (==_iff a prev).0 t in
        rw (q, store_self added.next prev (get_same_mark next r))
          (base-same_mark next r race.next_aligned ∙ sym linked_base)
    | inr t ↦
        let ne = ne_of a prev t in
        rw (store_ne added.next prev (get_same_mark next r) a ne, store_ne s.next prev r a ne) refl
  ]

  adding_ne : s.pc j ≢ done
  adding_ne e = elim race.adding [ inl (at, _, _) ↦ absurd (cc) | inr (at, _, _) ↦ absurd (cc) ]

-- Walks go by the addresses alone.
entry_at-base :
    (k : Calls) (m n : Links)
    → ((a : ℕ) → base (n a) ≡ base (m a))
    → (x : ℕ) → entry_at k n x ≡ entry_at k m x
unfolding entry_at
entry_at-base k m n same zero =
    unmarked-base (n k.list) ∙ same k.list ∙ sym (unmarked-base (m k.list))
entry_at-base k m n same (suc x) =
    unmarked-base (n (entry_at k n x))
    ∙ same (entry_at k n x)
    ∙ sym (unmarked-base (m (entry_at k n x)))
    ∙ ap (λ (a : ℕ). get_unmarked_reference (m a)) (entry_at-base k m n same x)

-- After any accesses of any calls that lead to such a race there are four more after which call `j`
-- has returned, and no walk from the head meets its entry.
pub insert-lost :
    (k : Calls) (first : List ℕ) (i j prev next seen r : ℕ)
    → IsApart k
    → IsRace k (run k first (fresh k)) i j prev next seen r
    → ((run k (j ∷ i ∷ i ∷ i ∷ []) (run k first (fresh k))).pc j ≡ done)
      × ((n : ℕ)
          → entry_at k (run k (j ∷ i ∷ i ∷ i ∷ []) (run k first (fresh k))).next n ≢ k.entry j)
insert-lost k first i j prev next seen r apart race =
    let s = run k first (fresh k) in
    let sound = (run-IsSound k apart first (fresh k) (fresh-IsSound k apart)).0 in
    let going = adding_ne k s i j prev next seen r race in
    let other : i ≢ j = race.apart in
    let same = lost-base k s i j prev next seen r race in
    rw (run-lost k s i j prev next seen r race) (
      ground arith,
      λ n e. entry_outside k apart s.pc j going (
          subst (IsNode k s.pc) (sym (entry_at-base k s.next _ same n) ∙ e)
            (entry_at-inside k (IsNode k s.pc) s.next sound.ordered (inl refl) n)),
    )
