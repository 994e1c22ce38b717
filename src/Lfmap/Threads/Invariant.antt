-- ===== src/Lfmap/Threads/Invariant.antt =====
-- The list and the local variables of every call of `__ht_try_insert`, under any interleaving.
use scot.Base.{
  ℕ, ◌%◌, ◌≡◌, ◌≢◌, ◌⊎◌, inl, inr, refl, sym, ◌∙◌, arith, List, [], ◌∷◌, ◌==◌, Bool-cases, ==_iff,
  ne_of, subst, ap, fun_ext,
}
use scot.Mark.Written.{base_of_aligned}
use scot.Lfmap.Threads.{
  Calls, Links, Stage, starting, started, reading, protecting, keeping, relinking, inserting,
  insert_linked, switching, switch_linked, done, move, State, update, step, run, fresh, IsApart,
}
use scot.Lfmap.Threads.Ordered.{IsOrdered}
use scot.Lfmap.Threads.Locals.{Local, IsLater, Local-later}
use scot.Lfmap.Threads.Written.{Or, IsList}
use scot.Lfmap.Threads.Moves.{Result, goes_on, publishes, move-Result}

-- The head of the list, and the entries of the calls that have returned.
abbrev pub IsNode : Calls → (ℕ → Stage) → ℕ → Type 0
IsNode k pc a = (a ≡ k.list) ⊎ ((i : ℕ) × (k.entry i ≡ a) × (pc i ≡ done))

pub record IsSound (k : Calls) (s : State) : Type 0 where
  pub ordered : IsOrdered k (IsNode k s.pc) s.next
  pub local : (i : ℕ) → Local k (IsNode k s.pc) s.next (k.entry i) (s.pc i)

pub done-cases : (p : Stage) → (p ≡ done) ⊎ (p ≢ done)
done-cases starting = inr (λ e. cc)
done-cases (started a) = inr (λ e. cc)
done-cases (reading a b c) = inr (λ e. cc)
done-cases (protecting a b) = inr (λ e. cc)
done-cases (keeping a b) = inr (λ e. cc)
done-cases (relinking a b c) = inr (λ e. cc)
done-cases (inserting a b) = inr (λ e. cc)
done-cases (insert_linked a b) = inr (λ e. cc)
done-cases (switching a b) = inr (λ e. cc)
done-cases (switch_linked a b) = inr (λ e. cc)
done-cases done = inl refl

pub update_self : (pc : ℕ → Stage) (i : ℕ) (p : Stage) → update pc i p i ≡ p
update_self pc i p = ground arith

pub update_ne : (pc : ℕ → Stage) (i : ℕ) (p : Stage) (j : ℕ) → j ≢ i → update pc i p j ≡ pc j
update_ne pc i p j ne = ground arith

IsOrdered-iff :
    (k : Calls) (P Q : ℕ → Type 0) (m : Links)
    → ((a : ℕ) → P a → Q a)
    → ((a : ℕ) → Q a → P a)
    → IsOrdered k P m
    → IsOrdered k Q m
IsOrdered-iff k P Q m into from ord = record {
  closed = λ a h. into _ (ord.closed a (from a h));
  order = λ a h. ord.order a (from a h);
  head = ord.head;
}

-- A call that has returned makes no access.
pub step-done : (k : Calls) (i : ℕ) (s : State) → s.pc i ≡ done → step k i s ≡ s
unfolding step move
step-done k i s e =
    rw e
      (ap (λ (f : ℕ → Stage). record { next = s.next; pc = f }) (fun_ext (λ j. ground (arith, e))))

module _ (k : Calls) (apart : IsApart k) where
  pub IsNode-aligned : (pc : ℕ → Stage) (a : ℕ) → IsNode k pc a → a % 4 ≡ 0
  IsNode-aligned pc a (inl e) = rw e apart.list_aligned
  IsNode-aligned pc a (inr (i, e, d)) = rw (sym e) (apart.entry_aligned i)

  -- The entry of a call that goes on is not on the list.
  pub entry_outside : (pc : ℕ → Stage) (i : ℕ) → pc i ≢ done → ¬ IsNode k pc (k.entry i)
  entry_outside pc i ne (inl e) = apart.entry_ne i e
  entry_outside pc i ne (inr (j, e, d)) =
      ne (subst (λ (x : ℕ). pc x ≡ done) (apart.entry_inj j i e) d)

  pub sound-IsList :
      (s : State) (i : ℕ)
      → IsSound k s
      → s.pc i ≢ done
      → IsList k (IsNode k s.pc) s.next (k.entry i)
  sound-IsList s i sound ne = record {
    ordered = sound.ordered;
    aligned = IsNode-aligned s.pc;
    head_inside = inl refl;
    new_aligned = apart.entry_aligned i;
    new_outside = entry_outside s.pc i ne;
  }

  module _ (pc : ℕ → Stage) (i : ℕ) (ne : pc i ≢ done) (p : Stage) where
    pub IsNode-into : (a : ℕ) → IsNode k pc a → IsNode k (update pc i p) a
    IsNode-into a (inl e) = inl e
    IsNode-into a (inr (j, e, d)) =
        let other : j ≢ i = λ q. ne (subst (λ (x : ℕ). pc x ≡ done) q d) in
        inr (j, e, update_ne pc i p j other ∙ d)

    pub IsNode-from :
        (a : ℕ) → IsNode k (update pc i p) a → IsNode k pc a ⊎ ((a ≡ k.entry i) × (p ≡ done))
    IsNode-from a (inl e) = inl (inl e)
    IsNode-from a (inr (j, e, d)) = elim (Bool-cases (j == i)) [
      | inl t ↦
          let q : j ≡ i = (==_iff j i).0 t in
          inr (
            sym e ∙ ap k.entry q,
            sym (update_self pc i p) ∙ subst (λ (x : ℕ). update pc i p x ≡ done) q d,
          )
      | inr f ↦ inl (inr (j, e, sym (update_ne pc i p j (ne_of j i f)) ∙ d))
    ]

  -- After one access of call `i`: the list is in order, what the other calls know still holds, and
  -- so does what call `i` knows now.
  module _ (s : State) (i : ℕ) (ne : s.pc i ≢ done) (sound : IsSound k s) (p : Stage)
      (n : Links) where
    abbrev Q : ℕ → Type 0
    Q = IsNode k (update s.pc i p)

    others :
        IsLater (IsNode k s.pc) Q s.next n
        → ((a : ℕ) → ¬ IsNode k s.pc a → a ≢ k.entry i → n a ≡ s.next a)
        → Local k Q n (k.entry i) p
        → (j : ℕ) → Local k Q n (k.entry j) (update s.pc i p j)
    others later untouched own j = elim (Bool-cases (j == i)) [
      | inl t ↦ let q : j ≡ i = (==_iff j i).0 t in rw (q, update_self s.pc i p) own
      | inr f ↦
          let other = ne_of j i f in
          rw (update_ne s.pc i p j other) (
            Local-later k (IsNode k s.pc) Q s.next n later (k.entry j) (s.pc j)
              (λ go.
                untouched (k.entry j) (entry_outside s.pc j go)
                  (λ e. other (apart.entry_inj j i e)))
              (sound.local j))
    ]

    widen : IsLater (IsNode k s.pc) (IsNode k s.pc) s.next n → IsLater (IsNode k s.pc) Q s.next n
    widen later = record { more = IsNode-into s.pc i ne p; deleted = later.deleted }

    after_Result :
        Result k (IsNode k s.pc) s.next (k.entry i) p n
        → IsSound k (record { next = n; pc = update s.pc i p }) × IsLater (IsNode k s.pc) Q s.next n
    after_Result (goes_on go w own) = (
      record {
        ordered =
            IsOrdered-iff k (IsNode k s.pc) Q n (IsNode-into s.pc i ne p)
              (λ a h. elim (IsNode-from s.pc i ne p a h) [ inl q ↦ q | inr q ↦ absurd (go q.1) ])
              w.ordered;
        local = others (widen w.later) w.untouched (
            Local-later k (IsNode k s.pc) Q n n
              (record { more = IsNode-into s.pc i ne p; deleted = λ a h e. e }) (k.entry i) p
              (λ _. refl) own);
      },
      widen w.later,
    )
    after_Result (publishes end w a inside e _) =
        let later : IsLater (IsNode k s.pc) Q s.next n = record {
          more = IsNode-into s.pc i ne p;
          deleted = w.later.deleted;
        } in
        (
          record {
            ordered =
                IsOrdered-iff k (Or (IsNode k s.pc) (k.entry i)) Q n
                  (λ a h. elim h [
                    | inl q ↦ IsNode-into s.pc i ne p a q
                    | inr e ↦ inr (i, sym e, update_self s.pc i p ∙ end)
                  ])
                  (λ a h. elim (IsNode-from s.pc i ne p a h) [ inl q ↦ inl q | inr q ↦ inr q.0 ])
                  w.ordered;
            local = others later w.untouched (rw end tt);
          },
          later,
        )

  -- One access of any call.
  pub step-IsSound :
      (i : ℕ) (s : State)
      → IsSound k s
      → IsSound k (step k i s)
        × IsLater (IsNode k s.pc) (IsNode k (step k i s).pc) s.next (step k i s).next
  unfolding step
  step-IsSound i s sound = elim (done-cases (s.pc i)) [
    | inr ne ↦ after_Result s i ne sound _ _ (
        move-Result k (IsNode k s.pc) s.next (k.entry i) (sound-IsList s i sound ne) (s.pc i) ne
          (sound.local i))
    | inl e ↦
        subst (λ (t : State). IsSound k t × IsLater (IsNode k s.pc) (IsNode k t.pc) s.next t.next)
          (sym (step-done k i s e)) (sound, record { more = λ a h. h; deleted = λ a h d. d })
  ]

  pub run-IsSound :
      (schedule : List ℕ) (s : State)
      → IsSound k s
      → IsSound k (run k schedule s)
        × IsLater (IsNode k s.pc) (IsNode k (run k schedule s).pc) s.next (run k schedule s).next
  unfolding run
  run-IsSound [] s sound = (sound, record { more = λ a h. h; deleted = λ a h d. d })
  run-IsSound (i ∷ schedule) s sound =
      let one = step-IsSound i s sound in
      let rest = run-IsSound schedule (step k i s) one.0 in
      (
        rest.0,
        record {
          more = λ a h. rest.1.more a (one.1.more a h);
          deleted = λ a h d. rest.1.deleted a (one.1.more a h) (one.1.deleted a h d);
        },
      )

  pub fresh-IsSound : IsSound k (fresh k)
  fresh-IsSound =
      let e = base_of_aligned k.list apart.list_aligned in
      record {
        ordered = record {
          closed = λ a h. elim h [
            | inl q ↦ rw q (inl (ground arith))
            | inr (j, _, d) ↦ absurd (not_done d)
          ];
          order = λ a h p q. elim h [ inl z ↦ absurd (p z) | inr (j, _, d) ↦ absurd (not_done d) ];
          head = let z : (fresh k).next k.list ≡ k.list = ground arith in rw z apart.list_aligned;
        };
        local = λ i. tt;
      }
    where
      not_done : starting ≢ done
      not_done e = cc
