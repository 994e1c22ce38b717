-- ===== src/Lfmap/Threads/Written.antt =====
-- The writes of a call of `__ht_try_insert`: each one leaves the list in order.
use scot.Base.{
  ℕ, ◌%◌, ◌≡◌, ◌≢◌, ◌⊎◌, inl, inr, refl, sym, ◌∙◌, true, false, arith, ◌==◌, Bool-cases, ==_iff,
  ne_of, absurd_both, subst,
}
use scot.Mark.{is_marked_as_deleted, get_marked_as_protected, get_same_mark}
use scot.Mark.Written.{
  base, base-protected, base-same_mark, is_deleted-same_mark, same_mark-aligned,
}
use scot.Lfmap.Threads.{Calls, Links, store, cas}
use scot.Lfmap.Threads.Ordered.{
  Link, IsOrdered, store_self, store_ne, cas-cases, store-IsOrdered, extend-IsOrdered,
}
use scot.Lfmap.Threads.Locals.{IsBehind, IsAhead, IsSame, IsLater}

abbrev pub Or : (ℕ → Type 0) → ℕ → ℕ → Type 0
Or P new a = P a ⊎ (a ≡ new)

-- From `m` to `n` the entries for which `P` holds become those of `Q`, and apart from them only
-- `new` is written.
pub record IsWritten (k : Calls) (P Q : ℕ → Type 0) (m : Links) (new : ℕ) (n : Links) : Type 0 where
  pub ordered : IsOrdered k Q n
  pub later : IsLater P Q m n
  pub untouched : (a : ℕ) → ¬ P a → a ≢ new → n a ≡ m a

pub IsWritten-same :
    (k : Calls) (P : ℕ → Type 0) (m : Links) (new : ℕ) → IsOrdered k P m → IsWritten k P P m new m
IsWritten-same k P m new ord = record {
  ordered = ord;
  later = record { more = λ a h. h; deleted = λ a h e. e };
  untouched = λ a out ne. refl;
}

-- A write to an entry `p` keeps the marks of deletion if it keeps that of `p`.
store-IsLater :
    (P Q : ℕ → Type 0) (m : Links) (p r : ℕ)
    → ((a : ℕ) → P a → Q a)
    → (is_marked_as_deleted (m p) ≡ true → is_marked_as_deleted r ≡ true)
    → IsLater P Q m (store m p r)
store-IsLater P Q m p r into mark = record {
  more = into;
  deleted = λ a h e. elim (Bool-cases (a == p)) [
    | inl t ↦
        let q : a ≡ p = (==_iff a p).0 t in
        rw (q, store_self m p r) (mark (subst (λ (x : ℕ). is_marked_as_deleted (m x) ≡ true) q e))
    | inr t ↦ rw (store_ne m p r a (ne_of a p t)) e
  ];
}

store-untouched :
    (P : ℕ → Type 0) (m : Links) (p r : ℕ) → P p → (a : ℕ) → ¬ P a → store m p r a ≡ m a
store-untouched P m p r inside a out = store_ne m p r a (λ e. out (subst P (sym e) inside))

-- A reference to the same address, when the old one was not marked as deleted.
Link-base :
    (k : Calls) (p o n : ℕ)
    → base n ≡ base o
    → is_marked_as_deleted o ≡ false
    → Link k p o
    → Link k p n
Link-base k p o n e live link a b = let l = link a (λ z. b (e ∙ z)) in rw e (l.0, λ d. l.1 live)

-- The list `m`, its entries `P`, and an entry `new` that is not one of them.
pub record IsList (k : Calls) (P : ℕ → Type 0) (m : Links) (new : ℕ) : Type 0 where
  pub ordered : IsOrdered k P m
  pub aligned : (a : ℕ) → P a → a % 4 ≡ 0
  pub head_inside : P k.list
  pub new_aligned : new % 4 ≡ 0
  pub new_outside : ¬ P new

module _ (k : Calls) (P : ℕ → Type 0) (m : Links) (new : ℕ) (list : IsList k P m new) where
  pub ne_of_inside : (a : ℕ) → P a → a ≢ new
  ne_of_inside a h e = list.new_outside (subst P e h)

  -- The write to `new->next`, before anything refers to `new`.
  pub store_new-IsWritten : (r : ℕ) → IsWritten k P P m new (store m new r)
  store_new-IsWritten r = record {
    ordered = record {
      closed = λ a h. rw (store_ne m new r a (ne_of_inside a h)) (list.ordered.closed a h);
      order = λ a h. rw (store_ne m new r a (ne_of_inside a h)) (list.ordered.order a h);
      head = rw (store_ne m new r k.list (ne_of_inside k.list list.head_inside)) list.ordered.head;
    };
    later = record {
      more = λ a h. h;
      deleted = λ a h e. rw (store_ne m new r a (ne_of_inside a h)) e;
    };
    untouched = λ a out ne. store_ne m new r a ne;
  }

  -- A compare-and-swap that adds no entry.
  pub cas-IsWritten :
      (p o n : ℕ)
      → P p
      → (m p ≡ o → P (base n))
      → (m p ≡ o → Link k p n)
      → (m p ≡ o → p ≡ k.list → n % 4 ≡ 0)
      → (is_marked_as_deleted o ≡ true → is_marked_as_deleted n ≡ true)
      → IsWritten k P P m new (cas m p o n)
  cas-IsWritten p o n inside closed link head mark = elim (cas-cases m p o n) [
    | inl hit ↦ rw hit.1 (record {
      ordered = store-IsOrdered k P m list.ordered p n (closed hit.0) (link hit.0) (head hit.0);
      later = store-IsLater P P m p n (λ a h. h) (λ e. mark (rw hit.0 at e));
      untouched = λ a out ne. store-untouched P m p n inside a out;
    })
    | inr miss ↦ rw miss.1 (IsWritten-same k P m new list.ordered)
  ]

  -- The write that adds `new` behind `p`.
  pub store-IsWritten :
      (p r : ℕ)
      → P p
      → base r ≡ new
      → (p ≡ k.list → r % 4 ≡ 0)
      → (is_marked_as_deleted (m p) ≡ true → is_marked_as_deleted r ≡ true)
      → P (base (m new))
      → Link k new (m new)
      → Link k p r
      → IsWritten k P (Or P new) m new (store m p r)
  store-IsWritten p r inside b head mark closed link_new link = record {
    ordered =
        store-IsOrdered k (Or P new) m
          (extend-IsOrdered k P m list.ordered (Or P new) new (λ a h. inl h) (λ a h. h) closed
            link_new)
          p r (inr b) link head;
    later = store-IsLater P (Or P new) m p r (λ a h. inl h) mark;
    untouched = λ a out ne. store-untouched P m p r inside a out;
  }

  -- The inner loop of `__elemSearch`.
  pub protect-IsWritten :
      (curr curr_next : ℕ)
      → IsSame k P new curr
      → is_marked_as_deleted curr_next ≡ false
      → IsWritten k P P m new (cas m curr curr_next (get_marked_as_protected curr_next))
  protect-IsWritten curr curr_next s live =
      cas-IsWritten curr curr_next (get_marked_as_protected curr_next) s.inside
        (λ e. rw (base-protected curr_next) (rw e at (list.ordered.closed curr s.inside)))
        (λ e.
          Link-base k curr curr_next _ (base-protected curr_next) live
            (subst (Link k curr) e (list.ordered.order curr s.inside)))
        (λ e h. absurd (s.ne h)) (λ d. absurd_both d live)

  -- A strict step in front of `new` and behind it.
  IsBehind-Link :
      (prev curr r : ℕ)
      → IsBehind k P m new prev
      → IsAhead k new curr
      → base r ≡ curr
      → Link k prev r
  IsBehind-Link prev curr r b ahead e p q =
      let l = b.le p in let a = ahead (λ z. q (e ∙ z)) in rw e (omega arith, λ d. omega arith)

  -- The CAS after the loop of `__elemSearch`.
  pub relink-IsWritten :
      (prev prev_next curr : ℕ)
      → IsBehind k P m new prev
      → P curr
      → IsAhead k new curr
      → IsWritten k P P m new (cas m prev prev_next (get_same_mark curr prev_next))
  relink-IsWritten prev prev_next curr b inside ahead =
      let al = list.aligned curr inside in
      let e = base-same_mark curr prev_next al in
      cas-IsWritten prev prev_next (get_same_mark curr prev_next) b.inside (λ _. rw e inside)
        (λ _. IsBehind-Link prev curr (get_same_mark curr prev_next) b ahead e)
        (λ h at_head.
          let z : prev_next % 4 ≡ 0 = head_lem at_head h in
          rw (same_mark-aligned curr prev_next al z) al)
        (λ d. is_deleted-same_mark curr prev_next al ∙ d)
    where
      head_lem : prev ≡ k.list → m prev ≡ prev_next → prev_next % 4 ≡ 0
      head_lem at_head h =
          subst (λ (x : ℕ). x % 4 ≡ 0) h
            (subst (λ (x : ℕ). m x % 4 ≡ 0) (sym at_head) list.ordered.head)
