-- ===== src/Writer/Threads/Held.antt =====
-- The writer lock: one caller at a time is between `__START_WRITE__` and `__END_WRITE__`.
use scot.Base.{
  ℕ, ◌≡◌, ◌≢◌, ◌⊎◌, inl, inr, refl, sym, ◌∙◌, true, false, List, ◌==◌, Bool-cases, ==_iff, ne_of,
  arith, subst, ap,
}
use scot.Entry.{Heap}
use scot.Memory.{Mem}
use scot.Log.{Log}
use scot.Writer.{ConnContext}
use scot.Writer.Threads.{
  Place, outside, locked, chosen, posting, Shared, Access, prepare, start_write, choose, write,
  post, end_write, Callers, put, Turns, none_yet, turn, unlocked,
}

pub outside-cases : (p : Place) → (p ≡ outside) ⊎ (p ≢ outside)
outside-cases outside = inl refl
outside-cases (locked a) = inr (λ e. cc)
outside-cases (chosen a) = inr (λ e. cc)
outside-cases (posting a b c) = inr (λ e. cc)

pub put_self : (place : ℕ → Place) (i : ℕ) (p : Place) → put place i p i ≡ p
put_self place i p = ground arith

pub put_ne : (place : ℕ → Place) (i : ℕ) (p : Place) (j : ℕ) → j ≢ i → put place i p j ≡ place j
put_ne place i p j ne = ground arith

-- A caller inside has the lock to itself.
pub record IsHeld (s : Callers) : Type 0 where
  pub taken : (a : ℕ) → s.place a ≢ outside → s.shared.writer_lock ≡ true
  pub alone : (a b : ℕ) → s.place a ≢ outside → s.place b ≢ outside → a ≡ b

-- A caller stays where it is, enters the lock when it is free, or leaves it.
data Passage (s : Shared) (p : Place) (u : Shared) (q : Place) : Type 0 where
  stays :
      (p ≢ outside → q ≢ outside)
      → (q ≢ outside → p ≢ outside)
      → u.writer_lock ≡ s.writer_lock
      → Passage s p u q
  enters : s.writer_lock ≡ false → u.writer_lock ≡ true → Passage s p u q
  leaves : p ≢ outside → q ≡ outside → Passage s p u q

Access-Passage :
    {quorum : List ConnContext} {s u : Shared} {p q : Place}
    → Access quorum s p u q
    → Passage s p u q
Access-Passage (prepare h) = stays (λ f e. f e) (λ f e. f e) refl
Access-Passage (start_write curr free) = enters free refl
Access-Passage (choose fuel latest h e) = stays (λ f z. cc) (λ f z. cc) refl
Access-Passage (write l m header e) = stays (λ f z. cc) (λ f z. cc) refl
Access-Passage post = stays (λ f z. cc) (λ f z. cc) refl
Access-Passage end_write = leaves (λ z. cc) refl

-- When the lock is free nobody is inside.
pub free-outside :
    (s : Callers) → IsHeld s → s.shared.writer_lock ≡ false → (a : ℕ) → s.place a ≡ outside
free-outside s held free a = elim (outside-cases (s.place a)) [
  | inl e ↦ e
  | inr ne ↦ let t = held.taken a ne in cc
]

module _ (s : Callers) (held : IsHeld s) (i : ℕ) (u : Shared) (p : Place) where
  abbrev after : Callers
  after = record { shared = u; place = put s.place i p }

  -- If the others are outside now.
  one_IsHeld :
      ((a : ℕ) → a ≢ i → s.place a ≡ outside) → (p ≢ outside → u.writer_lock ≡ true) → IsHeld after
  one_IsHeld others lock = record {
    taken = λ a inside. elim (Bool-cases (a == i)) [
      | inl t ↦
          let e : a ≡ i = (==_iff _ _).0 t in
          lock (λ z. inside (ap (put s.place i p) e ∙ put_self s.place i p ∙ z))
      | inr f ↦ let ne = ne_of _ _ f in absurd (inside (put_ne s.place i p a ne ∙ others a ne))
    ];
    alone = λ a b ia ib. is_i a ia ∙ sym (is_i b ib);
  }
    where
      is_i : (a : ℕ) → put s.place i p a ≢ outside → a ≡ i
      is_i a inside = elim (Bool-cases (a == i)) [
        | inl t ↦ (==_iff _ _).0 t
        | inr f ↦ let ne = ne_of _ _ f in absurd (inside (put_ne s.place i p a ne ∙ others a ne))
      ]

  Passage-IsHeld : Passage s.shared (s.place i) u p → IsHeld after
  Passage-IsHeld (enters free taken) = one_IsHeld (λ a ne. free-outside s held free a) (λ _. taken)
  Passage-IsHeld (leaves inside out) =
      one_IsHeld
        (λ a ne. elim (outside-cases (s.place a)) [
          | inl e ↦ e
          | inr ia ↦ absurd (ne (held.alone a i ia inside))
        ])
        (λ z. absurd (z out))
  Passage-IsHeld (stays into from lock) = record {
    taken = λ a inside. lock ∙ held.taken a (before a inside);
    alone = λ a b ia ib. held.alone a b (before a ia) (before b ib);
  }
    where
      before : (a : ℕ) → put s.place i p a ≢ outside → s.place a ≢ outside
      before a inside = elim (Bool-cases (a == i)) [
        | inl t ↦
            let e : a ≡ i = (==_iff _ _).0 t in
            λ z.
              from (λ y. inside (ap (put s.place i p) e ∙ put_self s.place i p ∙ y))
                (subst (λ (x : ℕ). s.place x ≡ outside) e z)
        | inr f ↦ λ z. inside (put_ne s.place i p a (ne_of _ _ f) ∙ z)
      ]

-- In every state that any callers reach in any order, no two are inside.
pub Turns-IsHeld :
    {quorum : List ConnContext} {l : Log} {m : Mem} {h : Heap} {s : Callers}
    → Turns quorum (unlocked l m h) s
    → IsHeld s
Turns-IsHeld none_yet = record {
  taken = λ a ne. absurd (ne refl);
  alone = λ a b ne _. absurd (ne refl);
}
Turns-IsHeld (turn {t} r i {u} {p} a) = Passage-IsHeld t (Turns-IsHeld r) i u p (Access-Passage a)
