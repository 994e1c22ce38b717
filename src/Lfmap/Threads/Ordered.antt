-- ===== src/Lfmap/Threads/Ordered.antt =====
-- Lists in order: the references of a set of entries, and what a write and a new entry keep of them.
use scot.Base.{
  ℕ, ◌%◌, ◌≡◌, ◌≢◌, ◌≤◌, ◌<◌, ◌⊎◌, inl, inr, sym, false, arith, ◌==◌, Bool-cases, ne_of, ==_iff,
}
use scot.Mark.{is_marked_as_deleted}
use scot.Mark.Written.{base}
use scot.Lfmap.Threads.{Calls, Links, store, cas}

-- A reference `r` that the entry at `a` may hold: its hash value does not fall, and it grows if the
-- entry is not deleted.
abbrev pub Link : Calls → ℕ → ℕ → Type 0
Link k a r =
    a ≢ k.list
    → base r ≢ k.list
    → (k.hashv a ≤ k.hashv (base r))
      × (is_marked_as_deleted r ≡ false → k.hashv a < k.hashv (base r))

-- The entries for which `P` holds refer to each other, in order, and the head is never marked.
pub record IsOrdered (k : Calls) (P : ℕ → Type 0) (m : Links) : Type 0 where
  pub closed : (a : ℕ) → P a → P (base (m a))
  pub order : (a : ℕ) → P a → Link k a (m a)
  pub head : m k.list % 4 ≡ 0

pub store_self : (m : Links) (p r : ℕ) → store m p r p ≡ r
unfolding store
store_self m p r = ground arith

pub store_ne : (m : Links) (p r a : ℕ) → a ≢ p → store m p r a ≡ m a
unfolding store
store_ne m p r a ne = ground arith

-- A CAS that finds what it expects writes, and another one does nothing.
pub cas-cases :
    (m : Links) (p o n : ℕ)
    → ((m p ≡ o) × (cas m p o n ≡ store m p n)) ⊎ ((m p ≢ o) × (cas m p o n ≡ m))
unfolding cas
cas-cases m p o n = elim (Bool-cases (m p == o)) [
  | inl e ↦ inl ((==_iff (m p) o).0 e, rw e)
  | inr e ↦ inr (ne_of (m p) o e, rw e)
]

module _ (k : Calls) (P : ℕ → Type 0) (m : Links) (ord : IsOrdered k P m) where
  -- A write to an entry.
  pub store-IsOrdered :
      (p r : ℕ) → P (base r) → Link k p r → (p ≡ k.list → r % 4 ≡ 0) → IsOrdered k P (store m p r)
  store-IsOrdered p r inside link unmarked = record {
    closed = λ a h. at (λ (x : ℕ). P (base x)) a (ord.closed a h) inside;
    order = λ a h. elim (Bool-cases (a == p)) [
      | inl e ↦ let q : a ≡ p = (==_iff a p).0 e in rw (q, store_self m p r) link
      | inr e ↦ rw (store_ne m p r a (ne_of a p e)) (ord.order a h)
    ];
    head = elim (Bool-cases (k.list == p)) [
      | inl e ↦
          let q : k.list ≡ p = (==_iff k.list p).0 e in rw (q, store_self m p r) (unmarked (sym q))
      | inr e ↦ rw (store_ne m p r k.list (ne_of k.list p e)) ord.head
    ];
  }
    where
      at : (Q : ℕ → Type 0) (a : ℕ) → Q (m a) → Q r → Q (store m p r a)
      at Q a old new = elim (Bool-cases (a == p)) [
        | inl e ↦ let q : a ≡ p = (==_iff a p).0 e in rw (q, store_self m p r) new
        | inr e ↦ rw (store_ne m p r a (ne_of a p e)) old
      ]

  -- An entry more.
  pub extend-IsOrdered :
      (Q : ℕ → Type 0) (new : ℕ)
      → ((a : ℕ) → P a → Q a)
      → ((a : ℕ) → Q a → P a ⊎ (a ≡ new))
      → P (base (m new))
      → Link k new (m new)
      → IsOrdered k Q m
  extend-IsOrdered Q new into from inside link = record {
    closed = λ a h. elim (from a h) [
      | inl old ↦ into _ (ord.closed a old)
      | inr e ↦ rw e (into _ inside)
    ];
    order = λ a h. elim (from a h) [ inl old ↦ ord.order a old | inr e ↦ rw e link ];
    head = ord.head;
  }
