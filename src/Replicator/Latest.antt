-- ===== src/Replicator/Latest.antt =====
-- `__ht_get_latest_entry`: the entries that superseded one another under one hash value.
use scot.Base.{
  ℕ, zero, suc, ◌+◌, ◌%◌, ◌≡◌, ◌≢◌, ◌<◌, refl, sym, ap, ◌∙◌, inl, inr, true, false, some, List, [],
  ◌∷◌, ==_iff, arith, ◌==◌, Bool-cases, ◌>>=◌,
}
use scot.Entry.{SlotEntry, Heap, set_ready}
use scot.Mark.{is_marked_as_deleted, get_unmarked_reference}
use scot.Lfmap.Chain.{
  Cell, Chain, find, find-nil, find-dead, find-within, find-less, find-some_lt, find-eq,
}
use scot.Lfmap.Search.{start_aligned}
use scot.Replicator.{latest_loop, ht_get_latest_entry}

-- From `a` the references of deleted entries lead, in `n` steps, over entries with one hash value, to
-- `b`, which is not deleted. All entries on the way satisfy `P`.
pub data Leads (h : Heap) (P : ℕ → Type 0) (b : ℕ) : ℕ → ℕ → Type 0 where
  here : P b → (h b).next % 4 ≡ 0 → Leads h P b 0 b
  next :
      {n a : ℕ} (r : ℕ)
      → P a
      → (h a).next ≡ r + 1
      → r % 4 ≡ 0
      → (h r).hashv ≡ (h a).hashv
      → Leads h P b n r
      → Leads h P b (suc n) a

-- Only `ready` differs.
abbrev pub OnlyReady : Heap → Heap → Type 0
OnlyReady h g = (a : ℕ) → g a ≡ record (h a) { ready = (g a).ready }

set_ready_fields : (h : Heap) (p v : ℕ) → OnlyReady h (set_ready h p v)
unfolding set_ready
set_ready_fields h p v a = ground arith

set_ready_self : (h : Heap) (p v : ℕ) → (set_ready h p v p).ready ≡ v
unfolding set_ready
set_ready_self h p v = ground arith

set_ready_ne : (h : Heap) (p v a : ℕ) → a ≢ p → set_ready h p v a ≡ h a
unfolding set_ready
set_ready_ne h p v a ne = ground arith

set_ready_zero : (h : Heap) (p a : ℕ) → (h a).ready ≡ 0 → (set_ready h p 0 a).ready ≡ 0
unfolding set_ready
set_ready_zero h p a e = ground arith

OnlyReady-trans : (h g k : Heap) → OnlyReady h g → OnlyReady g k → OnlyReady h k
OnlyReady-trans h g k d e a = e a ∙ ap (λ (s : SlotEntry). record s { ready = (k a).ready }) (d a)

OnlyReady-next : (h g : Heap) → OnlyReady h g → (a : ℕ) → (g a).next ≡ (h a).next
OnlyReady-next h g e a = ap (λ (s : SlotEntry). s.next) (e a)

OnlyReady-hash : (h g : Heap) → OnlyReady h g → (a : ℕ) → (g a).hashv ≡ (h a).hashv
OnlyReady-hash h g e a = ap (λ (s : SlotEntry). s.hashv) (e a)

pub Leads-OnlyReady :
    (h g : Heap) (P : ℕ → Type 0) {b n a : ℕ} → OnlyReady h g → Leads h P b n a → Leads g P b n a
Leads-OnlyReady h g P {b} e (here p u) = here p (rw (OnlyReady-next h g e b) u)
Leads-OnlyReady h g P e (next {a} r p q u w l) =
    next r p (OnlyReady-next h g e a ∙ q) u
      (OnlyReady-hash h g e r ∙ w ∙ sym (OnlyReady-hash h g e a)) (Leads-OnlyReady h g P e l)

pub Leads-hash :
    (h : Heap) (P : ℕ → Type 0) {b n a : ℕ} → Leads h P b n a → (h b).hashv ≡ (h a).hashv
Leads-hash h P (here p u) = refl
Leads-hash h P (next r p q u w l) = Leads-hash h P l ∙ w

Leads-end : (h : Heap) (P : ℕ → Type 0) {b n a : ℕ} → Leads h P b n a → (h b).next % 4 ≡ 0
Leads-end h P (here p u) = u
Leads-end h P (next r p q u w l) = Leads-end h P l

-- What the loop comes to: it stops at `b`, and clears `ready` on the way.
pub record Reaches (h : Heap) (b a : ℕ) (g : Heap) : Type 0 where
  pub fields : OnlyReady h g
  pub latest : g b ≡ h b
  pub cleared : a ≢ b → (g a).ready ≡ 0
  pub kept : (x : ℕ) → (h x).ready ≡ 0 → (g x).ready ≡ 0

module _ (P : ℕ → Type 0) (b : ℕ) where
  latest_loop-Leads :
      (fuel n a : ℕ) (h : Heap)
      → Leads h P b n a
      → n < fuel
      → (g : Heap) × (latest_loop fuel h (h a).hashv a ≡ some (b, g)) × Reaches h b a g
  unfolding latest_loop
  latest_loop-Leads zero n a h l f = absurd (omega arith)
  latest_loop-Leads (suc fuel) n a h (here p u) f =
      let even : is_marked_as_deleted (h b).next ≡ false =
        unfold is_marked_as_deleted in ground arith in
      (
        h,
        rw even,
        record {
          fields = λ x. refl;
          latest = refl;
          cleared = λ ne. absurd (ne refl);
          kept = λ x e. e;
        },
      )
  latest_loop-Leads (suc fuel) n a h (next {n = m} r p q u w l) f =
      let odd : is_marked_as_deleted (h a).next ≡ true =
        unfold is_marked_as_deleted in ground arith in
      let base : get_unmarked_reference (h a).next ≡ r =
        unfold get_unmarked_reference in omega arith in
      let self : ((h a).hashv == (h a).hashv) ≡ true = ground arith in
      let h' = set_ready h a 0 in
      let step = set_ready_fields h a 0 in
      let hash : (h' r).hashv ≡ (h a).hashv = OnlyReady-hash h h' step r ∙ w in
      let (g, done, reach) =
        latest_loop-Leads fuel m r h' (Leads-OnlyReady h h' P step l) (omega arith) in
      let ne : a ≢ b = λ e. absurd (omega (arith, Leads-end h P l, ap (λ (x : ℕ). (h x).next) e)) in
      (
        g,
        rw (odd, self, base) (rw hash at done),
        record {
          fields = OnlyReady-trans h h' g step reach.fields;
          latest = reach.latest ∙ set_ready_ne h a 0 b (λ e. ne (sym e));
          cleared = λ _. reach.kept a (set_ready_self h a 0);
          kept = λ x e. reach.kept x (set_ready_zero h a x e);
        },
      )

  -- `__ht_get_latest_entry` returns the entry at the end, its assertion holds, and it clears `ready`
  -- of the entry that it began with if that one was superseded.
  pub ht_get_latest_entry-Leads :
      (fuel n a : ℕ) (h : Heap)
      → Leads h P b n a
      → n < fuel
      → (g : Heap) × (ht_get_latest_entry fuel h a ≡ some (b, g)) × Reaches h b a g
  unfolding ht_get_latest_entry
  ht_get_latest_entry-Leads fuel n a h l f =
      let (g, done, reach) = latest_loop-Leads fuel n a h l f in
      let same : ((h a).hashv == (g b).hashv) ≡ true =
        (==_iff _ _).1 (sym (ap (λ (s : SlotEntry). s.hashv) reach.latest ∙ Leads-hash h P l)) in
      (g, rw (done, ◌>>=◌) (rw same), reach)

-- An entry that `find` has carries the hash value and is not marked.
pub find-IsLive :
    (h : Heap) (stop k q : ℕ) (cs : List Cell)
    → stop % 4 ≡ 0
    → Chain h stop cs
    → find k cs ≡ some q
    → ((h q).hashv ≡ k) × ((h q).next % 4 ≡ 0)
find-IsLive h stop k q [] s c e = absurd (find-nil k q e)
find-IsLive h stop k q ((a, j, true) ∷ cs) s c e =
    find-IsLive h stop k q cs s c.5 (sym (find-dead k a j cs (find-within k a j true cs q e)) ∙ e)
find-IsLive h stop k q ((a, j, false) ∷ cs) s c e = elim (Bool-cases (j == k)) [
  | inl same ↦
      let at = find-eq k a j cs q e same in
      rw (← at) (c.2 ∙ (==_iff j k).0 same, omega (arith, c.3, start_aligned h stop cs s c.5))
  | inr differ ↦
      find-IsLive h stop k q cs s c.5
        (sym (find-less k a j cs (find-some_lt k a j cs q e differ)) ∙ e)
]
