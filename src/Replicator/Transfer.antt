-- ===== src/Replicator/Transfer.antt =====
-- What an insertion or a replacement does to the chains of superseded entries.
use scot.Base.{
  ℕ, suc, ◌+◌, ◌%◌, ◌≡◌, ◌≢◌, ◌≤◌, refl, sym, ap, ◌∙◌, inl, inr, none, some, List, ==_iff, arith,
  ◌==◌, if◌then◌else◌, Bool-cases, ne_of,
}
use scot.Entry.{Heap}
use scot.Mark.{get_unmarked_reference}
use scot.Lfmap.Chain.{Cell, find, last, rest}
use scot.Lfmap.Search.{start_aligned}
use scot.Lfmap.Bucket.{IsBucket, IsFresh, Update, inserted, replaced, Chain-rest, last_unmarked}
use scot.Lfmap.Rewire.{Rewired, OnlyNext-hash}
use scot.Replicator.Latest.{Leads, here, next, find-IsLive}

some_eq : {a c : ℕ} → some a ≡ some c → a ≡ c
some_eq e = cc

none_ne_some : {a : ℕ} → none ≢ some a
none_ne_some e = cc

module _ (h g : Heap) (P Q : ℕ → Type 0) (left new x y : ℕ) (w : Rewired h g left new x y)
    (known : (a : ℕ) → P a → (a ≢ new) × Q a) (unmarked : (h left).next % 4 ≡ 0) where
  hash_kept : (a : ℕ) → (g a).hashv ≡ (h a).hashv
  hash_kept = OnlyNext-hash h g w.fields

  -- A deleted entry is not `left`, so its reference stays.
  next_kept : (a r : ℕ) → P a → r % 4 ≡ 0 → (h a).next ≡ r + 1 → (g a).next ≡ r + 1
  next_kept a r p u q =
      let ne : a ≢ left = λ e. absurd (omega (arith, ap (λ (t : ℕ). (h t).next) e)) in
      rw (w.same a ne (known a p).0) q

  -- The chain stays where its end does.
  Leads-keep : {b n a : ℕ} → (b ≡ left → x % 4 ≡ 0) → Leads h P b n a → Leads g Q b n a
  Leads-keep {b} ends (here p u) = here (known b p).1 (elim (Bool-cases (b == left)) [
    | inl same ↦ let e = (==_iff b left).0 same in rw (e, w.left_next) (ends e)
    | inr differ ↦ rw (w.same b (λ e. ne_of b left differ e) (known b p).0) u
  ])
  Leads-keep ends (next {a} r p q u s l) =
      next r (known a p).1 (next_kept a r p u q) u (hash_kept r ∙ s ∙ sym (hash_kept a))
        (Leads-keep ends l)

  -- The chain grows where `new` replaces its end.
  Leads-grow :
      {n a : ℕ}
      → x ≡ new + 1
      → new % 4 ≡ 0
      → y % 4 ≡ 0
      → (h new).hashv ≡ (h left).hashv
      → Q new
      → Leads h P left n a
      → Leads g Q new (suc n) a
  Leads-grow e u v s qn (here p _) =
      next new (known left p).1 (w.left_next ∙ e) u (hash_kept new ∙ s ∙ sym (hash_kept left))
        (here qn (rw w.new_next v))
  Leads-grow e u v s qn (next {a} r p q z t l) =
      next r (known a p).1 (next_kept a r p z q) z (hash_kept r ∙ t ∙ sym (hash_kept a))
        (Leads-grow e u v s qn l)

module _ (h g : Heap) (list k new : ℕ) (cs : List Cell) (P Q : ℕ → Type 0) (b : IsBucket h list cs)
    (f : IsFresh h list k new cs) (known : (a : ℕ) → P a → (a ≢ new) × Q a) (qn : Q new) where
  -- An entry whose chain ended at the one found for its hash value has a chain to the one found now.
  pub Leads-Update :
      {n a e : ℕ} (j : ℕ)
      → Update h g list k new cs
      → ((h e).hashv ≡ j)
      → (j ≡ k → find k cs ≡ some e)
      → Leads h P e n a
      → (m : ℕ) × (m ≤ suc n) × Leads g Q (if j == k then new else e) m a
  Leads-Update {n} {e} j (inserted none_here w) hash here_if l = elim (Bool-cases (j == k)) [
    | inl same ↦ absurd (none_ne_some (sym none_here ∙ here_if ((==_iff j k).0 same)))
    | inr differ ↦
        let head_unmarked : (h list).next % 4 ≡ 0 =
          rw b.head (start_aligned h list cs b.aligned b.chain) in
        let unmarked = last_unmarked h list k list cs b.aligned b.chain head_unmarked in
        (
          n,
          omega arith,
          rw differ
              (Leads-keep h g P Q (last k list cs) new new _ w known unmarked (λ _. f.aligned) l),
        )
  ]
  Leads-Update {n} {a} {e} j (replaced q found w) hash here_if l =
      let live = find-IsLive h list k q cs b.aligned b.chain found in
      let hash_new : (h new).hashv ≡ (h q).hashv = f.hash ∙ sym live.0 in
      elim (Bool-cases (j == k)) [
        | inl same ↦
            let end : e ≡ q = some_eq (sym (here_if ((==_iff j k).0 same)) ∙ found) in
            let l' : Leads h P q n a = rw end at l in
            (
              suc n,
              omega arith,
              rw same (
                  Leads-grow h g P Q q new (new + 1) _ w known live.1 refl f.aligned
                    (unfold get_unmarked_reference in omega arith) hash_new qn l'),
            )
        | inr differ ↦
            let ne : e ≢ q =
              λ p. ne_of j k differ (sym hash ∙ ap (λ (t : ℕ). (h t).hashv) p ∙ live.0) in
            (
              n,
              omega arith,
              rw differ
                  (Leads-keep h g P Q q new (new + 1) _ w known live.1 (λ p. absurd (ne p)) l),
            )
      ]

  -- The new entry's own chain is empty.
  pub Leads-new : Update h g list k new cs → Leads g Q new 0 new
  Leads-new (inserted e w) =
      here qn (
        rw w.new_next (start_aligned h list (rest k cs) b.aligned (Chain-rest h list k cs b.chain)))
  Leads-new (replaced q e w) =
      here qn (rw w.new_next (unfold get_unmarked_reference in omega arith))
