-- ===== src/Lfmap/Threads/Ranked.antt =====
-- Among entries of one hash value each reference leads to an entry that was added later: what an access
-- of a call keeps of that.
use scot.Base.{
  ℕ, ◌+◌, ◌≡◌, ◌≢◌, ◌≤◌, ◌<◌, ◌⊎◌, inl, inr, refl, sym, ◌∙◌, ap, subst, false, arith, ◌==◌,
  if◌then◌else◌, Bool-cases, ==_iff, ne_of,
}
use scot.Mark.{is_marked_as_deleted, get_same_mark, get_marked_as_protected, get_marked_as_deleted}
use scot.Mark.Written.{base, base_of_aligned, base-protected, base-deleted, base-same_mark}
use scot.Lfmap.Threads.{
  Calls, Links, Stage, starting, started, reading, protecting, keeping, relinking, inserting,
  insert_linked, switching, switch_linked, done, store, cas, move, fresh,
}
use scot.Lfmap.Threads.Ordered.{cas-cases, store_self, store_ne}
use scot.Lfmap.Threads.Locals.{Local}
use scot.Lfmap.Threads.Written.{IsList, ne_of_inside}
use scot.Lfmap.Threads.Moves.{Result, goes_on, publishes}

-- A reference from `a` to an entry of the same hash value.
abbrev pub IsLevel : Calls → ℕ → ℕ → Type 0
IsLevel k a b = (a ≢ k.list) × (b ≢ k.list) × (k.hashv a ≡ k.hashv b)

-- The entries have ranks that rise along such references, and `top` bounds ranks and hash values.
pub record IsRanked (k : Calls) (P : ℕ → Type 0) (m : Links) : Type 0 where
  pub rank : ℕ → ℕ
  pub top : ℕ
  pub rank_le : (a : ℕ) → P a → rank a ≤ top
  pub hashv_le : (a : ℕ) → P a → k.hashv a ≤ top
  pub rises : (a : ℕ) → P a → IsLevel k a (base (m a)) → rank a < rank (base (m a))

-- After an access such a reference is an old one, or leads to the new entry.
abbrev IsOldOr : Links → Links → ℕ → ℕ → Type 0
IsOldOr m n new a = (base (n a) ≡ base (m a)) ⊎ (base (n a) ≡ new)

module _ (k : Calls) (P : ℕ → Type 0) (m : Links) (new : ℕ) (list : IsList k P m new) where
  store-IsOldOr :
      (p r a : ℕ)
      → (a ≡ p → IsLevel k p (base r) → (base r ≡ base (m p)) ⊎ (base r ≡ new))
      → IsLevel k a (base (store m p r a))
      → IsOldOr m (store m p r) new a
  store-IsOldOr p r a f level = elim (Bool-cases (a == p)) [
    | inl t ↦
        let q : a ≡ p = (==_iff a p).0 t in
        let level' : IsLevel k p (base r) =
          subst (λ (x : ℕ). IsLevel k x (base r)) q
            (subst (λ (x : ℕ). IsLevel k a (base x))
              (subst (λ (x : ℕ). store m p r x ≡ r) (sym q) (store_self m p r)) level) in
        rw (q, store_self m p r) (f q level')
    | inr e ↦ rw (store_ne m p r a (ne_of a p e)) (inl refl)
  ]

  cas-IsOldOr :
      (p o r a : ℕ)
      → (m p ≡ o → IsLevel k p (base r) → (base r ≡ base (m p)) ⊎ (base r ≡ new))
      → IsLevel k a (base (cas m p o r a))
      → IsOldOr m (cas m p o r) new a
  cas-IsOldOr p o r a f level = elim (cas-cases m p o r) [
    | inr (_, miss) ↦ rw miss (inl refl)
    | inl (hit, w) ↦
        let level' = subst (λ (n : Links). IsLevel k a (base (n a))) w level in
        rw w (store-IsOldOr p r a (λ _ l. f hit l) level')
  ]

  own-IsOldOr : (r a : ℕ) → P a → IsOldOr m (store m new r) new a
  own-IsOldOr r a inside = rw (store_ne m new r a (ne_of_inside k P m new list a inside)) (inl refl)

  pub move-IsOldOr :
      (p : Stage) (a : ℕ)
      → P a
      → Local k P m new p
      → IsLevel k a (base ((move k new p m).1 a))
      → IsOldOr m (move k new p m).1 new a
  unfolding move
  move-IsOldOr starting a h l level = inl refl
  move-IsOldOr (started _) a h l level = inl refl
  move-IsOldOr (reading _ _ _) a h l level = inl refl
  move-IsOldOr (protecting curr curr_next) a h l level =
      cas-IsOldOr curr curr_next _ a (λ hit _. inl (base-protected curr_next ∙ sym (ap base hit)))
        level
  move-IsOldOr (keeping _ _) a h l level = inl refl
  move-IsOldOr (relinking prev prev_next curr) a h l level =
      let e = base-same_mark curr prev_next (list.aligned curr l.1) in
      cas-IsOldOr prev prev_next (get_same_mark curr prev_next) a
        (λ hit v.
          let le = l.0.le v.0 in
          let lt = l.2 (λ z. v.1 (e ∙ z)) in
          let same = subst (λ (x : ℕ). k.hashv prev ≡ k.hashv x) e v.2 in absurd (omega arith))
        level
  move-IsOldOr (inserting _ next) a h l level = own-IsOldOr next a h
  move-IsOldOr (insert_linked prev next) a h l level =
      cas-IsOldOr prev next new a (λ _ _. inr (base_of_aligned new list.new_aligned)) level
  move-IsOldOr (switching _ next) a h l level = own-IsOldOr next a h
  move-IsOldOr (switch_linked prev next) a h l level =
      cas-IsOldOr prev (get_marked_as_protected next) (get_marked_as_deleted new) a
        (λ _ _. inr (base-deleted new ∙ base_of_aligned new list.new_aligned)) level
  move-IsOldOr done a h l level = inl refl

  -- An entry that an access adds is not deleted.
  pub added-live :
      (p : Stage) (n : Links)
      → Result k P m new p n
      → p ≡ done
      → is_marked_as_deleted (n new) ≡ false
  added-live p n (goes_on ne _ _) e = absurd (ne e)
  added-live p n (publishes _ _ _ _ _ live) e = live

  -- The ranks after it: `new` gets a rank above all others.
  module _ (ranked : IsRanked k P m) (Q : ℕ → Type 0) (n : Links) where
    abbrev rank' : ℕ → ℕ
    rank' a = if a == new then ranked.top + 1 else ranked.rank a

    rank'_old : (a : ℕ) → P a → rank' a ≡ ranked.rank a
    rank'_old a h = let ne = ne_of_inside k P m new list a h in ground arith

    rank'_new : rank' new ≡ ranked.top + 1
    rank'_new = ground arith

    pub extend-IsRanked :
        ((a : ℕ) → Q a → P a ⊎ (a ≡ new))
        → ((a : ℕ) → P a → IsLevel k a (base (n a)) → IsOldOr m n new a)
        → (Q new → IsLevel k new (base (n new)) → ⊥)
        → IsRanked k Q n
    extend-IsRanked from old fresh = record {
      rank = rank';
      top = ranked.top + 1 + k.hashv new;
      rank_le = λ a h. elim (from a h) [
        | inl q ↦ let le = ranked.rank_le a q in rw (rank'_old a q) (omega arith)
        | inr e ↦ rw (e, rank'_new) (omega arith)
      ];
      hashv_le = λ a h. elim (from a h) [
        | inl q ↦ let le = ranked.hashv_le a q in omega arith
        | inr e ↦ rw e (omega arith)
      ];
      rises = λ a h level. elim (from a h) [
        | inr e ↦ absurd (fresh (subst Q e h) (subst (λ (x : ℕ). IsLevel k x (base (n x))) e level))
        | inl q ↦ elim (old a q level) [
          | inr e ↦ let le = ranked.rank_le a q in rw (rank'_old a q, e, rank'_new) (omega arith)
          | inl e ↦
              rw (rank'_old a q, e, rank'_old (base (m a)) (list.ordered.closed a q))
                (ranked.rises a q (subst (IsLevel k a) e level))
        ]
      ];
    }
