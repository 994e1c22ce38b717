-- ===== src/Lfmap/Update.antt =====
-- `__elem_insert` and `__elem_switch` after a search: the references that they rewire.
use scot.Base.{
  ℕ, suc, ◌+◌, ◌%◌, ◌≡◌, ◌≢◌, refl, sym, ◌∙◌, inl, inr, true, some, arith, ◌==◌, if◌then◌else◌,
  Bool-cases,
}
use scot.Entry.{Heap, set_next}
use scot.Mark.{is_same_baseref, get_marked_as_protected, get_marked_as_deleted}
use scot.Mark.Laws.{same_mark_unmarked, eq_of_same_baseref}
use scot.Lfmap.{relink, casv, elem_insert, elem_switch, search_miss}
use scot.Lfmap.Search.{cursor_at, hit}
use scot.Lfmap.Rewire.{Rewired, OnlyNext, OnlyNext-trans}

pub set_next_self : (h : Heap) (p r : ℕ) → (set_next h p r p).next ≡ r
unfolding set_next
set_next_self h p r = ground arith

pub set_next_ne : (h : Heap) (p r a : ℕ) → a ≢ p → set_next h p r a ≡ h a
unfolding set_next
set_next_ne h p r a ne = ground arith

pub set_next_fields : (h : Heap) (p r : ℕ) → OnlyNext h (set_next h p r)
unfolding set_next
set_next_fields h p r a = ground arith

casv_hit : (h : Heap) (p o n : ℕ) → (h p).next ≡ o → casv h p o n ≡ (o, set_next h p n)
unfolding casv
casv_hit h p o n e = let t : ((h p).next == o) ≡ true = ground arith in rw t (rw e)

-- After the two writes that add `new` behind `left`.
Rewired-set_next :
    (h g : Heap) (left new x y : ℕ)
    → left ≢ new
    → ((a : ℕ) → a ≢ left → g a ≡ h a)
    → OnlyNext h g
    → Rewired h (set_next (set_next g new y) left x) left new x y
Rewired-set_next h g left new x y ne same fields = record {
  left_next = set_next_self (set_next g new y) left x;
  new_next =
      rw (set_next_ne (set_next g new y) left x new (λ e. ne (sym e))) (set_next_self g new y);
  fields =
      OnlyNext-trans h (set_next g new y) _ (OnlyNext-trans h g _ fields (set_next_fields g new y))
        (set_next_fields (set_next g new y) left x);
  same = λ a p q. set_next_ne (set_next g new y) left x a p ∙ set_next_ne g new y a q ∙ same a p;
}

module _ (h : Heap) (left right : ℕ) (aligned : right % 4 ≡ 0)
    (unmarked : (h left).next % 4 ≡ 0) where
  relink_lem :
      relink h (cursor_at h left right)
      ≡ (if is_same_baseref (h left).next right then h else set_next h left right)
  unfolding relink
  relink_lem = rw (
    same_mark_unmarked right (h left).next aligned unmarked,
    casv_hit h left (h left).next right refl,
  )

  relink_next : (relink h (cursor_at h left right) left).next ≡ right
  relink_next = elim (Bool-cases (is_same_baseref (h left).next right)) [
    | inl same ↦ rw (relink_lem, same) (eq_of_same_baseref _ _ unmarked aligned same)
    | inr differ ↦ rw (relink_lem, differ) (set_next_self h left right)
  ]

  relink_ne : (a : ℕ) → a ≢ left → relink h (cursor_at h left right) a ≡ h a
  relink_ne a ne = elim (Bool-cases (is_same_baseref (h left).next right)) [
    | inl same ↦ rw (relink_lem, same)
    | inr differ ↦ rw (relink_lem, differ) (set_next_ne h left right a ne)
  ]

  relink_fields : OnlyNext h (relink h (cursor_at h left right))
  relink_fields = elim (Bool-cases (is_same_baseref (h left).next right)) [
    | inl same ↦ rw (relink_lem, same) (λ a. refl)
    | inr differ ↦ rw (relink_lem, differ) (set_next_fields h left right)
  ]

-- A search that finds nothing and the insertion after it.
pub elem_insert-Rewired :
    (h : Heap) (fuel left right new : ℕ)
    → right % 4 ≡ 0
    → (h left).next % 4 ≡ 0
    → left ≢ new
    → (g : Heap) × (elem_insert
          (suc fuel)
          (search_miss h (cursor_at h left right)).heap
          new
          left
          right
        ≡ some (true, g))
      × Rewired h g left new new right
unfolding elem_insert search_miss
elem_insert-Rewired h fuel left right new hr hl ne =
    let g = relink h (cursor_at h left right) in
    let next : (set_next g new right left).next ≡ right =
      rw (set_next_ne g new right left ne) (relink_next h left right hr hl) in
    let test : (right == right) ≡ true = ground arith in
    (
      set_next (set_next g new right) left new,
      rw (casv_hit (set_next g new right) left right new next, elem_insert) (rw test),
      Rewired-set_next h g left new new right ne (relink_ne h left right hr hl)
          (relink_fields h left right hr hl),
    )

-- A search that finds `left` and the replacement after it.
pub elem_switch-Rewired :
    (h : Heap) (fuel left right new : ℕ)
    → right % 4 ≡ 0
    → new % 4 ≡ 0
    → left ≢ new
    → (g : Heap) × (elem_switch (suc fuel) (hit h left right).heap new left right ≡ some (true, g))
      × Rewired h g left new (new + 1) right
unfolding elem_switch
elem_switch-Rewired h fuel left right new hr hn ne =
    let g = set_next h left (right + 2) in
    let protected : get_marked_as_protected right ≡ right + 2 =
      unfold get_marked_as_protected in omega arith in
    let deleted : get_marked_as_deleted new ≡ new + 1 =
      unfold get_marked_as_deleted in omega arith in
    let next : (set_next g new right left).next ≡ right + 2 =
      rw (set_next_ne g new right left ne) (set_next_self h left (right + 2)) in
    let test : (right + 2 == right + 2) ≡ true = ground arith in
    (
      set_next (set_next g new right) left (new + 1),
      rw
          (
            protected,
            deleted,
            casv_hit (set_next g new right) left (right + 2) (new + 1) next,
            elem_switch,
          )
          (rw test),
      Rewired-set_next h g left new (new + 1) right ne (set_next_ne h left (right + 2))
          (set_next_fields h left (right + 2)),
    )
