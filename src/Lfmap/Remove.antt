-- ===== src/Lfmap/Remove.antt =====
-- What `remove` does to its entry and to the others.
use scot.Base.{
  ℕ, suc, ◌+◌, ◌*◌, ◌/◌, ◌%◌, ◌≡◌, ◌≢◌, ◌==◌, true, false, some, refl, Bool-cases, inl, inr,
  if◌then◌else◌, ap, arith, ◌∙◌,
}
use scot.Entry.{Heap, set_next}
use scot.Mark.{is_marked_reference, get_unmarked_reference, get_marked_as_deleted, is_same_baseref}
use scot.Lfmap.{elem_delete, delete_loop, casv}
use scot.Lfmap.Interface.{remove}
use scot.Lfmap.Update.{set_next_self, set_next_ne}

deleted-marked : (c : ℕ) → is_marked_reference (get_marked_as_deleted c) ≡ true
unfolding is_marked_reference get_marked_as_deleted
deleted-marked c = let e : ((c / 4 * 4 + 1) % 4 == 0) ≡ false = ground arith in rw e refl

deleted-unmarked :
    (c : ℕ) → get_unmarked_reference (get_marked_as_deleted c) ≡ get_unmarked_reference c
unfolding get_unmarked_reference get_marked_as_deleted
deleted-unmarked c = omega arith

same_baseref_refl : (c : ℕ) → is_same_baseref c c ≡ true
unfolding is_same_baseref
same_baseref_refl c = ground arith

self_test : (c : ℕ) → (c == c) ≡ true
self_test c = ground arith

remove_unmarked :
    (fuel : ℕ) (h : Heap) (target : ℕ)
    → is_marked_reference (h target).next ≡ false
    → remove (suc fuel) h target ≡ some (set_next h target (get_marked_as_deleted (h target).next))
unfolding remove elem_delete delete_loop casv
remove_unmarked fuel h target e =
    rw (self_test (h target).next, e, same_baseref_refl (h target).next) refl

remove_marked :
    (fuel : ℕ) (h : Heap) (target : ℕ)
    → is_marked_reference (h target).next ≡ true
    → remove (suc fuel) h target ≡ some h
unfolding remove elem_delete delete_loop
remove_marked fuel h target e = rw e refl

-- `remove` returns in its first round, leaves its entry with a marked reference to the entry that it led to,
-- and changes no other entry. An entry whose reference was marked already, be it as protected, stays as it
-- was, so a protected one is not marked as deleted.
pub remove-marked :
    (fuel : ℕ) (h : Heap) (target : ℕ)
    → (g : Heap) × (remove (suc fuel) h target ≡ some g)
      × (is_marked_reference (g target).next ≡ true)
      × (get_unmarked_reference (g target).next ≡ get_unmarked_reference (h target).next)
      × ((g target).next ≡ (
          if is_marked_reference (h target).next
          then (h target).next
          else get_marked_as_deleted (h target).next))
      × ((a : ℕ) → a ≢ target → g a ≡ h a)
remove-marked fuel h target = elim (Bool-cases (is_marked_reference (h target).next)) [
  | inl marked ↦ (h, remove_marked fuel h target marked, marked, refl, rw marked refl, λ a ne. refl)
  | inr clean ↦
      let r = get_marked_as_deleted (h target).next in
      let here = set_next_self h target r in
      (
        set_next h target r,
        remove_unmarked fuel h target clean,
        ap is_marked_reference here ∙ deleted-marked (h target).next,
        ap get_unmarked_reference here ∙ deleted-unmarked (h target).next,
        rw clean here,
        λ a ne. set_next_ne h target r a ne,
      )
]
