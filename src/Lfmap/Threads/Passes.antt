-- ===== src/Lfmap/Threads/Passes.antt =====
-- The loop of `__elemSearch` in a call that has the list to itself: it comes to an end, since each round
-- goes further along the references.
use scot.Base.{
  ℕ, zero, suc, ◌+◌, ◌*◌, ◌≡◌, ◌≢◌, ◌<◌, inl, inr, true, false, not, ◌&&◌, arith, ◌==◌, leb,
  Bool-cases,
}
use scot.Mark.{is_marked_as_deleted, get_unmarked_reference, is_same_baseref}
use scot.Mark.Written.{unmarked-base}
use scot.Lfmap.Threads.{
  Calls, Links, reading, protecting, keeping, relinking, inserting, test_entry, move,
}
use scot.Lfmap.Threads.Locals.{Local}
use scot.Lfmap.Threads.Goes.{test_entry-Goes}
use scot.Lfmap.Threads.Finite.{measure, measure_le, measure_lt}
use scot.Lfmap.Threads.Finishes.{Finishes, Finishes-move, IsReady}

module _ (k : Calls) (P : ℕ → Type 0) (new : ℕ) (m : Links) (ready : IsReady k P new m) where
  abbrev far : ℕ
  far = ready.ranked.top * (ready.ranked.top + 1) + ready.ranked.top

  abbrev place : ℕ → ℕ
  place = measure k P m ready.list.ordered ready.ranked ready.list.head_inside

  -- The rounds that are left reach the end of the walk.
  abbrev IsEnough : ℕ → ℕ → Type 0
  IsEnough d curr = (0 < d) × (curr ≢ k.list → far + 1 < d + place curr)

  IsEnough-next :
      (d curr : ℕ)
      → P curr
      → curr ≢ k.list
      → IsEnough (suc d) curr
      → IsEnough d (get_unmarked_reference (m curr))
  IsEnough-next d curr inside ne enough =
      let le =
        measure_le k P m ready.list.ordered ready.ranked ready.list.head_inside curr inside in
      let l = enough.1 ne in
      rw (unmarked-base (m curr)) (
        omega arith,
        λ q.
            let lt =
              measure_lt k P m ready.list.ordered ready.ranked ready.list.head_inside curr inside ne
                q in
            omega arith,
      )

  -- With a property of `prev` and `prev_next` that the loop keeps, the call finishes if it does so from
  -- each place where the loop ends.
  module _ (Good : ℕ → ℕ → Type 0)
      (kept : (curr : ℕ) → is_marked_as_deleted (m curr) ≡ false → Good curr (m curr))
      (relinks : (prev prev_next curr : ℕ)
        → Good prev prev_next
        → Local k P m new (relinking prev prev_next curr)
        → Finishes k new (relinking prev prev_next curr) m)
      (inserts : (prev prev_next curr : ℕ)
        → Good prev prev_next
        → P curr
        → is_same_baseref prev_next curr ≡ true
        → Local k P m new (inserting prev curr)
        → Finishes k new (inserting prev curr) m)
      (protects : (curr : ℕ)
        → Local k P m new (protecting curr (m curr))
        → Finishes k new (protecting curr (m curr)) m) where
    search-Finishes :
        (d prev prev_next curr : ℕ)
        → Good prev prev_next
        → Local k P m new (reading prev prev_next curr)
        → IsEnough d curr
        → Finishes k new (reading prev prev_next curr) m
    unfolding test_entry move
    search-Finishes zero prev prev_next curr good l enough = absurd (omega arith)
    search-Finishes (suc d) prev prev_next curr good l enough =
        let g = (test_entry-Goes k P m new ready.list prev prev_next curr l.0 l.1).1 in
        Finishes-move k new (reading prev prev_next curr) m
          (elim (Bool-cases (not (curr == k.list) && leb (k.hashv curr) (k.hashv new))) [
            | inr f ↦ elim (Bool-cases (is_same_baseref prev_next curr)) [
              | inr differ ↦ rw (f, differ) (relinks prev prev_next curr good (rw (f, differ) at g))
              | inl same ↦
                  rw (f, same) (inserts prev prev_next curr good l.1 same (rw (f, same) at g))
            ]
            | inl t ↦
                let ne : curr ≢ k.list = λ e. ground arith in
                let next = IsEnough-next d curr l.1 ne enough in
                elim (Bool-cases (is_marked_as_deleted (m curr))) [
                  | inl dl ↦
                      rw (t, dl) (search-Finishes d prev prev_next _ good (rw (t, dl) at g) next)
                  | inr live ↦ elim (Bool-cases (k.hashv new == k.hashv curr)) [
                    | inl same ↦ rw (t, live, same) (protects curr (rw (t, live, same) at g))
                    | inr differ ↦
                        let h : Local k P m new (keeping curr (m curr)) =
                          rw (t, live, differ) at g in
                        rw (t, live, differ)
                          (Finishes-move k new (keeping curr (m curr)) m (
                            search-Finishes d curr (m curr) _ (kept curr live)
                              (h.0, rw (unmarked-base (m curr)) h.1) next))
                  ]
                ]
          ])

    -- As many rounds as a walk can have are enough.
    pub reading-Finishes :
        (prev prev_next curr : ℕ)
        → Good prev prev_next
        → Local k P m new (reading prev prev_next curr)
        → Finishes k new (reading prev prev_next curr) m
    reading-Finishes prev prev_next curr good l =
        search-Finishes (far + 2) prev prev_next curr good l (omega arith, λ _. omega arith)
