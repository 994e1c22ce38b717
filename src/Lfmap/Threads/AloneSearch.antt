-- ===== src/Lfmap/Threads/AloneSearch.antt =====
-- A search that no other call interrupts makes the same accesses as `__elemSearch` that is modelled as
-- one thread runs it.
use scot.Base.{
  ℕ, zero, suc, ◌≡◌, refl, sym, ◌∙◌, inl, inr, true, false, not, ◌&&◌, ◌||◌, Option, none, some,
  ◌==◌, leb, if◌then◌else◌, Bool-cases, subst,
}
use scot.Entry.{Heap, scot_hash_cmp}
use scot.Mark.{
  is_marked_as_deleted, get_unmarked_reference, get_marked_as_protected, is_same_baseref,
  get_same_mark,
}
use scot.Lfmap.{
  casv, Cursor, SearchResult, Round, returns, continues, relink, advance, keep, protect,
  search_body, search_miss, search_test, search_loop, search_start, list_search,
}
use scot.Lfmap.Search.{cmp_le_zero, cmp_zero}
use scot.Lfmap.Threads.{
  Calls, Links, Stage, starting, reading, protecting, keeping, relinking, inserting, switching,
  test_entry, test_protect, move,
}
use scot.Lfmap.Threads.Alone.{
  Alone, stays, moves, Alone-trans, links, HasHashes, links-casv, casv-HasHashes,
}

-- Where the call stands after a search.
abbrev pub after_search : SearchResult → Stage
after_search r = if r.found then switching r.left r.right else inserting r.left r.right

abbrev pub Finds : Calls → (new : ℕ) → Stage → Links → Option SearchResult → Type 0
Finds k new p m none = Unit
Finds k new p m (some r) = Alone k new p m (after_search r) (links r.heap) × HasHashes k r.heap

-- A round of the loop, or the next one begins.
abbrev pub EndsRound : Calls → (new : ℕ) → Stage → Links → Option Round → Type 0
EndsRound k new p m none = Unit
EndsRound k new p m (some (returns r)) =
    Alone k new p m (after_search r) (links r.heap) × HasHashes k r.heap
EndsRound k new p m (some (continues g d)) =
    Alone k new p m (reading d.prev d.prev_next d.curr) (links g)
    × HasHashes k g
    × (d.curr_next ≡ (g d.curr).next)

EndsRound-after :
    (k : Calls) (new : ℕ) (p q : Stage) (m n : Links) (o : Option Round)
    → Alone k new p m q n
    → EndsRound k new q n o
    → EndsRound k new p m o
EndsRound-after k new p q m n none a r = tt
EndsRound-after k new p q m n (some (returns x)) a r = (Alone-trans a r.0, r.1)
EndsRound-after k new p q m n (some (continues g d)) a r = (Alone-trans a r.0, r.1, r.2)

Finds-after :
    (k : Calls) (new : ℕ) (p q : Stage) (m n : Links) (o : Option SearchResult)
    → Alone k new p m q n
    → Finds k new q n o
    → Finds k new p m o
Finds-after k new p q m n none a r = tt
Finds-after k new p q m n (some x) a r = (Alone-trans a r.0, r.1)

module _ (k : Calls) (new : ℕ) where
  protect_once :
      (h : Heap) (curr curr_next : ℕ)
      → Alone k new
          (protecting curr curr_next)
          (links h)
          (test_protect curr curr_next (h curr).next)
          (links (casv h curr curr_next (get_marked_as_protected curr_next)).1)
  unfolding move
  protect_once h curr curr_next =
      subst (Alone k new (protecting curr curr_next) (links h) _)
        (sym (links-casv h curr curr_next (get_marked_as_protected curr_next))) (moves stays)

  keep_once :
      (g : Heap) (curr orig : ℕ)
      → Alone k new
          (keeping curr orig)
          (links g)
          (reading curr (g curr).next (get_unmarked_reference orig))
          (links g)
  unfolding move
  keep_once g curr orig = moves stays

  protect-EndsRound :
      (fuel : ℕ) (h : Heap) (c : Cursor)
      → HasHashes k h
      → EndsRound k new (protecting c.curr c.curr_next) (links h) (protect fuel h c)
  unfolding protect test_protect casv advance keep
  protect-EndsRound zero h c hashes = tt
  protect-EndsRound (suc fuel) h c hashes =
      let once = protect_once h c.curr c.curr_next in
      let kept =
        casv-HasHashes k h c.curr c.curr_next (get_marked_as_protected c.curr_next) hashes in
      elim (Bool-cases (
        (h c.curr).next == c.curr_next || (h c.curr).next == get_marked_as_protected c.curr_next)) [
          | inl e ↦ rw e (rw e at once, kept)
          | inr e ↦ elim (Bool-cases (is_marked_as_deleted (h c.curr).next)) [
            | inl f ↦
                rw (e, f)
                  (
                    Alone-trans (rw (e, f) at once) (
                        keep_once
                          (casv h c.curr c.curr_next (get_marked_as_protected c.curr_next)).1 c.curr
                          _),
                    kept,
                    refl,
                  )
            | inr f ↦
                rw (e, f)
                  (EndsRound-after k new _ _ _ _ _ (rw (e, f) at once)
                    (protect-EndsRound fuel _ _ kept))
          ]
        ]

  module _ (h : Heap) (hashes : HasHashes k h) where
    search_test_lem :
        (curr : ℕ)
        → search_test scot_hash_cmp h k.list new curr
          ≡ (not (curr == k.list) && leb (k.hashv curr) (k.hashv new))
    unfolding search_test
    search_test_lem curr = rw (cmp_le_zero, hashes curr, hashes new) refl

    -- The loop goes on at an entry.
    search_body-EndsRound :
        (fuel : ℕ) (c : Cursor)
        → search_test scot_hash_cmp h k.list new c.curr ≡ true
        → EndsRound k new
            (test_entry k new c.prev c.prev_next c.curr c.curr_next)
            (links h)
            (search_body scot_hash_cmp fuel h new c)
    unfolding search_body test_entry advance keep
    search_body-EndsRound fuel c test =
        let t = sym (search_test_lem c.curr) ∙ test in
        elim (Bool-cases (is_marked_as_deleted c.curr_next)) [
          | inl e ↦ rw (t, e) (stays, hashes, refl)
          | inr e ↦ elim (Bool-cases (k.hashv new == k.hashv c.curr)) [
            | inl f ↦
                rw (t, e, cmp_zero, hashes new, hashes c.curr, f)
                  (protect-EndsRound fuel h c hashes)
            | inr f ↦
                rw (t, e, cmp_zero, hashes new, hashes c.curr, f)
                  (keep_once h c.curr c.curr_next, hashes, refl)
          ]
        ]

    relink_once :
        (c : Cursor)
        → Alone k new
            (if not (is_same_baseref c.prev_next c.curr)
              then relinking c.prev c.prev_next c.curr
              else inserting c.prev c.curr)
            (links h)
            (inserting c.prev c.curr)
            (links (relink h c))
    unfolding relink move
    relink_once c = elim (Bool-cases (is_same_baseref c.prev_next c.curr)) [
      | inl e ↦ rw e stays
      | inr e ↦ rw e (
          subst (Alone k new (relinking c.prev c.prev_next c.curr) (links h) _)
            (sym (links-casv h c.prev c.prev_next (get_same_mark c.curr c.prev_next)))
            (moves stays))
    ]

    relink-HasHashes : (c : Cursor) → HasHashes k (relink h c)
    unfolding relink
    relink-HasHashes c = elim (Bool-cases (is_same_baseref c.prev_next c.curr)) [
      | inl e ↦ rw e hashes
      | inr e ↦
          rw e (casv-HasHashes k h c.prev c.prev_next (get_same_mark c.curr c.prev_next) hashes)
    ]

    -- The loop ends.
    search_miss-Finds :
        (c : Cursor)
        → search_test scot_hash_cmp h k.list new c.curr ≡ false
        → Finds k new
            (test_entry k new c.prev c.prev_next c.curr c.curr_next)
            (links h)
            (some (search_miss h c))
    unfolding search_miss test_entry
    search_miss-Finds c test =
        let t = sym (search_test_lem c.curr) ∙ test in rw t (relink_once c, relink-HasHashes c)

  read_once :
      (h : Heap) (c : Cursor)
      → c.curr_next ≡ (h c.curr).next
      → Alone k new
          (reading c.prev c.prev_next c.curr)
          (links h)
          (test_entry k new c.prev c.prev_next c.curr c.curr_next)
          (links h)
  unfolding move
  read_once h c e = rw e (moves stays)

  -- What follows a round.
  next-Finds :
      (fuel : ℕ) (p : Stage) (m : Links) (o : Option Round)
      → ((g : Heap) (d : Cursor)
          → HasHashes k g
          → d.curr_next ≡ (g d.curr).next
          → Finds k new
              (reading d.prev d.prev_next d.curr)
              (links g)
              (search_loop scot_hash_cmp fuel g k.list new d))
      → EndsRound k new p m o
      → Finds k new p m (elim o [
        | none ↦ none
        | some (returns r) ↦ some r
        | some (continues g d) ↦ search_loop scot_hash_cmp fuel g k.list new d
      ])
  next-Finds fuel p m none loop r = tt
  next-Finds fuel p m (some (returns x)) loop r = r
  next-Finds fuel p m (some (continues g d)) loop r =
      Finds-after k new _ _ _ _ _ r.0 (loop g d r.1 r.2)

  search_loop-Finds :
      (fuel : ℕ) (h : Heap) (c : Cursor)
      → HasHashes k h
      → c.curr_next ≡ (h c.curr).next
      → Finds k new
          (reading c.prev c.prev_next c.curr)
          (links h)
          (search_loop scot_hash_cmp fuel h k.list new c)
  unfolding search_loop
  search_loop-Finds zero h c hashes e = tt
  search_loop-Finds (suc fuel) h c hashes e =
      Finds-after k new _ _ _ _ _ (read_once h c e)
        (elim (Bool-cases (search_test scot_hash_cmp h k.list new c.curr)) [
          | inl t ↦
              rw (t, search_loop)
                (next-Finds fuel _ _ (search_body scot_hash_cmp fuel h new c)
                  (search_loop-Finds fuel) (search_body-EndsRound h hashes fuel c t))
          | inr t ↦ rw (t, search_loop) (search_miss-Finds h hashes c t)
        ])

  pub list_search-Finds :
      (fuel : ℕ) (h : Heap)
      → HasHashes k h
      → Finds k new starting (links h) (list_search scot_hash_cmp fuel h k.list new)
  unfolding list_search search_start move
  list_search-Finds fuel h hashes =
      Finds-after k new _ _ _ _ _ (moves (moves stays))
        (search_loop-Finds fuel h (search_start h k.list) hashes refl)
