-- ===== src/Lfmap/Search.antt =====
-- `__elemSearch` on a list of known cells: which entries it returns, and what it writes.
use scot.Base.{
  ℕ, zero, suc, ◌+◌, ◌%◌, ◌≡◌, ◌≢◌, ◌≤◌, ◌<◌, refl, true, false, Option, none, some, List, [], ◌∷◌,
  ◌*◌, ◌/◌, ◌∙◌, sym, inl, inr, Bool-cases, arith, ◌==◌, ltb, leb, length,
}
use scot.Base.Int.{is_le_zero, is_zero}
use scot.Entry.{SlotEntry, Heap, set_next, scot_hash_cmp}
use scot.Mark.{get_unmarked_reference, is_marked_as_deleted, get_marked_as_protected}
use scot.Lfmap.{
  Cursor, SearchResult, search_loop, search_test, continues, returns, search_miss, search_body,
  protect, casv, advance, keep,
}
use scot.Lfmap.Chain.{Cell, start, Chain, find, last, rest}
use scot.Lfmap.Chain.{
  find-nil, find-dead, find-less, find-within, find-eq, find-none_lt, find-some_lt,
}

pub cmp_le_zero : (a b : SlotEntry) → is_le_zero (scot_hash_cmp a b) ≡ leb a.hashv b.hashv
unfolding scot_hash_cmp
cmp_le_zero a b = ground arith

pub cmp_zero : (a b : SlotEntry) → is_zero (scot_hash_cmp a b) ≡ (a.hashv == b.hashv)
unfolding scot_hash_cmp
cmp_zero a b = ground arith

-- Between rounds the references in the local variables are those in memory.
abbrev pub cursor_at : Heap → ℕ → ℕ → Cursor
cursor_at h p q = record { prev = p; prev_next = (h p).next; curr = q; curr_next = (h q).next }

pub start_aligned :
    (h : Heap) (stop : ℕ) (cs : List Cell) → stop % 4 ≡ 0 → Chain h stop cs → start stop cs % 4 ≡ 0
start_aligned h stop [] s c = s
start_aligned h stop ((a, k, dead) ∷ cs) s c = c.0

pub get_unmarked-start :
    (h : Heap) (stop : ℕ) (cs : List Cell)
    → stop % 4 ≡ 0
    → Chain h stop cs
    → (x : ℕ) → x ≡ start stop cs
    → get_unmarked_reference x ≡ start stop cs
unfolding get_unmarked_reference
get_unmarked-start h stop cs s c x e = omega (arith, start_aligned h stop cs s c)

-- One round, at entry `q`, by the references alone.
module _ (h : Heap) (stop key fuel p q : ℕ) where
  abbrev loop : ℕ → ℕ → ℕ → Option SearchResult
  loop n a b = search_loop scot_hash_cmp n h stop key (cursor_at h a b)

  ends :
      search_test scot_hash_cmp h stop key q ≡ false
      → loop (suc fuel) p q ≡ some (search_miss h (cursor_at h p q))
  unfolding search_loop
  ends t = rw (t, search_loop)

  goes_on :
      (g : Heap) (c : Cursor)
      → search_test scot_hash_cmp h stop key q ≡ true
      → search_body scot_hash_cmp fuel h key (cursor_at h p q) ≡ some (continues g c)
      → loop (suc fuel) p q ≡ search_loop scot_hash_cmp fuel g stop key c
  unfolding search_loop
  goes_on g c t e = rw (t, search_loop) (rw (e, search_loop))

  test_true : q ≢ stop → (h q).hashv ≤ (h key).hashv → search_test scot_hash_cmp h stop key q ≡ true
  unfolding search_test
  test_true ne le = rw cmp_le_zero (ground arith)

  round_at_stop : q ≡ stop → loop (suc fuel) p q ≡ some (search_miss h (cursor_at h p q))
  round_at_stop e = ends (unfold search_test in ground arith)

  round_beyond :
      (h key).hashv < (h q).hashv → loop (suc fuel) p q ≡ some (search_miss h (cursor_at h p q))
  unfolding search_test
  round_beyond e = ends (rw cmp_le_zero (ground arith))

  module _ (r : ℕ) (hr : r % 4 ≡ 0) where
    body_dead :
        (h q).next ≡ r + 1
        → search_body scot_hash_cmp fuel h key (cursor_at h p q)
          ≡ some (continues h (cursor_at h p r))
    unfolding search_body advance is_marked_as_deleted get_unmarked_reference
    body_dead e =
        let odd : ((h q).next % 2 == 0) ≡ false = ground arith in
        let base : (h q).next / 4 * 4 ≡ r = omega arith in rw (odd, base)

    body_less :
        (h q).hashv < (h key).hashv
        → (h q).next ≡ r
        → search_body scot_hash_cmp fuel h key (cursor_at h p q)
          ≡ some (continues h (cursor_at h q r))
    unfolding search_body advance keep is_marked_as_deleted get_unmarked_reference
    body_less lt e =
        let even : ((h q).next % 2 == 0) ≡ true = ground arith in
        let base : (h q).next / 4 * 4 ≡ r = omega arith in
        let differ : ((h key).hashv == (h q).hashv) ≡ false = ground arith in
        rw (even, cmp_zero, differ, base)

    round_dead :
        q ≢ stop
        → (h q).hashv ≤ (h key).hashv
        → (h q).next ≡ r + 1
        → loop (suc fuel) p q ≡ loop fuel p r
    round_dead ne le e = goes_on h (cursor_at h p r) (test_true ne le) (body_dead e)

    round_less :
        q ≢ stop
        → (h q).hashv < (h key).hashv
        → (h q).next ≡ r
        → loop (suc fuel) p q ≡ loop fuel q r
    round_less ne lt e = goes_on h (cursor_at h q r) (test_true ne (omega arith)) (body_less lt e)

-- What a search that finds `q` returns: it leaves the mark on the reference to `r`.
abbrev pub hit : Heap → ℕ → ℕ → SearchResult
hit h q r = record { found = true; left = q; right = r; heap = set_next h q (r + 2) }

module _ (h : Heap) (stop key fuel p q r : ℕ) (hr : r % 4 ≡ 0) where
  body_hit :
      (h q).hashv ≡ (h key).hashv
      → (h q).next ≡ r
      → search_body scot_hash_cmp (suc fuel) h key (cursor_at h p q) ≡ some (returns (hit h q r))
  unfolding search_body protect casv is_marked_as_deleted get_unmarked_reference
      get_marked_as_protected
  body_hit same e =
      let even : ((h q).next % 2 == 0) ≡ true = ground arith in
      let base : (h q).next / 4 * 4 ≡ r = omega arith in
      let eq : ((h key).hashv == (h q).hashv) ≡ true = ground arith in
      let self : ((h q).next == (h q).next) ≡ true = ground arith in
      rw (even, cmp_zero, eq, self, base)

  round_hit :
      q ≢ stop
      → (h q).hashv ≡ (h key).hashv
      → (h q).next ≡ r
      → search_loop scot_hash_cmp (suc (suc fuel)) h stop key (cursor_at h p q) ≡ some (hit h q r)
  unfolding search_loop
  round_hit ne same e =
      rw (test_true h stop key fuel p q ne (omega arith), search_loop)
        (rw (body_hit same e, search_loop))

module _ (h : Heap) (stop key k : ℕ) (aligned : stop % 4 ≡ 0) (hash : (h key).hashv ≡ k) where
  -- If `find` has nothing, the search ends behind the last entry that is not deleted.
  pub search_loop-miss :
      (fuel p : ℕ) (cs : List Cell)
      → Chain h stop cs
      → find k cs ≡ none
      → length cs < fuel
      → search_loop scot_hash_cmp fuel h stop key (cursor_at h p (start stop cs))
        ≡ some (search_miss h (cursor_at h (last k p cs) (start stop (rest k cs))))
  unfolding last rest
  search_loop-miss zero p cs c e f = absurd (omega arith)
  search_loop-miss (suc fuel) p [] c e f = round_at_stop h stop key fuel p stop refl
  search_loop-miss (suc fuel) p ((a, j, true) ∷ cs) c e f = elim (Bool-cases (ltb k j)) [
    | inl beyond ↦ rw beyond (round_beyond h stop key fuel p a (ground arith))
    | inr within ↦ rw within (
        round_dead h stop key fuel p a (start stop cs) (start_aligned h stop cs aligned c.5) c.1
          (ground arith) c.3
        ∙ search_loop-miss fuel p cs c.5 (sym (find-dead k a j cs within) ∙ e) (omega arith))
  ]
  search_loop-miss (suc fuel) p ((a, j, false) ∷ cs) c e f = elim (Bool-cases (ltb k j)) [
    | inl beyond ↦ rw beyond (round_beyond h stop key fuel p a (ground arith))
    | inr within ↦ rw within (
        let less = find-none_lt k a j cs e within in
        round_less h stop key fuel p a (start stop cs) (start_aligned h stop cs aligned c.5) c.1
          (omega (arith, c.2)) (omega (arith, c.3))
        ∙ search_loop-miss fuel a cs c.5 (sym (find-less k a j cs less) ∙ e) (omega arith))
  ]

  -- If `find` has an entry, the search returns it and its successor, and protects it.
  pub search_loop-hit :
      (fuel p : ℕ) (cs : List Cell) (q : ℕ)
      → Chain h stop cs
      → find k cs ≡ some q
      → length cs < fuel
      → search_loop scot_hash_cmp fuel h stop key (cursor_at h p (start stop cs))
        ≡ some (hit h q (get_unmarked_reference (h q).next))
  search_loop-hit zero p cs q c e f = absurd (omega arith)
  search_loop-hit (suc fuel) p [] q c e f = absurd (find-nil k q e)
  search_loop-hit (suc fuel) p ((a, j, true) ∷ cs) q c e f =
      let within = find-within k a j true cs q e in
      round_dead h stop key fuel p a (start stop cs) (start_aligned h stop cs aligned c.5) c.1
        (ground arith) c.3
      ∙ search_loop-hit fuel p cs q c.5 (sym (find-dead k a j cs within) ∙ e) (omega arith)
  search_loop-hit (suc zero) p ((a, j, false) ∷ cs) q c e f = absurd (omega arith)
  search_loop-hit (suc (suc fuel)) p ((a, j, false) ∷ cs) q c e f = elim (Bool-cases (j == k)) [
    | inl same ↦
        let r = start stop cs in
        let hr = start_aligned h stop cs aligned c.5 in
        let next : (h a).next ≡ r = omega (arith, c.3) in
        let here : a ≡ q = find-eq k a j cs q e same in
        let base : get_unmarked_reference (h a).next ≡ r =
          unfold get_unmarked_reference in omega arith in
        rw (← here, base) (round_hit h stop key fuel p a r hr c.1 (ground (arith, c.2)) next)
    | inr differ ↦
        let less = find-some_lt k a j cs q e differ in
        round_less h stop key (suc fuel) p a (start stop cs) (start_aligned h stop cs aligned c.5)
          c.1 (omega (arith, c.2)) (omega (arith, c.3))
        ∙ search_loop-hit (suc fuel) a cs q c.5 (sym (find-less k a j cs less) ∙ e) (omega arith)
  ]
