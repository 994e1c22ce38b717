-- ===== src/Lfmap/Threads/Goes.antt =====
-- Between two accesses: where the tests of `__elemSearch` lead, and that the local variables keep their
-- promises there.
use scot.Base.{
  ℕ, ◌≡◌, ◌≢◌, ◌≤◌, inl, inr, sym, false, not, ◌&&◌, ◌||◌, arith, ◌==◌, leb, if◌then◌else◌,
  Bool-cases, ==_iff, ne_of,
}
use scot.Mark.{
  is_marked_as_deleted, get_unmarked_reference, get_marked_as_protected, is_same_baseref,
}
use scot.Mark.Written.{base_aligned, base_of_aligned, unmarked-base, is_deleted-aligned}
use scot.Lfmap.Threads.{
  Calls, Links, Stage, reading, protecting, keeping, done, test_entry, test_protect,
}
use scot.Lfmap.Threads.Locals.{IsBehind, IsSame, IsLater, Local}
use scot.Lfmap.Threads.Written.{IsList}

-- A place where the call goes on.
abbrev pub Goes : Calls → (ℕ → Type 0) → Links → (new : ℕ) → Stage → Type 0
Goes k P m new p = (p ≢ done) × Local k P m new p

module _ (k : Calls) (P : ℕ → Type 0) (m : Links) (new : ℕ) (list : IsList k P m new) where
  -- Past an entry whose hash value is not larger.
  test_entry_le :
      (prev prev_next curr : ℕ)
      → IsBehind k P m new prev
      → P curr
      → curr ≢ k.list
      → k.hashv curr ≤ k.hashv new
      → Goes k P m new (
          if is_marked_as_deleted (m curr)
          then reading prev prev_next (get_unmarked_reference (m curr))
          else if k.hashv new == k.hashv curr
          then protecting curr (m curr)
          else keeping curr (m curr))
  test_entry_le prev prev_next curr b inside ne le =
      elim (Bool-cases (is_marked_as_deleted (m curr))) [
        | inl d ↦ rw d (λ e. cc, (b, rw (unmarked-base (m curr)) (list.ordered.closed curr inside)))
        | inr live ↦ elim (Bool-cases (k.hashv new == k.hashv curr)) [
          | inl same ↦
              rw (live, same)
                (
                  λ e. cc,
                  (
                    record {
                      inside = inside;
                      ne = ne;
                      eq = sym ((==_iff (k.hashv new) (k.hashv curr)).0 same);
                    },
                    live,
                  ),
                )
          | inr differ ↦
              rw (live, differ)
                (
                  λ e. cc,
                  (
                    record {
                      inside = inside;
                      le = λ _. le;
                      late = λ _ e. absurd (ne_of (k.hashv new) (k.hashv curr) differ (sym e));
                    },
                    list.ordered.closed curr inside,
                  ),
                )
        ]
      ]

  pub test_entry-Goes :
      (prev prev_next curr : ℕ)
      → IsBehind k P m new prev
      → P curr
      → Goes k P m new (test_entry k new prev prev_next curr (m curr))
  unfolding test_entry
  test_entry-Goes prev prev_next curr b inside =
      elim (Bool-cases (not (curr == k.list) && leb (k.hashv curr) (k.hashv new))) [
        | inl t ↦
            rw t (test_entry_le prev prev_next curr b inside (λ e. ground arith) (ground arith))
        | inr f ↦ elim (Bool-cases (not (is_same_baseref prev_next curr))) [
          | inl differ ↦ rw (f, differ) (λ e. cc, (b, inside, λ ne. ground arith))
          | inr same ↦
              let al = list.aligned curr inside in
              let e = base_of_aligned curr al in
              rw (f, same)
                (λ e. cc, (b, λ ne. rw e (ground arith), rw e inside, is_deleted-aligned curr al))
        ]
      ]

  pub test_protect-Goes :
      (curr curr_next : ℕ) (n : Links)
      → IsSame k P new curr
      → is_marked_as_deleted curr_next ≡ false
      → IsLater P P m n
      → Goes k P n new (test_protect curr curr_next (m curr))
  unfolding test_protect
  test_protect-Goes curr curr_next n s live later =
      elim (Bool-cases (m curr == curr_next || m curr == get_marked_as_protected curr_next)) [
        | inl t ↦ rw (t, unmarked-base curr_next) (λ e. cc, (s, base_aligned curr_next))
        | inr f ↦ elim (Bool-cases (is_marked_as_deleted (m curr))) [
          | inl d ↦
              rw (f, d)
                (
                  λ e. cc,
                  (
                    record {
                      inside = s.inside;
                      le = λ _. omega (arith, s.eq);
                      late = λ _ _. later.deleted curr s.inside d;
                    },
                    list.ordered.closed curr s.inside,
                  ),
                )
          | inr l ↦ rw (f, l) (λ e. cc, (s, l))
        ]
      ]
