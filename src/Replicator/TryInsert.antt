-- ===== src/Replicator/TryInsert.antt =====
-- `__ht_try_insert`: one round succeeds, and makes the entry the one with its hash value.
use scot.Base.{
  ℕ, suc, ◌%◌, ◌≡◌, ◌≢◌, ◌<◌, sym, ◌∙◌, inl, inr, true, false, none, some, List, length, arith,
  ◌==◌, if◌then◌else◌, Option-cases,
}
use scot.Entry.{Heap}
use scot.Mark.{get_unmarked_reference}
use scot.Lfmap.{get_bucket, search_miss, elem_insert}
use scot.Lfmap.Chain.{Cell, has, start, find, last, rest}
use scot.Lfmap.Upsert.{upsert, find-upsert}
use scot.Lfmap.Rewire.{has-find, has_ne, has-last_of_live, OnlyNext}
use scot.Lfmap.Search.{start_aligned}
use scot.Lfmap.Update.{elem_insert-Rewired, elem_switch-Rewired}
use scot.Lfmap.Bucket.{
  IsBucket, IsFresh, Update, inserted, replaced, Update-IsBucket, Update-OnlyNext, Update-frame,
  Chain-rest, last_unmarked,
}
use scot.Lfmap.Find.{hash_table, elem_search-miss, elem_search-hit}
use scot.Replicator.{try_round, ht_try_insert}

module _ (nelem bucket fuel : ℕ) (h : Heap) (entry : ℕ) (cs : List Cell) where
  abbrev pub k : ℕ
  k = (h entry).hashv

  abbrev pub list : ℕ
  list = get_bucket (hash_table nelem bucket) k

  abbrev pub Updated : Heap → Type 0
  Updated g =
      (try_round (hash_table nelem bucket) (suc fuel) h entry ≡ some (true, g))
      × Update h g list k entry cs

  module _ (b : IsBucket h list cs) (f : IsFresh h list k entry cs)
      (enough : length cs < suc fuel) where
    round-inserts : find k cs ≡ none → (g : Heap) × Updated g
    unfolding try_round search_miss elem_insert
    round-inserts e =
        let (g, done, w) =
          elem_insert-Rewired h fuel left right entry
            (start_aligned h list (rest k cs) b.aligned (Chain-rest h list k cs b.chain))
            (last_unmarked h list k list cs b.aligned b.chain head_unmarked) left_ne in
        (
          g,
          (
            rw (elem_search-miss nelem bucket (suc fuel) h k entry cs b enough e) done,
            inserted e w,
          ),
        )
      where
        left : ℕ
        left = last k list cs

        right : ℕ
        right = start list (rest k cs)

        head_unmarked : (h list).next % 4 ≡ 0
        head_unmarked = rw b.head (start_aligned h list cs b.aligned b.chain)

        left_ne : left ≢ entry
        left_ne e = elim (has-last_of_live k list cs) [
          | inl top ↦ f.ne_head (sym e ∙ top)
          | inr inside ↦ has_ne entry left cs f.unused inside e
        ]

    round-replaces : (q : ℕ) → find k cs ≡ some q → (g : Heap) × Updated g
    unfolding try_round
    round-replaces q e =
        let (g, done, w) =
          elem_switch-Rewired h fuel q right entry (unfold get_unmarked_reference in omega arith)
            f.aligned (has_ne entry q cs f.unused (has-find k q cs e)) in
        (
          g,
          (
            rw (elem_search-hit nelem bucket (suc fuel) h k entry cs b enough q e) done,
            replaced q e w,
          ),
        )
      where
        right : ℕ
        right = get_unmarked_reference (h q).next

    -- The first round succeeds, whichever of the two it does.
    pub round-succeeds : (g : Heap) × Updated g
    round-succeeds = elim (Option-cases (find k cs)) [
      | inl e ↦ round-inserts e
      | inr (q, e) ↦ round-replaces q e
    ]

    -- For a list that is a sorted chain, an aligned entry that is neither in it nor its head, and fuel for
    -- more rounds than the list has cells, one round of `__ht_try_insert` suffices: it returns, the bucket stays a sorted chain, the entry is
    -- now the one that is found under its hash value, every other hash value finds what it found
    -- before, only references change, and no entry outside the bucket changes at all.
    pub ht_try_insert-upserts :
        (rounds : ℕ)
        → (g : Heap) × (ht_try_insert (hash_table nelem bucket) (suc rounds) (suc fuel) h entry
            ≡ some g)
          × IsBucket g list (upsert k entry cs)
          × ((j : ℕ) → find j (upsert k entry cs) ≡ (if j == k then some entry else find j cs))
          × OnlyNext h g
          × ((a : ℕ) → a ≢ list → a ≢ entry → has a cs ≡ false → g a ≡ h a)
    unfolding ht_try_insert
    ht_try_insert-upserts rounds =
        let (g, u) = round-succeeds in
        (
          g,
          rw u.0,
          Update-IsBucket h g list k entry cs b f u.1,
          λ j. find-upsert k entry j 0 cs b.sorted,
          Update-OnlyNext h g list k entry cs b f u.1,
          Update-frame h g list k entry cs b f u.1,
        )
