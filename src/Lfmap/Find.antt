-- ===== src/Lfmap/Find.antt =====
-- `search` on a list that holds known cells.
use scot.Base.{ℕ, ◌≡◌, ◌<◌, refl, none, some, List, length}
use scot.Entry.{Heap, scot_hash_cmp}
use scot.Mark.{get_unmarked_reference}
use scot.Lfmap.{LockfreeMap, get_bucket, elem_search, list_search, search_start, search_miss}
use scot.Lfmap.Chain.{Cell, start, find, last, rest}
use scot.Lfmap.Search.{cursor_at, search_loop-miss, search_loop-hit, hit}
use scot.Lfmap.Bucket.{IsBucket}

-- A table whose entries are compared by hash value.
abbrev pub hash_table : (nelem bucket : ℕ) → LockfreeMap
hash_table nelem bucket = record { nelem = nelem; bucket = bucket; compare_func = scot_hash_cmp }

start-cursor :
    (h : Heap) (list : ℕ) (cs : List Cell)
    → (h list).next ≡ start list cs
    → search_start h list ≡ cursor_at h list (start list cs)
unfolding search_start
start-cursor h list cs e = rw (← e)

module _ (nelem bucket fuel : ℕ) (h : Heap) (hashval key : ℕ) (cs : List Cell) where
  abbrev list : ℕ
  list = get_bucket (hash_table nelem bucket) hashval

  module _ (b : IsBucket h list cs) (enough : length cs < fuel) where
    -- In a list that is a sorted chain, with fuel for more rounds than it has cells, a search for a hash
    -- value that no live entry has returns false: on the left the last live entry with no greater hash
    -- value, or the head; on the right the first cell with a greater one, or the head; and what is deleted
    -- between them is unlinked.
    pub elem_search-miss :
        find (h key).hashv cs ≡ none
        → elem_search (hash_table nelem bucket) fuel h hashval key
          ≡ some (
              search_miss h
                (cursor_at h (last (h key).hashv list cs) (start list (rest (h key).hashv cs))))
    unfolding elem_search list_search
    elem_search-miss e =
        rw (start-cursor h list cs b.head)
          (search_loop-miss h list key (h key).hashv b.aligned refl fuel list cs b.chain e enough)

    -- In a list that is a sorted chain, with fuel for more rounds than it has cells, a search for a hash
    -- value that a live entry has returns true with that entry, marks its reference as protected, and
    -- changes nothing else.
    pub elem_search-hit :
        (q : ℕ)
        → find (h key).hashv cs ≡ some q
        → elem_search (hash_table nelem bucket) fuel h hashval key
          ≡ some (hit h q (get_unmarked_reference (h q).next))
    unfolding elem_search list_search
    elem_search-hit q e =
        rw (start-cursor h list cs b.head)
          (search_loop-hit h list key (h key).hashv b.aligned refl fuel list cs q b.chain e enough)
