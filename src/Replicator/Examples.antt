-- ===== src/Replicator/Examples.antt =====
-- A table of two lists at address 1000 to which two entries with hash value 7 are added: the second
-- replaces the first.
use scot.Base.{
  ℕ, ◌+◌, ◌*◌, ◌%◌, ◌≡◌, ◌≢◌, ◌<◌, ◌≤◌, refl, false, some, List, [], ◌∷◌, All, ◌==◌, if◌then◌else◌,
  arith,
}
use scot.Entry.{Heap}
use scot.Lfmap.{reset, get_bucket, get_bucket_by_idx}
use scot.Lfmap.Chain.{Cell, find}
use scot.Lfmap.Upsert.{upsert}
use scot.Lfmap.Rewire.{OnlyNext}
use scot.Lfmap.Bucket.{IsBucket, IsFresh}
use scot.Lfmap.Find.{hash_table}
use scot.Replicator.{ht_try_insert, ht_get_latest_entry}
use scot.Replicator.Alone.{insert-alone}
use scot.Lfmap.Threads.{Calls, State, starting, done, run}
use scot.Lfmap.Threads.Alone.{links}
use scot.Replicator.Latest.{Reaches}
use scot.Replicator.Table.{head_of, IsTable}
use scot.Replicator.Add.{IsUnused, cells_after, ht_try_insert-IsTable, ht_get_latest_entry-IsTable}
use scot.Replicator.Reset.{reset-IsTable}

abbrev blank : Heap
blank a = record {
  next = 0;
  hashv = 7;
  ready = 1;
  blocked = 1;
  buffer = 0;
  buffer_sz = 0;
  key = 0;
  key_sz = 0;
  msg = 2;
}

abbrev empty : Heap
empty = reset (hash_table 2 1000) blank

abbrev no_cells : ℕ → List Cell
no_cells i = []

empty_table : IsTable 2 1000 empty no_cells []
empty_table = (reset-IsTable 2 1000 blank (omega arith) (omega arith)).0

apart : (a : ℕ) → 2000 ≤ a → (i : ℕ) → i < 2 → a ≢ head_of 2 1000 i
unfolding get_bucket_by_idx
apart a le i lt p = omega arith

first_unused : IsUnused 2 1000 [] 2000
first_unused = record { aligned = omega arith; unused = refl; apart = apart 2000 (omega arith) }

second_unused : IsUnused 2 1000 (2000 ∷ []) 2048
second_unused = record { aligned = omega arith; unused = refl; apart = apart 2048 (omega arith) }

-- The table after the first entry.
abbrev with_first : ℕ → List Cell
with_first = cells_after ((empty 2000).hashv % 2) (empty 2000).hashv 2000 no_cells

added_first :
    (g : Heap) × (ht_try_insert (hash_table 2 1000) 1 1 empty 2000 ≡ some g)
    × IsTable 2 1000 g with_first (2000 ∷ [])
    × OnlyNext empty g
added_first =
    ht_try_insert-IsTable 2 1000 empty no_cells [] 2000 empty_table first_unused 0 0 (omega arith)

abbrev one_entry : Heap
one_entry = added_first.0

added_second :
    (g : Heap) × (ht_try_insert (hash_table 2 1000) 1 2 one_entry 2048 ≡ some g)
    × IsTable 2 1000 g
        (cells_after ((one_entry 2048).hashv % 2) (one_entry 2048).hashv 2048 with_first)
        (2048 ∷ 2000 ∷ [])
    × OnlyNext one_entry g
added_second =
    ht_try_insert-IsTable 2 1000 one_entry with_first (2000 ∷ []) 2048 added_first.2 second_unused 0
      1 (omega arith)

ht_try_insert-IsTable_example :
    (g : Heap) × (ht_try_insert (hash_table 2 1000) 1 2 one_entry 2048 ≡ some g)
    × IsTable 2 1000 g
        (cells_after ((one_entry 2048).hashv % 2) (one_entry 2048).hashv 2048 with_first)
        (2048 ∷ 2000 ∷ [])
    × OnlyNext one_entry g
ht_try_insert-IsTable_example =
    ht_try_insert-IsTable 2 1000 one_entry with_first (2000 ∷ []) 2048 added_first.2 second_unused 0
      1 (omega arith)

abbrev two_entries : Heap
two_entries = added_second.0

abbrev with_second : ℕ → List Cell
with_second = cells_after ((one_entry 2048).hashv % 2) (one_entry 2048).hashv 2048 with_first

ht_get_latest_entry-IsTable_example :
    (b : ℕ) × (g : Heap) × (find
        (two_entries 2000).hashv
        (with_second ((two_entries 2000).hashv % 2))
      ≡ some b)
    × (ht_get_latest_entry 2 two_entries 2000 ≡ some (b, g))
    × Reaches two_entries b 2000 g
ht_get_latest_entry-IsTable_example =
    ht_get_latest_entry-IsTable 2 1000 two_entries with_second (2048 ∷ 2000 ∷ []) 2000 2
      added_second.2 refl (omega arith)

-- One list at address 1000, with the entry at 2000; the entry at 2048 is still outside.
abbrev small : Heap
small a =
    if a == 1000
    then record (blank a) { next = 2000 }
    else if a == 2000
    then record (blank a) { next = 1000 }
    else blank a

abbrev one_cell : List Cell
one_cell = (2000, 7, false) ∷ []

small-IsBucket : IsBucket small (get_bucket (hash_table 1 1000) 7) one_cell
unfolding get_bucket get_bucket_by_idx
small-IsBucket = record {
  aligned = omega arith;
  head = refl;
  chain = (omega arith, λ e. omega arith, refl, refl, refl, tt);
  sorted = (omega arith, tt);
}

small-IsFresh : IsFresh small (get_bucket (hash_table 1 1000) 7) 7 2048 one_cell
unfolding get_bucket get_bucket_by_idx
small-IsFresh = record {
  aligned = omega arith;
  ne_head = λ e. omega arith;
  hash = refl;
  unused = refl;
}

-- The call that adds the entry at 2048, and calls that add those behind it.
abbrev small_calls : Calls
small_calls = record { list = 1000; hashv = λ a. (small a).hashv; entry = λ i. 2048 + 4 * i }

abbrev small_state : State
small_state = record { next = links small; pc = λ i. starting }

insert-alone_example :
    (schedule : List ℕ) × All (λ j. j ≡ 0) schedule
    × (g : Heap) × (ht_try_insert (hash_table 1 1000) 1 2 small 2048 ≡ some g)
    × ((run small_calls schedule small_state).pc 0 ≡ done)
    × ((run small_calls schedule small_state).next ≡ links g)
    × IsBucket g 1000 (upsert 7 2048 one_cell)
unfolding get_bucket get_bucket_by_idx
insert-alone_example =
    insert-alone 1 1000 small_calls 0 small_state small one_cell refl (λ a. refl) refl refl
      small-IsBucket small-IsFresh
