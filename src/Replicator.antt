-- ===== src/Replicator.antt =====
-- src/scot-rpli.cc, class ScotReplicator: the use of the hash table. `none` is a loop that ran out of
-- its fuel or an assertion that failed.
pub mod TryInsert
pub mod Latest
pub mod Transfer
pub mod Table
pub mod Add
pub mod Reset
pub mod Frame
pub mod Alone
mod Examples
use scot.Base.{
  ℕ, zero, suc, Bool, true, false, ◌&&◌, Option, none, some, ◌==◌, if◌then◌else◌, ◌>>=◌,
}
use scot.Entry.{SlotEntry, Heap, set_ready}
use scot.Mark.{is_marked_as_deleted, get_unmarked_reference}
use scot.Lfmap.{LockfreeMap, SearchResult, elem_search, elem_insert, elem_switch}

-- One round of the loop of `__ht_try_insert`: the search, then `insert` or `replace`.
unfoldable pub try_round : LockfreeMap → ℕ → Heap → (entry : ℕ) → Option (Bool × Heap)
try_round hasht fuel h entry = do
  s ← elem_search hasht fuel h (h entry).hashv entry
  if s.found
      then elem_switch fuel s.heap entry s.left s.right
      else elem_insert fuel s.heap entry s.left s.right

-- `__ht_try_insert`
unfoldable pub ht_try_insert : LockfreeMap → (rounds fuel : ℕ) → Heap → (entry : ℕ) → Option Heap
ht_try_insert hasht zero fuel h entry = none
ht_try_insert hasht (suc rounds) fuel h entry = do
  (is_success, g) ← try_round hasht fuel h entry
  let again = ht_try_insert hasht rounds fuel g entry
  if is_success then some g else again

-- The loop of `__ht_get_latest_entry`.
unfoldable pub latest_loop : ℕ → Heap → (hashv curr : ℕ) → Option (ℕ × Heap)
latest_loop zero h hashv curr = none
latest_loop (suc fuel) h hashv curr =
    let more = latest_loop fuel (set_ready h curr 0) hashv (get_unmarked_reference (h curr).next) in
    if is_marked_as_deleted (h curr).next && hashv == (h curr).hashv then more else some (curr, h)

-- `__ht_get_latest_entry`, with the assertion at its end.
unfoldable pub ht_get_latest_entry : ℕ → Heap → (curr : ℕ) → Option (ℕ × Heap)
ht_get_latest_entry fuel h curr = do
  (latest, g) ← latest_loop fuel h (h curr).hashv curr
  if (h curr).hashv == (g latest).hashv then some (latest, g) else none
