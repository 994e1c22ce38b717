-- ===== src/Lfmap/Interface.antt =====
-- src/lfmap.cc and src/includes/lfmap.hh, the public functions of LockfreeMap that pass their arguments
-- on, and the layout of a list head.
use scot.Base.{ℕ, ◌*◌, Bool, Option}
use scot.Entry.{Heap}
use scot.Lfmap.{
  LockfreeMap, SearchResult, sizeof_list, elem_insert, elem_switch, elem_delete, elem_cleanups,
  elem_cleanup_after_slot, elem_search,
}

-- The bytes that `__bucket_init` asks for.
abbrev pub bucket_init_sz : (nelem : ℕ) → ℕ
bucket_init_sz nelem = sizeof_list * nelem

unfoldable pub insert : ℕ → Heap → (new prev next : ℕ) → Option (Bool × Heap)
insert fuel h new prev next = elem_insert fuel h new prev next

unfoldable pub replace : ℕ → Heap → (new prev next : ℕ) → Option (Bool × Heap)
replace fuel h new prev next = elem_switch fuel h new prev next

unfoldable pub search : LockfreeMap → ℕ → Heap → (hashval key : ℕ) → Option SearchResult
search m fuel h hashval key = elem_search m fuel h hashval key

unfoldable pub remove : ℕ → Heap → (target : ℕ) → Option Heap
remove fuel h target = elem_delete fuel h target

unfoldable pub cleanup : ℕ → Heap → (list garbage : ℕ) → Option Heap
cleanup fuel h list garbage = elem_cleanups fuel h list garbage

unfoldable pub cleanup_after_slot : ℕ → Heap → (list slot garbage : ℕ) → Option Heap
cleanup_after_slot fuel h list slot garbage = elem_cleanup_after_slot fuel h list slot garbage
