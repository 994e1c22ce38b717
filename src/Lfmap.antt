-- ===== src/Lfmap.antt =====
-- src/lfmap.cc and src/includes/lfmap.hh, class LockfreeMap: buckets of circular linked lists with
-- marked references, sorted by hash value. Each function runs by itself here, so a compare-and-swap
-- sees the memory that the function left; a loop takes fuel and gives `none` when that runs out. Threads
-- has the insertion loop under any interleaving of its callers.
pub mod Chain
pub mod Search
pub mod Upsert
pub mod Rewire
pub mod Update
pub mod Bucket
pub mod Find
pub mod Hash
pub mod Interface
pub mod Remove
pub mod Threads
use scot.Base.{
  ℕ, zero, suc, ◌+◌, ◌-◌, ◌*◌, ◌%◌, Bool, true, false, not, ◌&&◌, ◌||◌, Option, none, some, ◌==◌,
  leb, if◌then◌else◌,
}
use scot.Base.Int.{ℤ, is_le_zero, is_zero}
use scot.Entry.{SlotEntry, Heap, set_next}
use scot.Mark.{
  is_marked_as_deleted, is_marked_as_protected, is_marked_reference, get_unmarked_reference,
  get_marked_as_deleted, get_marked_as_protected, is_same_baseref, get_same_mark,
}

-- `bucket` is the address of the array of list heads.
pub record LockfreeMap : Type 0 where
  pub nelem : ℕ
  pub bucket : ℕ
  pub compare_func : SlotEntry → SlotEntry → ℤ

-- CASV(&(p->next), o, n): the value that was there, and the memory after.
unfoldable pub casv : Heap → ℕ → ℕ → ℕ → ℕ × Heap
casv h p o n = ((h p).next, if (h p).next == o then set_next h p n else h)

-- `__elem_insert`, with the number of rounds that its loop may take.
unfoldable pub elem_insert : ℕ → Heap → (new prev next : ℕ) → Option (Bool × Heap)
elem_insert zero h new prev next = none
elem_insert (suc fuel) h new prev next =
    let (orig_next, g) = casv (set_next h new next) prev next new in
    let again = elem_insert fuel g new prev orig_next in
    if orig_next == next
    then some (true, g)
    else if not (orig_next == get_marked_as_protected next)
    then some (false, g)
    else again

-- `__elem_switch`
unfoldable pub elem_switch : ℕ → Heap → (new prev next : ℕ) → Option (Bool × Heap)
elem_switch zero h new prev next = none
elem_switch (suc fuel) h new prev next =
    let (orig_next, g) =
      casv (set_next h new next) prev (get_marked_as_protected next) (get_marked_as_deleted new) in
    let again = elem_switch fuel g new prev (get_unmarked_reference orig_next) in
    if orig_next == get_marked_as_protected next
    then some (true, g)
    else if not (is_marked_as_protected orig_next)
    then some (false, g)
    else again

-- The loop of `__elem_delete`, from the value of `next` that it holds.
unfoldable pub delete_loop : ℕ → Heap → (target next : ℕ) → Option Heap
delete_loop zero h target next = none
delete_loop (suc fuel) h target next =
    let (orig_next, g) = casv h target next (get_marked_as_deleted next) in
    let again = delete_loop fuel g target orig_next in
    if is_marked_reference next
    then some h
    else if is_same_baseref orig_next next
    then some g
    else again

unfoldable pub elem_delete : ℕ → Heap → ℕ → Option Heap
unfolding delete_loop
elem_delete fuel h target = delete_loop fuel h target (h target).next

-- The local variables of the loops over a list.
pub record Cursor : Type 0 where
  pub prev : ℕ
  pub prev_next : ℕ
  pub curr : ℕ
  pub curr_next : ℕ

-- `if (!IS_SAME_BASEREF(prev_next, curr)) CAS(&(prev->next), prev_next, GET_SAME_MARK(curr, prev_next));`
unfoldable pub relink : Heap → Cursor → Heap
relink h c =
    if is_same_baseref c.prev_next c.curr
    then h
    else (casv h c.prev c.prev_next (get_same_mark c.curr c.prev_next)).1

-- `curr = GET_UNMARKED_REFERENCE(curr_next); curr_next = curr->next;`
unfoldable pub advance : Heap → Cursor → Cursor
advance h c =
    let curr = get_unmarked_reference c.curr_next in
    record c { curr = curr; curr_next = (h curr).next }

-- `prev = curr; prev_next = prev->next;`
unfoldable pub keep : Heap → Cursor → Cursor
keep h c = record c { prev = c.curr; prev_next = (h c.curr).next }

-- The body of the loops of `__elem_cleanups` and `__elem_cleanup_after_slot`.
unfoldable pub cleanup_body : Heap → Cursor → Heap × Cursor
unfolding relink casv advance keep
cleanup_body h c =
    if is_marked_as_deleted c.curr_next
    then (h, advance h c)
    else (let g = relink h c in (g, advance g (keep g c)))

unfoldable pub cleanup_loop : ℕ → Heap → (list : ℕ) → Cursor → Option Heap
unfolding cleanup_body
cleanup_loop zero h list c = none
cleanup_loop (suc fuel) h list c =
    let (g, d) = cleanup_body h c in
    let rest = cleanup_loop fuel g list d in if c.curr == list then some (relink h c) else rest

-- The local variables before such a loop; `prev_next` is not initialised, and `garbage` is what it
-- happens to hold.
unfoldable pub cleanup_start : Heap → (prev garbage : ℕ) → Cursor
cleanup_start h prev garbage = record {
  prev = prev;
  prev_next = garbage;
  curr = (h prev).next;
  curr_next = (h (h prev).next).next;
}

unfoldable pub elem_cleanups : ℕ → Heap → (list garbage : ℕ) → Option Heap
unfolding cleanup_loop cleanup_start
elem_cleanups fuel h list garbage = cleanup_loop fuel h list (cleanup_start h list garbage)

unfoldable pub elem_cleanup_after_slot : ℕ → Heap → (list slot garbage : ℕ) → Option Heap
unfolding cleanup_loop cleanup_start
elem_cleanup_after_slot fuel h list slot garbage =
    cleanup_loop fuel h list (cleanup_start h slot garbage)

-- sizeof(struct List), which holds one `ScotSlotEntry`.
abbrev pub sizeof_list : ℕ
sizeof_list = 48

-- `__get_bucket`
unfoldable pub get_bucket : LockfreeMap → ℕ → ℕ
get_bucket m idx = m.bucket + sizeof_list * (if leb m.nelem idx then idx % m.nelem else idx)

unfoldable pub get_bucket_by_idx : LockfreeMap → ℕ → ℕ
get_bucket_by_idx m idx = m.bucket + sizeof_list * idx

-- What a search writes to `*arg_left` and `*arg_right`, what it returns, and the memory after.
pub record SearchResult : Type 0 where
  pub found : Bool
  pub left : ℕ
  pub right : ℕ
  pub heap : Heap

-- How a round of a loop ends: with the result of the function, or with the next round.
pub data Round : Type 0 where
  returns : SearchResult → Round
  continues : Heap → Cursor → Round

-- The inner loop of `__elemSearch`, which protects the entry that was found. `none` is an entry that
-- was deleted meanwhile, and the outer loop goes on with its new `curr_next`.
unfoldable pub protect : ℕ → Heap → Cursor → Option Round
unfolding casv keep advance
protect zero h c = none
protect (suc fuel) h c =
    let (orig, g) = casv h c.curr c.curr_next (get_marked_as_protected c.curr_next) in
    let d = record c { curr_next = orig } in
    let again = protect fuel g d in
    if orig == c.curr_next || orig == get_marked_as_protected c.curr_next
    then some (
        returns (record {
          found = true;
          left = c.curr;
          right = get_unmarked_reference c.curr_next;
          heap = g;
        }))
    else if is_marked_as_deleted orig
    then some (continues g (advance g (keep g d)))
    else again

-- The body of the outer loop of `__elemSearch`.
unfoldable pub search_body :
    (SlotEntry → SlotEntry → ℤ) → ℕ → Heap → (key : ℕ) → Cursor → Option Round
unfolding protect
search_body compare_func fuel h key c =
    if is_marked_as_deleted c.curr_next
    then some (continues h (advance h c))
    else if is_zero (compare_func (h key) (h c.curr))
    then protect fuel h c
    else some (continues h (advance h (keep h c)))

-- What follows the loop: no entry was found, and the entries between are unlinked.
unfoldable pub search_miss : Heap → Cursor → SearchResult
search_miss h c = record { found = false; left = c.prev; right = c.curr; heap = relink h c }

-- The test of the outer loop.
unfoldable pub search_test : (SlotEntry → SlotEntry → ℤ) → Heap → (list key curr : ℕ) → Bool
search_test compare_func h list key curr =
    not (curr == list) && is_le_zero (compare_func (h curr) (h key))

unfoldable pub search_loop :
    (SlotEntry → SlotEntry → ℤ) → ℕ → Heap → (list key : ℕ) → Cursor → Option SearchResult
search_loop compare_func zero h list key c = none
search_loop compare_func (suc fuel) h list key c =
    elim (search_test compare_func h list key c.curr) [
      | false ↦ some (search_miss h c)
      | true ↦ elim (search_body compare_func fuel h key c) [
        | none ↦ none
        | some (returns r) ↦ some r
        | some (continues g d) ↦ search_loop compare_func fuel g list key d
      ]
    ]

-- The local variables before the loop of `__elemSearch`.
unfoldable pub search_start : Heap → (list : ℕ) → Cursor
search_start h list =
    let first = (h list).next in
    record { prev = list; prev_next = first; curr = first; curr_next = (h first).next }

-- `__elemSearch` in the list at an address, and by hash value.
unfoldable pub list_search :
    (SlotEntry → SlotEntry → ℤ) → ℕ → Heap → (list key : ℕ) → Option SearchResult
list_search compare_func fuel h list key =
    search_loop compare_func fuel h list key (search_start h list)

unfoldable pub elem_search : LockfreeMap → ℕ → Heap → (hashval key : ℕ) → Option SearchResult
elem_search m fuel h hashval key = list_search m.compare_func fuel h (get_bucket m hashval) key

-- `__list_init`
unfoldable pub list_init : Heap → ℕ → Heap
list_init h list = set_next h list list

-- `reset`, and the loop of the constructor: `k` lists are left to initialise, up to number `nelem`.
unfoldable pub init_loop : LockfreeMap → ℕ → Heap → Heap
unfolding list_init get_bucket_by_idx
init_loop m zero h = h
init_loop m (suc k) h = init_loop m k (list_init h (get_bucket_by_idx m (m.nelem - suc k)))

unfoldable pub reset : LockfreeMap → Heap → Heap
unfolding init_loop
reset m h = init_loop m m.nelem h

-- The constructor; `bucket` is what `aligned_alloc` returns, and `none` is the call of `abort`.
unfoldable pub lockfree_map :
    ℕ → (SlotEntry → SlotEntry → ℤ) → (bucket : ℕ) → Heap → Option (LockfreeMap × Heap)
unfolding reset
lockfree_map nelem compare_func bucket h =
    let m : LockfreeMap = record { nelem = nelem; bucket = bucket; compare_func = compare_func } in
    if bucket == 0 then none else some (m, reset m h)
