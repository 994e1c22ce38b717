-- ===== src/Lfmap/Threads.antt =====
-- src/scot-rpli.cc, `__ht_try_insert`, with the functions of src/lfmap.cc that it calls, under any
-- interleaving of its callers: one step for each access of a `next` reference in the list's memory.
-- Call number i adds the entry `entry i`, and the hash values of the entries do not change meanwhile.
pub mod Ordered
pub mod Locals
pub mod Written
pub mod Goes
pub mod Moves
pub mod Invariant
pub mod Unique
pub mod Lost
pub mod Kept
pub mod Ranked
pub mod Single
pub mod Finite
pub mod Finishes
pub mod Passes
pub mod Returns
pub mod Progress
pub mod Alone
pub mod AloneSearch
mod Examples
use scot.Base.{ℕ, ◌%◌, ◌≡◌, ◌≢◌, not, ◌&&◌, ◌||◌, List, [], ◌∷◌, ◌==◌, leb, if◌then◌else◌}
use scot.Mark.{
  is_marked_as_deleted, is_marked_as_protected, get_unmarked_reference, get_marked_as_deleted,
  get_marked_as_protected, is_same_baseref, get_same_mark,
}

-- The calls on one list: its head, the hash value at each address, and the entry of each call.
pub record Calls : Type 0 where
  pub list : ℕ
  pub hashv : ℕ → ℕ
  pub entry : ℕ → ℕ

-- Where a call stands: before which access, with the local variables that are still read.
pub data Stage : Type 0 where
  starting : Stage  -- `prev_next = prev->next` of `__elemSearch`, where `prev` is the head
  started : (prev_next : ℕ) → Stage  -- `curr = prev->next`
  reading : (prev prev_next curr : ℕ) → Stage  -- `curr_next = curr->next`
  protecting : (curr curr_next : ℕ) → Stage  -- the CASV of the inner loop
  keeping : (prev curr_next : ℕ) → Stage  -- `prev_next = prev->next`, after `prev = curr`
  relinking : (prev prev_next curr : ℕ) → Stage  -- the CAS after the loop
  inserting : (prev next : ℕ) → Stage  -- `arg_new->next = arg_next` of `__elem_insert`
  insert_linked : (prev next : ℕ) → Stage  -- its CASV
  switching : (prev next : ℕ) → Stage  -- `arg_new->next = arg_next` of `__elem_switch`
  switch_linked : (prev next : ℕ) → Stage  -- its CASV
  done : Stage  -- after `while(!is_success)`

-- The memory: the `next` reference at each address.
abbrev pub Links : Type 0
Links = ℕ → ℕ

unfoldable pub store : Links → ℕ → ℕ → Links
store next p r a = if a == p then r else next a

-- CAS and CASV; the value that CASV returns is `next p`.
unfoldable pub cas : Links → ℕ → ℕ → ℕ → Links
unfolding store
cas next p o n = if next p == o then store next p n else next

-- From `curr_next = curr->next` in `__elemSearch` to the next access.
unfoldable pub test_entry : Calls → (key prev prev_next curr curr_next : ℕ) → Stage
test_entry k key prev prev_next curr curr_next =
    if not (curr == k.list) && leb (k.hashv curr) (k.hashv key)
    then (if is_marked_as_deleted curr_next
        then reading prev prev_next (get_unmarked_reference curr_next)
        else if k.hashv key == k.hashv curr
        then protecting curr curr_next
        else keeping curr curr_next)
    else if not (is_same_baseref prev_next curr)
    then relinking prev prev_next curr
    else inserting prev curr

-- After the CASV of the inner loop, which returned `orig`.
unfoldable pub test_protect : (curr curr_next orig : ℕ) → Stage
test_protect curr curr_next orig =
    if orig == curr_next || orig == get_marked_as_protected curr_next
    then switching curr (get_unmarked_reference curr_next)
    else if is_marked_as_deleted orig
    then keeping curr orig
    else protecting curr orig

-- After the CASV of `__elem_insert`.
unfoldable pub test_insert : (prev next orig : ℕ) → Stage
test_insert prev next orig =
    if orig == next
    then done
    else if not (orig == get_marked_as_protected next)
    then starting
    else inserting prev orig

-- After the CASV of `__elem_switch`.
unfoldable pub test_switch : (prev next orig : ℕ) → Stage
test_switch prev next orig =
    if orig == get_marked_as_protected next
    then done
    else if not (is_marked_as_protected orig)
    then starting
    else switching prev (get_unmarked_reference orig)

-- One access of the call that adds `new`.
unfoldable pub move : Calls → (new : ℕ) → Stage → Links → Stage × Links
unfolding test_entry test_protect test_insert test_switch cas store
move k new starting m = (started (m k.list), m)
move k new (started prev_next) m = (reading k.list prev_next (m k.list), m)
move k new (reading prev prev_next curr) m = (test_entry k new prev prev_next curr (m curr), m)
move k new (protecting curr curr_next) m =
    (test_protect curr curr_next (m curr), cas m curr curr_next (get_marked_as_protected curr_next))
move k new (keeping prev curr_next) m =
    (reading prev (m prev) (get_unmarked_reference curr_next), m)
move k new (relinking prev prev_next curr) m =
    (inserting prev curr, cas m prev prev_next (get_same_mark curr prev_next))
move k new (inserting prev next) m = (insert_linked prev next, store m new next)
move k new (insert_linked prev next) m = (test_insert prev next (m prev), cas m prev next new)
move k new (switching prev next) m = (switch_linked prev next, store m new next)
move k new (switch_linked prev next) m = (
  test_switch prev next (m prev),
  cas m prev (get_marked_as_protected next) (get_marked_as_deleted new),
)
move k new done m = (done, m)

pub record State : Type 0 where
  pub next : Links
  pub pc : ℕ → Stage

abbrev pub update : (ℕ → Stage) → ℕ → Stage → ℕ → Stage
update pc i p j = if j == i then p else pc j

-- Call number `i` makes one access.
unfoldable pub step : Calls → ℕ → State → State
unfolding move
step k i s =
    let (p, m) = move k (k.entry i) (s.pc i) s.next in record { next = m; pc = update s.pc i p }

-- The calls make their accesses in the order of a schedule.
unfoldable pub run : Calls → List ℕ → State → State
unfolding step
run k [] s = s
run k (i ∷ schedule) s = run k schedule (step k i s)

-- `__list_init`, and no call has begun.
abbrev pub fresh : Calls → State
fresh k = record { next = λ a. if a == k.list then k.list else 0; pc = λ i. starting }

-- ScotSlot gives every call an entry of its own; entries and the head are aligned to 8 bytes.
pub record IsApart (k : Calls) : Type 0 where
  pub list_aligned : k.list % 4 ≡ 0
  pub entry_aligned : (i : ℕ) → k.entry i % 4 ≡ 0
  pub entry_ne : (i : ℕ) → k.entry i ≢ k.list
  pub entry_inj : (i j : ℕ) → k.entry i ≡ k.entry j → i ≡ j
