-- ===== src/Slot.antt =====
-- src/scot-slot.cc, class ScotSlot, under any interleaving of its callers: one step for each atomic
-- operation, and one for the store after the count. A thread registers an entry, works on it, and marks it finished; the one that holds the
-- last slot waits for the others and resets the array.
pub mod Count
pub mod Entries
pub mod Invariant
pub mod Safety
pub mod Lost
pub mod Late
pub mod Waits
mod Examples
use scot.Base.{ℕ, ◌+◌, ◌≡◌, ◌≢◌, ◌<◌, ◌≤◌, ◌==◌, if◌then◌else◌, u32}

abbrev pub scot_slot_counts : ℕ
scot_slot_counts = 512

-- The two atomic counters.
pub record Counters : Type 0 where
  pub next_free : ℕ
  pub processed : ℕ

-- Where a thread stands.
pub data Pc : Type 0 where
  idle : Pc  -- before the `fetch_add` of `__get_next_slot`
  waiting : Pc  -- in `__wait_until_reset_finish`
  working : (index : ℕ) → Pc  -- has `index`; before the `fetch_add` of `mark_entry_finished`
  counted : (index : ℕ) → Pc  -- after it, before the store `procd_entry->ready = 0`
  marked : Pc  -- the last slot is marked, in `__wait_until_proc_finish`
  resetting : Pc  -- before `next_free.store(0)`, where the table is reset and the slots are cleared
  clearing : Pc  -- before `processed.store(0)`

-- One atomic operation of one thread. A wait that goes on changes nothing and is left out.
pub data Move (c : Counters) : Pc → Counters → Pc → Type 0 where
  take :
      c.next_free < scot_slot_counts
      → Move c idle (record c { next_free = u32 (c.next_free + 1) }) (working c.next_free)
  full :
      scot_slot_counts ≤ c.next_free
      → Move c idle (record c { next_free = u32 (c.next_free + 1) }) waiting
  retry : c.next_free < scot_slot_counts → Move c waiting c idle
  finish :
      {index : ℕ}
      → Move c (working index) (record c { processed = u32 (c.processed + 1) }) (counted index)
  store_ready : {index : ℕ} → index ≢ 511 → Move c (counted index) c idle
  store_ready_last : {index : ℕ} → index ≡ 511 → Move c (counted index) c marked
  all_processed : c.processed ≡ scot_slot_counts → Move c marked c resetting
  store_next_free : Move c resetting (record c { next_free = 0 }) clearing
  store_processed : Move c clearing (record c { processed = 0 }) idle

abbrev pub update : (ℕ → Pc) → ℕ → Pc → ℕ → Pc
update pc i p j = if i == j then p else pc j

pub record System : Type 0 where
  pub counters : Counters
  pub pc : ℕ → Pc

-- Any one of the `n` threads moves.
pub data Step (n : ℕ) (s : System) : System → Type 0 where
  step :
      (i : ℕ) {c : Counters} {p : Pc}
      → i < n
      → Move s.counters (s.pc i) c p
      → Step n s (record { counters = c; pc = update s.pc i p })

-- The constructor of ScotSlot, with no thread inside.
abbrev pub start : System
start = record { counters = record { next_free = 0; processed = 0 }; pc = λ i. idle }

pub data Reach (n : ℕ) (s : System) : System → Type 0 where
  here : Reach n s s
  later : {t u : System} → Reach n s t → Step n t u → Reach n s u
