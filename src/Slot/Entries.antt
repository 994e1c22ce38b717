-- ===== src/Slot/Entries.antt =====
-- src/scot-slot.cc, the functions of ScotSlot as one thread runs them by itself, with the array of
-- entries. `none` is a wait that nobody else would end.
use scot.Base.{
  ℕ, zero, suc, ◌+◌, ◌-◌, ◌*◌, ◌≡◌, ◌≢◌, ◌<◌, Option, none, some, ◌==◌, ltb, ◌>>=◌, if◌then◌else◌,
  u32, arith, true, false,
}
use scot.Entry.{SlotEntry, SlotEntryArgs, Heap, write, set_ready}
use scot.Lfmap.{LockfreeMap, reset}
use scot.Slot.{
  Counters, Pc, idle, working, Move, take, finish, store_ready, store_ready_last, all_processed,
  store_next_free, store_processed, scot_slot_counts,
}

-- sizeof(struct ScotSlotEntry)
abbrev pub sizeof_slot_entry : ℕ
sizeof_slot_entry = 48

-- `get_slot_entry`: the address of an entry of the array at `slot`.
abbrev pub get_slot_entry : ℕ → ℕ → ℕ
get_slot_entry slot index = slot + sizeof_slot_entry * index

-- `__get_next_slot`
unfoldable pub get_next_slot : Counters → Option (ℕ × Counters)
get_next_slot c =
    if ltb c.next_free scot_slot_counts
    then some (c.next_free, record c { next_free = u32 (c.next_free + 1) })
    else none

-- The stores of `register_entry`; `next` keeps what it held.
unfoldable pub fill_entry : Heap → ℕ → SlotEntryArgs → Heap
unfolding write
fill_entry h p sa = write h p (record {
  next = (h p).next;
  hashv = sa.hashv;
  ready = 1;
  blocked = 1;
  buffer = sa.buffer;
  buffer_sz = sa.buffer_sz;
  key = sa.key;
  key_sz = sa.key_sz;
  msg = sa.msg;
})

unfoldable pub register_entry : ℕ → Counters → Heap → SlotEntryArgs → Option (ℕ × Counters × Heap)
unfolding get_next_slot fill_entry
register_entry slot c h sa = do
  (index, d) ← get_next_slot c
  some (index, d, fill_entry h (get_slot_entry slot index) sa)

-- An entry of zero bytes.
abbrev pub zero_entry : SlotEntry
zero_entry = record {
  next = 0;
  hashv = 0;
  ready = 0;
  blocked = 0;
  buffer = 0;
  buffer_sz = 0;
  key = 0;
  key_sz = 0;
  msg = 0;
}

-- `std::memset(&slot, 0, sizeof(struct ScotSlotEntry) * SCOT_SLOT_COUNTS)`: the first `k` entries.
unfoldable pub clear_slots : ℕ → Heap → (slot : ℕ) → Heap
unfolding write
clear_slots zero h slot = h
clear_slots (suc k) h slot = clear_slots k (write h (get_slot_entry slot k) zero_entry) slot

-- `if (ht != nullptr) ht->reset();`
unfoldable pub reset_table : Option LockfreeMap → Heap → Heap
reset_table none h = h
reset_table (some ht) h = reset ht h

abbrev pub scot_slot_reset : ℕ
scot_slot_reset = 1

-- `mark_entry_finished`, with what it returns.
unfoldable pub mark_entry_finished :
    ℕ
    → Option LockfreeMap
    → Counters
    → Heap
    → (index procd_entry : ℕ) → Option (ℕ × Counters × Heap)
unfolding reset_table
mark_entry_finished slot ht c h index procd_entry =
    let d = record c { processed = u32 (c.processed + 1) } in
    let g = set_ready h procd_entry 0 in
    if index == scot_slot_counts - 1
    then (if d.processed == scot_slot_counts
        then some (
          scot_slot_reset,
          record { next_free = 0; processed = 0 },
          clear_slots scot_slot_counts (reset_table ht g) slot,
        )
        else none)
    else some (0, d, g)

-- `get_next_unfinished`, with the address that it returns.
unfoldable pub get_next_unfinished : ℕ → Counters → ℕ × Counters
get_next_unfinished slot c =
    (get_slot_entry slot c.processed, record c { processed = u32 (c.processed + 1) })

-- Moves of one thread, one after the other.
pub data Moves (c : Counters) (p : Pc) : Counters → Pc → Type 0 where
  stay : Moves c p c p
  then_move : {d e : Counters} {q r : Pc} → Moves c p d q → Move d q e r → Moves c p e r

-- What `register_entry` does to the counters is the move `take` of the interleaved machine.
pub register_entry-Move :
    (slot : ℕ) (c : Counters) (h : Heap) (sa : SlotEntryArgs)
    → c.next_free < 512
    → (d : Counters) × (register_entry slot c h sa
        ≡ some (c.next_free, d, fill_entry h (get_slot_entry slot c.next_free) sa))
      × Move c idle d (working c.next_free)
unfolding register_entry get_next_slot
register_entry-Move slot c h sa lt =
    let e : ltb c.next_free 512 ≡ true = ground arith in
    (record c { next_free = u32 (c.next_free + 1) }, rw e, take lt)

-- `mark_entry_finished` returns to a thread that runs alone exactly if it does not hold the last slot or
-- all others were processed; then what it does to the counters is a sequence of moves of the
-- interleaved machine from `working index` to `idle`, it returns SCOT_SLOT_RESET exactly for the last
-- slot, and after that both counters are 0.
pub mark_entry_finished-Moves :
    (slot : ℕ) (ht : Option LockfreeMap) (c : Counters) (h : Heap) (index procd_entry : ℕ)
    → ((index ≢ 511)
        → (d : Counters) × (mark_entry_finished slot ht c h index procd_entry
            ≡ some (0, d, set_ready h procd_entry 0))
          × Moves c (working index) d idle)
      × ((index ≡ 511)
          → (c.processed ≡ 511)
          → (g : Heap) × (mark_entry_finished slot ht c h index procd_entry
              ≡ some (scot_slot_reset, record { next_free = 0; processed = 0 }, g))
            × Moves c (working index) (record { next_free = 0; processed = 0 }) idle)
      × ((index ≡ 511)
          → u32 (c.processed + 1) ≢ 512
          → mark_entry_finished slot ht c h index procd_entry ≡ none)
unfolding mark_entry_finished
mark_entry_finished-Moves slot ht c h index e = (
  λ ne.
      let t : (index == 511) ≡ false = ground arith in
      (
        record c { processed = u32 (c.processed + 1) },
        rw t,
        then_move (then_move stay finish) (store_ready ne),
      ),
  λ last all.
      let t : (index == 511) ≡ true = ground arith in
      let u : (u32 (c.processed + 1) == 512) ≡ true = ground arith in
      (
        clear_slots 512 (reset_table ht (set_ready h e 0)) slot,
        rw (t, u),
        then_move
            (then_move
              (then_move (then_move (then_move stay finish) (store_ready_last last))
                (all_processed (omega arith)))
              store_next_free)
            store_processed,
      ),
  λ last some_left.
      let t : (index == 511) ≡ true = ground arith in
      let u : (u32 (c.processed + 1) == 512) ≡ false = ground arith in rw (t, u),
)
