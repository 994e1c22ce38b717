-- ===== src/Entry.antt =====
-- src/includes/scot-slot.hh, `struct ScotSlotEntry`, the store of such entries by address, and the
-- comparison of src/scot-log.cc.
use scot.Base.{ℕ, if◌then◌else◌, ltb, ◌==◌}
use scot.Base.Int.{ℤ, pos, negsuc}

-- `next` is a marked reference, `buffer` and `key` are addresses.
pub record SlotEntry : Type 0 where
  pub next : ℕ
  pub hashv : ℕ
  pub ready : ℕ
  pub blocked : ℕ
  pub buffer : ℕ
  pub buffer_sz : ℕ
  pub key : ℕ
  pub key_sz : ℕ
  pub msg : ℕ

-- `struct ScotSlotEntryArgs`
pub record SlotEntryArgs : Type 0 where
  pub hashv : ℕ
  pub buffer : ℕ
  pub buffer_sz : ℕ
  pub key : ℕ
  pub key_sz : ℕ
  pub msg : ℕ

-- Every entry by its address: the slots and the heads of the hash table's lists.
abbrev pub Heap : Type 0
Heap = ℕ → SlotEntry

unfoldable pub write : Heap → ℕ → SlotEntry → Heap
write h p e a = if a == p then e else h a

-- `p->next = r`
unfoldable pub set_next : Heap → ℕ → ℕ → Heap
unfolding write
set_next h p r = write h p (record (h p) { next = r })

-- `p->ready = v`
unfoldable pub set_ready : Heap → ℕ → ℕ → Heap
unfolding write
set_ready h p v = write h p (record (h p) { ready = v })

unfoldable pub scot_hash_cmp : SlotEntry → SlotEntry → ℤ
scot_hash_cmp a b =
    if a.hashv == b.hashv then pos 0 else if ltb b.hashv a.hashv then pos 1 else negsuc 0
