-- ===== src/Writer/Filled.antt =====
-- A slot's entry from `register_entry` on: what the stores, the table and `mark_entry_finished` keep of it.
use scot.Base.{ℕ, ◌%◌, ◌≡◌, ◌≢◌, refl, ap, ◌∙◌, some, List, ==_iff, arith}
use scot.Entry.{SlotEntry, SlotEntryArgs, Heap, write, set_ready}
use scot.Lfmap.Chain.{Cell, find, IsSorted}
use scot.Lfmap.Upsert.{find-upsert}
use scot.Lfmap.Rewire.{OnlyNext}
use scot.Slot.Entries.{fill_entry}
use scot.Replicator.Latest.{OnlyReady}
use scot.Replicator.Add.{cells_after}
use scot.Replicator.Frame.{Same}

pub fill_ne : (h : Heap) (p : ℕ) (sa : SlotEntryArgs) (a : ℕ) → a ≢ p → fill_entry h p sa a ≡ h a
unfolding fill_entry write
fill_ne h p sa a ne = ground arith

-- The entry that `register_entry` leaves, with the fields that the log reads.
pub record IsFilled (e : SlotEntry) (sa : SlotEntryArgs) : Type 0 where
  pub hashv : e.hashv ≡ sa.hashv
  pub buffer : e.buffer ≡ sa.buffer
  pub buffer_sz : e.buffer_sz ≡ sa.buffer_sz
  pub msg : e.msg ≡ sa.msg

pub fill_self : (h : Heap) (p : ℕ) (sa : SlotEntryArgs) → IsFilled (fill_entry h p sa p) sa
unfolding fill_entry write
fill_self h p sa = record {
  hashv = ground arith;
  buffer = ground arith;
  buffer_sz = ground arith;
  msg = ground arith;
}

pub set_ready-Same : (h : Heap) (p v a : ℕ) → Same h (set_ready h p v) a
unfolding set_ready write
set_ready-Same h p v a = (ground arith, ground arith)

pub OnlyReady-Same : (h g : Heap) → OnlyReady h g → (a : ℕ) → Same h g a
OnlyReady-Same h g e a =
    (ap (λ (s : SlotEntry). s.next) (e a), ap (λ (s : SlotEntry). s.hashv) (e a))

pub IsFilled-kept :
    (h g k : Heap) (p : ℕ) (sa : SlotEntryArgs)
    → OnlyNext h g
    → OnlyReady g k
    → IsFilled (h p) sa
    → IsFilled (k p) sa
IsFilled-kept h g k p sa n r f = record {
  hashv = ap (λ (s : SlotEntry). s.hashv) (r p) ∙ ap (λ (s : SlotEntry). s.hashv) (n p) ∙ f.hashv;
  buffer =
      ap (λ (s : SlotEntry). s.buffer) (r p) ∙ ap (λ (s : SlotEntry). s.buffer) (n p) ∙ f.buffer;
  buffer_sz =
      ap (λ (s : SlotEntry). s.buffer_sz) (r p)
      ∙ ap (λ (s : SlotEntry). s.buffer_sz) (n p)
      ∙ f.buffer_sz;
  msg = ap (λ (s : SlotEntry). s.msg) (r p) ∙ ap (λ (s : SlotEntry). s.msg) (n p) ∙ f.msg;
}

-- The entry just added is the one that its list has for its hash value.
pub self_found :
    (nelem : ℕ) (cells : ℕ → List Cell) (new k : ℕ)
    → IsSorted 0 (cells (k % nelem))
    → find k (cells_after (k % nelem) k new cells (k % nelem)) ≡ some new
self_found nelem cells new k s =
    rw ((==_iff (k % nelem) (k % nelem)).1 refl)
      (find-upsert k new k 0 (cells (k % nelem)) s ∙ rw ((==_iff k k).1 refl))
