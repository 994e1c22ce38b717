-- ===== src/Slot/Waits.antt =====
-- src/scot-slot.cc, the two waits of ScotSlot and the functions that only read a counter. A wait reads
-- its counter anew in each round; the list says what it reads, and the result whether it ends.
use scot.Base.{ℕ, Bool, true, false, ◌==◌, ltb, if◌then◌else◌, List, [], ◌∷◌}
use scot.Slot.{Counters, scot_slot_counts}

unfoldable pub wait_until_proc_finish : List ℕ → Bool
wait_until_proc_finish [] = false
wait_until_proc_finish (procd ∷ later) =
    if procd == scot_slot_counts then true else wait_until_proc_finish later

unfoldable pub wait_until_reset_finish : List ℕ → Bool
wait_until_reset_finish [] = false
wait_until_reset_finish (nf ∷ later) =
    if ltb nf scot_slot_counts then true else wait_until_reset_finish later

abbrev pub peek_next_free : Counters → ℕ
peek_next_free c = c.next_free

abbrev pub peek_processed : Counters → ℕ
peek_processed c = c.processed
