-- ===== src/Slot/Examples.antt =====
-- One run of two threads over the slots: thread 0 works through the first 511 slots, takes the last
-- one and resets, and thread 1 takes a slot between the two stores of the reset.
use scot.Base.{
  none, some, ℕ, zero, suc, ◌+◌, ◌≡◌, ◌≢◌, ◌≤◌, ◌<◌, refl, ap₂, fun_ext, subst, u32, arith,
}
use scot.Slot.{
  Counters, Pc, idle, working, resetting, clearing, Move, take, finish, store_ready,
  store_ready_last, counted, all_processed, store_next_free, update, step, System, start, Reach,
  here, later,
}
use scot.Entry.{Heap, set_ready}
use scot.Slot.Entries.{
  mark_entry_finished, Moves, zero_entry, scot_slot_reset, mark_entry_finished-Moves,
}
use scot.Slot.Safety.{register_entry-exclusive, reset-exclusive}
use scot.Slot.Lost.{lost-finish}
use scot.Slot.Late.{late-store}

-- `k` slots are given out and processed, and nobody is inside.
abbrev rest : ℕ → System
rest k = record { counters = record { next_free = k; processed = k }; pc = λ i. idle }

back_idle : (p q : Pc) → update (update (update (λ i. idle) 0 p) 0 q) 0 idle ≡ (λ i. idle)
back_idle p q = fun_ext (λ i. ground arith)

counter : (k : ℕ) → k ≤ 511 → u32 (k + 1) ≡ suc k
counter k h = omega arith

same :
    (k : ℕ)
    → k ≤ 511
    → record {
      counters = record { next_free = u32 (k + 1); processed = u32 (k + 1) };
      pc = update (update (update (λ i. idle) 0 (working k)) 0 (counted k)) 0 idle;
    }
      ≡ rest (suc k)
same k h =
    ap₂
      (λ (x : ℕ) (f : ℕ → Pc). record {
        counters = record { next_free = x; processed = x };
        pc = f;
      })
      (counter k h) (back_idle (working k) (counted k))

after : (k : ℕ) → k ≤ 511 → Reach 2 start (rest k)
after zero h = here
after (suc k) h =
    let r = after k (omega arith) in
    let t =
      later (later r (step 0 (omega arith) (take (omega arith)))) (step 0 (omega arith) finish) in
    subst (λ s. Reach 2 start s) (same k (omega arith))
      (later t (step 0 (omega arith) (store_ready (λ e. omega arith))))

-- Thread 0 at `p` with the counters `c`; nobody else inside.
abbrev at : Counters → Pc → System
at c p = record { counters = c; pc = update (λ i. idle) 0 p }

move_first :
    {c c' : Counters} {p p' : Pc}
    → Reach 2 start (at c p)
    → Move c p c' p'
    → Reach 2 start (at c' p')
move_first {c'} {p} {p'} r m =
    subst (λ (f : ℕ → Pc). Reach 2 start (record { counters = c'; pc = f }))
      (fun_ext (λ i. ground arith)) (later r (step 0 (omega arith) m))

abbrev full_house : Counters
full_house = record { next_free = 512; processed = 512 }

last_taken : Reach 2 start (at (record { next_free = 512; processed = 511 }) (working 511))
last_taken = later (after 511 (omega arith)) (step 0 (omega arith) (take (omega arith)))

resetting_state : Reach 2 start (at full_house resetting)
resetting_state =
    move_first (move_first (move_first last_taken finish) (store_ready_last refl))
      (all_processed refl)

-- Thread 0 stands between the two stores and thread 1 works on slot 0.
abbrev between : System
between = record {
  counters = record { next_free = 1; processed = 512 };
  pc = update (update (λ i. idle) 0 clearing) 1 (working 0);
}

between_state : Reach 2 start between
between_state =
    later (move_first resetting_state store_next_free) (step 1 (omega arith) (take (omega arith)))

register_entry-exclusive_example : (◌≡◌ {A = ℕ} 1 1) × (0 < 512)
register_entry-exclusive_example =
    register_entry-exclusive {n = 2} {s = between} (omega arith) between_state 1 1 0 (omega arith)
      (omega arith) refl refl

reset-exclusive_example :
    ((index : ℕ) → (at full_house resetting).pc 1 ≢ working index)
    × ((at full_house resetting).pc 1 ≡ resetting → (◌≡◌ {A = ℕ} 0 1))
reset-exclusive_example =
    reset-exclusive {n = 2} {s = at full_house resetting} (omega arith) resetting_state 0 1
      (omega arith) (omega arith) refl

lost-finish_example : update between.pc 1 (counted 0) 0 ≢ resetting
lost-finish_example =
    lost-finish {n = 2} {s = between} (omega arith) between_state 0 1 0 (omega arith) (omega arith)
      refl refl (record { next_free = 1; processed = 513 }) (counted 0) finish here 0 (omega arith)

abbrev last_left : Counters
last_left = record { next_free = 512; processed = 511 }

mark_entry_finished-Moves_example :
    ((◌≢◌ {A = ℕ} 511 511)
      → (d : Counters) × (mark_entry_finished 2000 none last_left (λ a. zero_entry) 511 2048
          ≡ some (0, d, set_ready (λ a. zero_entry) 2048 0))
        × Moves last_left (working 511) d idle)
    × ((◌≡◌ {A = ℕ} 511 511)
        → (◌≡◌ {A = ℕ} 511 511)
        → (g : Heap) × (mark_entry_finished 2000 none last_left (λ a. zero_entry) 511 2048
            ≡ some (scot_slot_reset, record { next_free = 0; processed = 0 }, g))
          × Moves last_left (working 511) (record { next_free = 0; processed = 0 }) idle)
    × ((◌≡◌ {A = ℕ} 511 511)
        → u32 (511 + 1) ≢ 512
        → mark_entry_finished 2000 none last_left (λ a. zero_entry) 511 2048 ≡ none)
mark_entry_finished-Moves_example =
    mark_entry_finished-Moves 2000 none last_left (λ a. zero_entry) 511 2048

late-store_example : (s : System) × Reach 2 start s × (s.pc 0 ≡ counted 3) × (s.pc 1 ≡ working 3)
late-store_example = late-store 2 0 1 (omega arith) (omega arith) (λ e. omega arith) 3 (omega arith)
