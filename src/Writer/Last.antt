-- ===== src/Writer/Last.antt =====
-- `ScotReplicator::write_request` of the request that gets the last slot, when all others are marked: it
-- resets the slots and the table.
use scot.Base.{
  subst, sym, ℕ, zero, suc, ◌+◌, ◌%◌, ◌≡◌, ◌≢◌, ◌<◌, refl, ap, ◌∙◌, fun_ext, u32, true, some, List,
  [], ◌==◌, map, length, arith,
}
use scot.Entry.{SlotEntry, SlotEntryArgs, Heap, set_ready, write}
use scot.Memory.{Mem}
use scot.Lfmap.{reset}
use scot.Lfmap.Chain.{Cell}
use scot.Lfmap.Find.{hash_table}
use scot.Log.{Log, write_local_log}
use scot.Slot.Entries.{
  get_slot_entry, clear_slots, reset_table, mark_entry_finished, scot_slot_reset,
}
use scot.Replicator.{ht_try_insert, ht_get_latest_entry}
use scot.Replicator.Table.{IsTable, head_of}
use scot.Replicator.Add.{IsUnused}
use scot.Replicator.Reset.{reset-IsTable}
use scot.Replicator.Frame.{IsTable-Same}
use scot.Writer.{Writer, ConnContext, Post}
use scot.Writer.Replicate.{write_request}
use scot.Writer.Replicated.{
  curr, filled, given, table_part, register_part, post_same, whole_post, logged, log_after,
  write_local_log_same,
}

-- `memset` of the slots leaves the rest.
clear_slots_ne :
    (k : ℕ) (h : Heap) (slot a : ℕ)
    → ((i : ℕ) → i < k → a ≢ get_slot_entry slot i)
    → clear_slots k h slot a ≡ h a
unfolding clear_slots write
clear_slots_ne zero h slot a apart = refl
clear_slots_ne (suc k) h slot a apart =
    clear_slots_ne k _ slot a (λ i lt. apart i (omega arith))
    ∙ (let ne = apart k (omega arith) in ground arith)

module _ (nelem bucket slot : ℕ) (cells : ℕ → List Cell) (reg : List ℕ) (w : Writer)
    (sa : SlotEntryArgs) (t : IsTable nelem bucket w.heap cells reg)
    (u : IsUnused nelem bucket reg (get_slot_entry slot w.counters.next_free))
    (last : w.counters.next_free ≡ 511) (all : w.counters.processed ≡ 511) where
  abbrev cleared : Heap → Heap
  cleared k =
      clear_slots 512
        (reset (hash_table nelem bucket)
          (set_ready k (curr nelem bucket slot cells reg w sa t u) 0))
        slot

  finish_last :
      (k : Heap)
      → mark_entry_finished slot
          (some (hash_table nelem bucket))
          (given nelem bucket slot cells reg w sa t u)
          k
          w.counters.next_free
          (curr nelem bucket slot cells reg w sa t u)
        ≡ some (scot_slot_reset, record { next_free = 0; processed = 0 }, cleared k)
  unfolding mark_entry_finished reset_table
  finish_last k =
      let e : (w.counters.next_free == 511) ≡ true = ground arith in
      let f : (u32 (w.counters.processed + 1) == 512) ≡ true = ground arith in rw (e, f)

  cleared-IsTable :
      (k : Heap)
      → bucket % 4 ≡ 0
      → ((i j : ℕ) → i < 512 → j < nelem → get_slot_entry slot i ≢ head_of nelem bucket j)
      → IsTable nelem bucket (cleared k) (λ i. []) []
  cleared-IsTable k aligned apart =
      IsTable-Same nelem bucket _ (cleared k) (λ i. []) [] (λ a e. cc)
        (λ j lt.
          ap (λ (s : SlotEntry). s.next)
            (clear_slots_ne 512 _ slot (head_of nelem bucket j)
              (λ i li e. apart i j li lt (sym e))))
        (reset-IsTable nelem bucket _ t.some_lists aligned).0

  steps :
      (fuel : ℕ) (quorum : List ConnContext) (g k : Heap)
      → (ht_try_insert
            (hash_table nelem bucket)
            (suc fuel)
            (suc fuel)
            (filled nelem bucket slot cells reg w sa t u)
            (curr nelem bucket slot cells reg w sa t u)
          ≡ some g)
      → (ht_get_latest_entry (suc fuel) g (curr nelem bucket slot cells reg w sa t u)
          ≡ some (curr nelem bucket slot cells reg w sa t u, k))
      → (k (curr nelem bucket slot cells reg w sa t u)).buffer_sz ≡ sa.buffer_sz
      → write_request slot (hash_table nelem bucket) (suc fuel) quorum w sa
        ≡ some (
          record {
            counters = record { next_free = 0; processed = 0 };
            log = (write_local_log w.log w.mem (k (curr nelem bucket slot cells reg w sa t u))).0;
            heap = cleared k;
            mem = (write_local_log w.log w.mem (k (curr nelem bucket slot cells reg w sa t u))).1;
          },
          map
              (whole_post nelem bucket slot cells reg w sa t u
                (write_local_log w.log w.mem (k (curr nelem bucket slot cells reg w sa t u))).1)
              quorum,
        )
  unfolding write_request
  steps fuel quorum g k done got size =
      rw
        (register_part nelem bucket slot cells reg w sa t u (omega arith), done, got, finish_last k)
        (let after = write_local_log w.log w.mem (k (curr nelem bucket slot cells reg w sa t u)) in
          ap
            (λ (f : ConnContext → Post). some (
              record {
                counters = record { next_free = 0; processed = 0 };
                log = after.0;
                heap = cleared k;
                mem = after.1;
              },
              map f quorum,
            ))
            (fun_ext (post_same nelem bucket slot cells reg w sa t u after.1 _ size)))

  -- The request is written and posted like any other, and then the slots are empty again.
  pub write_request-resets :
      (fuel : ℕ) (quorum : List ConnContext)
      → length reg < fuel
      → bucket % 4 ≡ 0
      → ((i j : ℕ) → i < 512 → j < nelem → get_slot_entry slot i ≢ head_of nelem bucket j)
      → (k : Heap) × (write_request slot (hash_table nelem bucket) (suc fuel) quorum w sa
          ≡ some (
            record {
              counters = record { next_free = 0; processed = 0 };
              log = log_after nelem bucket slot cells reg w sa t u;
              heap = k;
              mem = logged nelem bucket slot cells reg w sa t u;
            },
            map
                (whole_post nelem bucket slot cells reg w sa t u
                  (logged nelem bucket slot cells reg w sa t u))
                quorum,
          ))
        × IsTable nelem bucket k (λ i. []) []
  write_request-resets fuel quorum enough aligned apart =
      let (g, k, done, got, table, f) =
        table_part nelem bucket slot cells reg w sa t u fuel enough in
      (
        cleared k,
        subst
            (λ (x : Log × Mem × ℕ).
              write_request slot (hash_table nelem bucket) (suc fuel) quorum w sa
              ≡ some (
                record {
                  counters = record { next_free = 0; processed = 0 };
                  log = x.0;
                  heap = cleared k;
                  mem = x.1;
                },
                map (whole_post nelem bucket slot cells reg w sa t u x.1) quorum,
              ))
            (write_local_log_same nelem bucket slot cells reg w sa t u w.mem _ f)
            (steps fuel quorum g k done got f.buffer_sz),
        cleared-IsTable k aligned apart,
      )
