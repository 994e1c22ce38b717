-- ===== src/Writer/Threads/Examples.antt =====
-- Two callers of `write_request`, of which the first gets the lock.
use scot.Base.{ℕ, ◌%◌, ◌≡◌, ◌≢◌, refl, true, List, [], ◌∷◌, ◌++◌}
use scot.Entry.{SlotEntry, Heap}
use scot.Mark.{is_marked_as_deleted}
use scot.Memory.{Mem}
use scot.Log.{Log, write_local_log}
use scot.Replicator.{ht_get_latest_entry, latest_loop}
use scot.Writer.{ConnContext}
use scot.Writer.Threads.{
  Place, outside, locked, chosen, posting, Shared, prepare, start_write, choose, write, Callers,
  put, Turns, none_yet, turn, unlocked,
}
use scot.Writer.Threads.Serial.{written, sent_posts, left, Turns-serial}

abbrev log : Log
log = record { next_free = 0; log = 4096; instn = 0 }

abbrev bytes : Mem
bytes a = a % 251

abbrev request : SlotEntry
request = record {
  next = 0;
  hashv = 7;
  ready = 1;
  blocked = 1;
  buffer = 100;
  buffer_sz = 5;
  key = 100;
  key_sz = 2;
  msg = 2;
}

abbrev entries : Heap
entries a = request

abbrev quorum : List ConnContext
quorum = record { nid = 1; rply_addr = 10000; rcvr_addr = 20000 } ∷ []

abbrev after : Callers → ℕ → Shared → Place → Callers
after s i u p = record { shared = u; place = put s.place i p }

abbrev start : Callers
start = unlocked log bytes entries

abbrev locked_by_0 : Callers
locked_by_0 = after start 0 (record start.shared { writer_lock = true }) (locked 2000)

abbrev chosen_by_0 : Callers
chosen_by_0 =
    after (after locked_by_0 1 locked_by_0.shared outside) 0 locked_by_0.shared (chosen 2000)

abbrev written_by_0 : Callers
written_by_0 =
    after chosen_by_0 0
      (record chosen_by_0.shared {
        log = (write_local_log log bytes request).0;
        mem = (write_local_log log bytes request).1;
      })
      (posting (write_local_log log bytes request).2 14 quorum)

-- Caller 1 fills its slot while caller 0 has the lock.
until_posting : Turns quorum start written_by_0
unfolding ht_get_latest_entry latest_loop is_marked_as_deleted
until_posting =
    turn
      (turn (turn (turn none_yet 0 (start_write 2000 refl)) 1 (prepare entries)) 0
        (choose 1 2000 entries refl))
      0
      (write (write_local_log log bytes request).0 (write_local_log log bytes request).1
        (write_local_log log bytes request).2 refl)

Turns-serial_example :
    ((a b : ℕ) → written_by_0.place a ≢ outside → written_by_0.place b ≢ outside → a ≡ b)
    × ((history : List SlotEntry) × (written log bytes history
          ≡ (written_by_0.shared.log, written_by_0.shared.mem))
        × (((a : ℕ) → written_by_0.place a ≡ outside)
            → written_by_0.shared.posts ≡ sent_posts quorum log bytes history)
        × ((a : ℕ)
            → written_by_0.place a ≢ outside
            → written_by_0.shared.posts ++ left written_by_0.shared (written_by_0.place a)
              ≡ sent_posts quorum log bytes history))
Turns-serial_example = Turns-serial until_posting
