-- ===== src/Writer/Examples.antt =====
-- A first request of each writer: three nodes, a table of two lists at 1000, slots from 2000 on, and a log
-- at 4096.
use scot.Base.{All, ℕ, ◌%◌, ◌≡◌, ◌≢◌, ◌<◌, refl, inl, true, false, some, List, [], ◌∷◌, map, arith}
use scot.Entry.{SlotEntryArgs}
use scot.Lfmap.{reset, get_bucket_by_idx}
use scot.Lfmap.Chain.{Cell}
use scot.Lfmap.Find.{hash_table}
use scot.Log.{next_message}
use scot.Log.Write.{IsMessage}
use scot.Slot.Entries.{zero_entry}
use scot.Replicator.Table.{IsTable, head_of}
use scot.Replicator.Reset.{reset-IsTable}
use scot.Replicator.Add.{IsUnused, cells_after}
use scot.Writer.{Writer, ConnContext, Post}
use scot.Writer.Replicate.{write_request}
use scot.Writer.Replicated.{write_request-replicates, whole_post, request}
use scot.Writer.Threads.Serial.{written, sent_posts}
use scot.Writer.Sequence.{IsLaidOut, IsIdle, entry_of, write_requests, write_requests-written}
use scot.Writer.Check.{Checker, chkr_write_request}
use scot.Writer.Checked.{IsSent, logged, peer_of, peer_at, chkr_write_request-asks}

abbrev no_cells : ℕ → List Cell
no_cells i = []

abbrev writer : Writer
writer = record {
  counters = record { next_free = 0; processed = 0 };
  log = record { next_free = 0; log = 4096; instn = 0 };
  heap = reset (hash_table 2 1000) (λ a. zero_entry);
  mem = λ a. a % 251;
}

abbrev args : SlotEntryArgs
args = record { hashv = 7; buffer = 100; buffer_sz = 5; key = 100; key_sz = 2; msg = 2 }

abbrev peers : List ConnContext
peers =
    record { nid = 1; rply_addr = 10000; rcvr_addr = 20000 }
    ∷ record { nid = 2; rply_addr = 30000; rcvr_addr = 40000 }
    ∷ []

empty_table : IsTable 2 1000 writer.heap no_cells []
empty_table = (reset-IsTable 2 1000 (λ a. zero_entry) (omega arith) (omega arith)).0

apart : (i : ℕ) → i < 2 → 2000 ≢ head_of 2 1000 i
unfolding get_bucket_by_idx
apart i lt p = omega arith

first_unused : IsUnused 2 1000 [] 2000
first_unused = record { aligned = omega arith; unused = refl; apart = apart }

write_request-replicates_example :
    (v : Writer) × (write_request 2000 (hash_table 2 1000) 2 peers writer args
      ≡ some (
        v,
        map (whole_post 2 1000 2000 no_cells [] writer args empty_table first_unused v.mem) peers,
      ))
    × IsMessage v.mem 4112
        (request 2 1000 2000 no_cells [] writer args empty_table first_unused)
        0
        writer.mem
    × IsTable 2 1000 v.heap (cells_after 1 7 2000 no_cells) (2000 ∷ [])
    × (v.counters ≡ record { next_free = 1; processed = 1 })
write_request-replicates_example =
    write_request-replicates 2 1000 2000 no_cells [] writer args empty_table first_unused
      (omega arith) (record { hashv = omega arith; buffer_sz = omega arith; msg = omega arith })
      (omega arith) (inl (omega arith)) 1 (omega arith) peers

abbrev checker : Checker
checker = record { writer = writer; wait_hashv = 0; wait_lock = false }

chkr_write_request-asks_example :
    (j : Checker) × (posts : List Post) × (chkr_write_request 2000 peers checker args 2
      ≡ some (j, posts))
    × All (IsSent 4112 14 2 (logged 2000 peers checker args 2)) posts
    × (map peer_of posts ≡ map (peer_at 16) peers)
    × (j.wait_hashv ≡ 0)
    × (j.wait_lock ≡ true)
    × (j.writer.log ≡ next_message writer.log 5)
chkr_write_request-asks_example = chkr_write_request-asks 2000 peers checker args 2 (omega arith)

layout : IsLaidOut 2 1000 2000
unfolding get_bucket_by_idx
layout = record {
  some_lists = omega arith;
  bucket_aligned = omega arith;
  slot_aligned = omega arith;
  apart = λ i j li lj e. omega arith;
}

idle : IsIdle 2 1000 2000 writer
idle = record {
  room = omega arith;
  balance = refl;
  cells = no_cells;
  reg = [];
  table = empty_table;
  size = refl;
  unused = λ i le. refl;
}

write_requests-written_example :
    (v : Writer) × (write_requests 2000 (hash_table 2 1000) 513 peers writer (args ∷ args ∷ [])
      ≡ some (v, sent_posts peers writer.log writer.mem (entry_of args ∷ entry_of args ∷ [])))
    × ((v.log, v.mem) ≡ written writer.log writer.mem (entry_of args ∷ entry_of args ∷ []))
    × IsIdle 2 1000 2000 v
write_requests-written_example =
    write_requests-written 2 1000 2000 layout 512 peers writer (args ∷ args ∷ []) (omega arith) idle
