-- ===== src/Core/ProposeExamples.antt =====
-- A proposal on the node that owns it, delivered to a peer.
use scot.Base.{
  ℕ, ◌+◌, ◌%◌, ◌≡◌, ◌<◌, refl, inl, inr, false, none, some, List, [], ◌∷◌, map, get_elem?, arith,
}
use scot.Entry.{SlotEntry, SlotEntryArgs}
use scot.Memory.{Mem}
use scot.Lfmap.{reset, get_bucket_by_idx}
use scot.Lfmap.Chain.{Cell}
use scot.Lfmap.Find.{hash_table}
use scot.Log.{Log, write_local_log, scot_msgtype_pure}
use scot.Log.{next_message}
use scot.Log.Carry.{carry, carry-IsDelivery}
use scot.Writer.Checked.{logged}
use scot.Reader.Receive.{asked}
use scot.Reader.{receiver_round}
use scot.Core.Ask.{propose-received}
use scot.Core.Answer.{propose-answered}
use scot.Writer.Replicate.{write_request}
use scot.Slot.Entries.{zero_entry}
use scot.Replicator.Table.{IsTable}
use scot.Replicator.Reset.{reset-IsTable}
use scot.Replicator.Add.{IsUnused, cells_after}
use scot.Writer.{Writer, ConnContext, Post}
use scot.Reader.{replayer_round}
use scot.Core.{Core, part, chkr_writer, judge, propose, rule_balance}
use scot.Core.Propose.{propose-replayed}

-- Node 0 of three: a table of two lists at 1000, slots from 2000 on, a log at 4096.
abbrev no_cells : ℕ → List Cell
no_cells i = []

abbrev writer : Writer
writer = record {
  counters = record { next_free = 0; processed = 0 };
  log = record { next_free = 0; log = 4096; instn = 0 };
  heap = reset (hash_table 2 1000) (λ a. zero_entry);
  mem = λ a. a % 251;
}

abbrev peer_one : ConnContext
peer_one = record { nid = 1; rply_addr = 10000; rcvr_addr = 20000 }

abbrev owner_core : Core
owner_core = record {
  nid = 0;
  uint_judge = record { rdict = []; active_rule = some (rule_balance 3) };
  rpli_slot = 2000;
  hasht = hash_table 2 1000;
  chkr_slot = 50000;
  quorum = peer_one ∷ record { nid = 2; rply_addr = 30000; rcvr_addr = 40000 } ∷ [];
  rpli = part writer;
  chkr = record { writer = part writer; wait_hashv = 0; wait_lock = false };
  mem = writer.mem;
}

abbrev args : SlotEntryArgs
args = record { hashv = 9; buffer = 100; buffer_sz = 5; key = 100; key_sz = 2; msg = 0 }

abbrev pure_request : SlotEntry
pure_request = record {
  next = 0;
  hashv = 9;
  ready = 1;
  blocked = 1;
  buffer = 100;
  buffer_sz = 5;
  key = 100;
  key_sz = 2;
  msg = scot_msgtype_pure;
}

-- The log of the replayer of node 1 for node 0, its memory, and what it sees of the delivery.
abbrev peer_log : Log
peer_log = record { next_free = 0; log = 10000; instn = 0 }

abbrev zeros : Mem
zeros a = 0

abbrev written : Mem
written = (write_local_log writer.log writer.mem pure_request).1

abbrev image : ℕ → Mem
image = carry written zeros 4112 10016

empty_table : IsTable 2 1000 writer.heap no_cells []
empty_table = (reset-IsTable 2 1000 (λ a. zero_entry) (omega arith) (omega arith)).0

first_unused : IsUnused 2 1000 [] 2000
unfolding get_bucket_by_idx
first_unused = record { aligned = omega arith; unused = refl; apart = λ i lt p. omega arith }

propose-replayed_example :
    (d : Core) × (posts : List Post) × (l : Log) × (g : Mem) × (propose 2 owner_core args
      ≡ some (d, posts))
    × (get_elem? posts 0
        ≡ some (record { nid = 1; header = 4112; target = 10016; size = 14; local = written }))
    × (◌≡◌ {A = ℕ} 10016 10016)
    × (replayer_round peer_log (map image (3 ∷ 14 ∷ [])) ≡ some (none, l, g))
    × (l.next_free ≡ d.rpli.log.next_free)
    × (g 10023 ≡ 0)
    × ((j : ℕ) → j < 5 → g (10024 + j) ≡ (100 + j) % 251)
    × IsTable 2 1000 d.rpli.heap (cells_after 1 9 2000 no_cells) (2000 ∷ [])
unfolding judge
propose-replayed_example =
    propose-replayed 2 1000 no_cells [] owner_core args refl empty_table first_unused (omega arith)
      refl (record { hashv = omega arith; buffer_sz = omega arith; msg = omega arith })
      (omega arith) (inl (omega arith)) 1 (omega arith) 0 peer_one refl peer_log refl refl zeros
      image (carry-IsDelivery written zeros 4112 10016 14) refl (λ e. omega arith) (3 ∷ 14 ∷ [])
      (omega arith, refl)

-- Node 1, which asks node 0.
abbrev asker : Core
asker = record owner_core {
  nid = 1;
  quorum =
      record { nid = 0; rply_addr = 10000; rcvr_addr = 20000 }
      ∷ record { nid = 2; rply_addr = 30000; rcvr_addr = 40000 }
      ∷ [];
}

abbrev receiver_log : Log
receiver_log = record { next_free = 0; log = 20000; instn = 0 }

abbrev asked_message : Mem
asked_message = logged 50000 asker.quorum (chkr_writer asker) args 0

abbrev asked_image : ℕ → Mem
asked_image = carry asked_message zeros 4112 20016

propose-received_example :
    (d : Core) × (posts : List Post) × (post : Post) × (g : Mem) × (propose 1 asker args
      ≡ some (d, posts))
    × (get_elem? posts 0 ≡ some post)
    × (post.nid ≡ 0)
    × (post.target ≡ 20016)
    × (post.size ≡ 14)
    × ((a : ℕ) → post.local a ≡ asked_message a)
    × (receiver_round receiver_log (map asked_image (3 ∷ 14 ∷ []))
        ≡ some (some (asked 9 20024 5), next_message receiver_log 5, g))
    × ((j : ℕ) → j < 5 → g (20024 + j) ≡ (100 + j) % 251)
    × ((next_message receiver_log 5).next_free ≡ d.chkr.writer.log.next_free)
unfolding judge
propose-received_example =
    propose-received asker args 0 refl (λ e. omega arith) (omega arith) (omega arith) (omega arith)
      (omega arith) (inl (omega arith)) 0 (record { nid = 0; rply_addr = 10000; rcvr_addr = 20000 })
      refl refl receiver_log refl refl zeros asked_image
      (carry-IsDelivery asked_message zeros 4112 20016 14) refl (λ e. omega arith) (3 ∷ 14 ∷ [])
      (omega arith, refl) 1

-- What the receiver of node 0 leaves, and the replicator of node 0 in that memory.
received :
    (g : Mem) × (receiver_round receiver_log (map asked_image (3 ∷ 14 ∷ []))
      ≡ some (some (asked 9 20024 5), next_message receiver_log 5, g))
unfolding judge
received =
    let (d, posts, post, g, _, _, _, _, _, _, round, _, _) =
      propose-received asker args 0 refl (λ e. omega arith) (omega arith) (omega arith)
        (omega arith) (omega arith) (inl (omega arith)) 0
        (record { nid = 0; rply_addr = 10000; rcvr_addr = 20000 }) refl refl receiver_log refl refl
        zeros asked_image (carry-IsDelivery asked_message zeros 4112 20016 14) refl
        (λ e. omega arith) (3 ∷ 14 ∷ []) (omega arith, refl) 1 in
    (g, round)

abbrev owner_writer : Writer
owner_writer = record writer { mem = received.0 }

abbrev answered : Mem
answered =
    (write_local_log writer.log received.0 (record {
      next = 0;
      hashv = 9;
      ready = 1;
      blocked = 1;
      buffer = 20024;
      buffer_sz = 5;
      key = 0;
      key_sz = 0;
      msg = 1;
    })).1

abbrev answered_post : Post
answered_post = record { nid = 1; header = 4112; target = 10016; size = 14; local = answered }

propose-answered_example :
    (v : Writer) × (posts : List Post) × (m : Log) × (g : Mem) × (write_request 2000
        (hash_table 2 1000)
        2
        owner_core.quorum
        owner_writer
        (asked 9 20024 5)
      ≡ some (v, posts))
    × (get_elem? posts 0 ≡ some answered_post)
    × (◌≡◌ {A = ℕ} 10016 10016)
    × (replayer_round peer_log (map (carry answered zeros 4112 10016) (3 ∷ 14 ∷ []))
        ≡ some (some 9, m, g))
    × (m.next_free ≡ v.log.next_free)
    × ((j : ℕ) → j < 5 → g (10024 + j) ≡ (100 + j) % 251)
unfolding judge
propose-answered_example =
    propose-answered asker args 0 refl (λ e. omega arith) (omega arith) (omega arith) (omega arith)
      (omega arith) (inl (omega arith)) 0 (record { nid = 0; rply_addr = 10000; rcvr_addr = 20000 })
      refl refl receiver_log refl refl zeros asked_image
      (carry-IsDelivery asked_message zeros 4112 20016 14) refl (λ e. omega arith) (3 ∷ 14 ∷ [])
      (omega arith, refl) (next_message receiver_log 5) owner_writer received.1 2 1000 2000 no_cells
      [] empty_table first_unused (omega arith) (omega arith) (inr (omega arith)) 1 (omega arith)
      owner_core.quorum 0 peer_one refl peer_log refl refl zeros (carry answered zeros 4112 10016)
      (carry-IsDelivery answered zeros 4112 10016 14) refl (λ e. omega arith) (3 ∷ 14 ∷ [])
      (omega arith, refl)
