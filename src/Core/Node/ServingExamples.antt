-- ===== src/Core/Node/ServingExamples.antt =====
-- Nodes whose slots lie behind their table: two proposals of one node, and what the other replays.
use scot.Core.Node.Examples.{fabric, no_entry, args, by_rest, fabric-IsFabric}
use scot.Core.Node.Replicates.{messages, proposals, node-replicates}
use scot.Core.Own.{Posted}
use scot.Reader.Stream.{rounds}
use scot.Reader.Worker.{replayer_worker, pause_loop}
use scot.Reader.Succession.{Way, place, leaves, Succession, Replays, after_all, seen_of}
use scot.Base.{◌*◌, ◌%◌, ◌≡◌, ◌<◌, inl, length, List, some, [], ◌∷◌, map, refl, arith}
use scot.Core.Node.{Space, scot_ht_size}
use scot.Core.Node.Linked.{IsSpace, Joined, Reaches, joined, scot_core-linked}
use scot.Core.Node.First.{with_rule}
use scot.Entry.{SlotEntryArgs}
use scot.Memory.{Mem}
use scot.Lfmap.{get_bucket_by_idx}
use scot.Log.{Log, write_local_log, next_message, get_next_aligned_idx}
use scot.Log.Carry.{carry, carry-IsDelivery}
use scot.Writer.{Post}
use scot.Core.{Core, rule_balance}
use scot.Writer.Sequence.{IsLaidOut}
use scot.Core.Serving.{propose_all, served, pure_entry}
use scot.Core.Node.Serves.{node-serves}

-- The same nodes with their slots behind the table.
abbrev wide : Space
wide = record {
  rpli_slot = 60000000;
  chkr_slot = 70000000;
  bucket = 8192;
  heap = λ p. no_entry;
  mem = λ a. a % 251;
}

wide-IsSpace : IsSpace wide
wide-IsSpace = record { aligned = refl; there = λ e. omega arith }

wide-IsLaidOut : IsLaidOut scot_ht_size wide.bucket wide.rpli_slot
unfolding get_bucket_by_idx
wide-IsLaidOut = record {
  some_lists = omega arith;
  bucket_aligned = omega arith;
  slot_aligned = omega arith;
  apart = λ i j li lj e. omega arith;
}

abbrev wide_one : Joined 3 fabric wide 1
wide_one = joined 3 fabric wide 1 (λ c. refl) wide-IsSpace

-- A proposal of the node's own and one of another node.
abbrev two_proposals : List SlotEntryArgs
two_proposals = args ∷ record args { hashv = 8 } ∷ []

node-serves_example :
    (d : Core) × (posts : List Post) × (propose_all 513
        (with_rule wide_one.node by_rest)
        two_proposals
      ≡ some (d, posts))
    × ((d.rpli.log, d.chkr.writer.log, d.mem)
        ≡ served
            (rule_balance 3)
            wide_one.node.core.nid
            wide_one.node.core.quorum
            wide_one.node.core.rpli.log
            wide_one.node.core.chkr.writer.log
            wide_one.node.core.mem
            two_proposals)
    × (length posts ≡ length two_proposals * length wide_one.node.core.quorum)
node-serves_example =
    node-serves {n = 3} {hb = fabric} {space = wide} {a = 1} wide_one by_rest (rule_balance 3) refl
      wide-IsLaidOut two_proposals

-- Two nodes, and two proposals that the first one owns.
pair : (ja : Joined 3 fabric wide 1) × (jb : Joined 3 fabric wide 2) × Reaches ja.node jb.node 1 2
pair =
    scot_core-linked {n = 3} {hbs = λ a. fabric} fabric-IsFabric {a = 1} {b = 2} (omega arith)
      (omega arith) (ground arith) {sa = wide} {sb = wide} wide-IsSpace wide-IsSpace

abbrev core_one : Core
core_one = with_rule pair.0.node by_rest

abbrev log_one : Log
log_one = core_one.rpli.log

abbrev log_two : Log
log_two = pair.2.rply.log

abbrev later_args : SlotEntryArgs
later_args = record args { hashv = 10; buffer = 2 }

abbrev first_written : Mem
first_written = (write_local_log log_one core_one.mem (pure_entry args)).1

abbrev first_way : Way
first_way = record {
  signals = 0 ∷ [];
  ks = 3 ∷ 14 ∷ [];
  image = carry first_written pair.1.node.core.mem (place log_one) (place log_two);
}

abbrev first_left : Mem
first_left = leaves log_two 5 first_way.image

abbrev later_way : Way
later_way = record {
  signals = 0 ∷ [];
  ks = 14 ∷ [];
  image =
      carry (write_local_log (next_message log_one 5) first_written (pure_entry later_args)).1
        first_left (place (next_message log_one 5)) (place (next_message log_two 5));
}

abbrev both : List (SlotEntryArgs × Way)
both = (args, first_way) ∷ (later_args, later_way) ∷ []

-- A message of five bytes takes four elements.
first_place : (l : Log) → l.next_free ≡ 0 → (next_message l 5).next_free ≡ 4
unfolding next_message get_next_aligned_idx
first_place l e = rw e refl

later_place : (l : Log) → l.next_free ≡ 4 → (next_message l 5).next_free ≡ 8
unfolding next_message get_next_aligned_idx
later_place l e = rw e refl

first_room : log_one.next_free < (next_message log_one 5).next_free
first_room = let e = pair.0.is_node.rpli_place in omega (arith, first_place log_one e)

later_room :
    (next_message log_one 5).next_free < (next_message (next_message log_one 5) 5).next_free
later_room =
    let e = first_place log_one pair.0.is_node.rpli_place in
    omega (arith, later_place (next_message log_one 5) e)

both-Succession : Succession log_one log_two core_one.mem pair.1.node.core.mem (messages both)
unfolding pause_loop
both-Succession = (
  record {
    fits = record { hashv = omega arith; buffer_sz = omega arith; msg = omega arith };
    small = omega arith;
    apart = inl (omega arith);
    type = inl refl;
    room = first_room;
    delivery =
        carry-IsDelivery first_written pair.1.node.core.mem (place log_one) (place log_two) 14;
    seen = (omega arith, refl);
    passes = refl;
  },
  (
    record {
      fits = record { hashv = omega arith; buffer_sz = omega arith; msg = omega arith };
      small = omega arith;
      apart = inl (omega arith);
      type = inl refl;
      room = later_room;
      delivery =
          carry-IsDelivery
            (write_local_log (next_message log_one 5) first_written (pure_entry later_args)).1
            first_left (place (next_message log_one 5)) (place (next_message log_two 5)) 14;
      seen = refl;
      passes = refl;
    },
    tt,
  ),
)

node-replicates_example :
    (d : Core) × (posts : List Post) × (propose_all 513 core_one (proposals both) ≡ some (d, posts))
    × Posted posts 2 pair.2.at (length core_one.quorum) log_one log_two core_one.mem (messages both)
    × (replayer_worker log_two (rounds (map seen_of (messages both))) ≡ [])
    × Replays log_one log_two core_one.mem
        (after_all log_two pair.1.node.core.mem (messages both))
        (messages both)
node-replicates_example =
    node-replicates {n = 3} {ha = fabric} {hb = fabric} {spa = wide} {spb = wide} {a = 1} {b = 2}
      pair.0 pair.1 pair.2 by_rest (rule_balance 3) refl wide-IsLaidOut both (refl, (refl, tt))
      both-Succession
