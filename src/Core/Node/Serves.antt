-- ===== src/Core/Node/Serves.antt =====
-- A linked node of a cluster under any number of proposals.
use scot.Base.{ℕ, ◌*◌, ◌≡◌, refl, ap, some, List, [], length, arith}
use scot.Entry.{SlotEntryArgs}
use scot.Slot.{Counters}
use scot.Writer.{Post}
use scot.Writer.Sequence.{IsLaidOut}
use scot.Conn.Calls.{Hartebeest}
use scot.Core.{Core, Judge, Rule}
use scot.Core.Serving.{IsServing, propose_all, propose_all-Serves, served}
use scot.Core.Node.{Space, scot_ht_size}
use scot.Core.Node.Linked.{Joined}
use scot.Core.Node.First.{with_rule}

module _ {n : ℕ} {hb : Hartebeest} {space : Space} {a : ℕ} (joined : Joined n hb space a)
    (j : Judge) (rule : Rule) (active : j.active_rule ≡ some rule)
    (laid : IsLaidOut scot_ht_size space.bucket space.rpli_slot) where
  abbrev node : Core
  node = with_rule joined.node j

  no_slots : node.rpli.counters.next_free ≡ 0
  no_slots = ap (λ (c : Counters). c.next_free) joined.is_node.rpli_counters

  no_finished : node.rpli.counters.processed ≡ 0
  no_finished = ap (λ (c : Counters). c.processed) joined.is_node.rpli_counters

  pub node-IsServing : IsServing scot_ht_size space.bucket rule node
  node-IsServing = record {
    active = active;
    hasht = joined.is_node.hasht;
    laid = rw joined.is_node.rpli_slot laid;
    idle = record {
      room = omega (arith, no_slots);
      balance = omega (arith, no_slots, no_finished);
      cells = λ i. [];
      reg = [];
      table = joined.is_node.table;
      size = omega (arith, no_slots);
      unused = λ i le. refl;
    };
    quiet =
        let e = ap (λ (c : Counters). c.next_free) joined.is_node.chkr_counters in
        let f = ap (λ (c : Counters). c.processed) joined.is_node.chkr_counters in
        (omega arith, omega arith);
  }

  -- Take a node of a cluster as both constructors leave it, with an active rule, and with its slots
  -- apart from its table. Any number of proposals, one after another, return, with fuel for one round
  -- more than there are slots: the logs of the replicator and the checker and the bytes of the process are
  -- what writing the messages one after another leaves, those of the node's own proposals in the log
  -- of the replicator and all others in that of the checker, where each has the type that the last peer
  -- was sent; and there is one post for each proposal and peer.
  pub node-serves :
      (sas : List SlotEntryArgs)
      → (d : Core) × (posts : List Post) × (propose_all 513 node sas ≡ some (d, posts))
        × ((d.rpli.log, d.chkr.writer.log, d.mem)
            ≡ served rule node.nid node.quorum node.rpli.log node.chkr.writer.log node.mem sas)
        × (length posts ≡ length sas * length node.quorum)
  node-serves sas =
      let (d, posts, done, logs, size, last) =
        propose_all-Serves scot_ht_size space.bucket rule 512 (omega arith) node sas
          node-IsServing in
      (d, posts, done, logs, size)
