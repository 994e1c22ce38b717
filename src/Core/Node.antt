-- ===== src/Core/Node.antt =====
-- src/scot-core.cc, the constructor and the destructor of ScotCore, with those of the writers
-- (src/scot-rpli.cc, src/scot-chkr.cc): which memory region each writer and each worker is given.
pub mod Ready
pub mod Linked
pub mod First
pub mod Serves
pub mod Replicates
mod Examples
mod ServingExamples
use scot.Base.{
  ℕ, Bool, true, false, Option, none, some, List, [], ◌∷◌, ◌++◌, map, ◌>>=◌, if◌then◌else◌, ◌^◌,
}
use scot.Base.Int.{pos}
use scot.Entry.{Heap, scot_hash_cmp}
use scot.Memory.{Mem}
use scot.Log.{scot_log}
use scot.Lfmap.{LockfreeMap, lockfree_map}
use scot.Writer.{Writer, ConnContext}
use scot.Writer.Check.{Checker}
use scot.Core.{Core, part, Judge, Rule, register_rule, update_active}
use scot.Reader.Worker.{
  Replayer, Receiver, scot_replayer, scot_receiver, spawn_replayer, spawn_receiver, toggle_replayer,
  toggle_receiver, scot_wrkr_pause,
}
use scot.Conn.Strings.{Text}
use scot.Conn.Key.{wkey_helper, no_id, rpli_ks, chkr_ks, rply_ks, rcvr_ks}
use scot.Conn.Calls.{Hartebeest}
use scot.Conn.{Connection, Context, get_my_nid, get_quorum_sz, get_quorum, rkey}

abbrev pub scot_ht_size : ℕ
scot_ht_size = 2 ^ 20

-- The constructor of ScotWriter: the slots' counters are 0.
unfoldable pub scot_writer : (addr : ℕ) → Heap → Mem → Writer × Mem
scot_writer addr h m =
    let (log, g) = scot_log addr m in
    (record { counters = record { next_free = 0; processed = 0 }; log = log; heap = h; mem = g }, g)

-- The constructor of ScotReplicator; `bucket` is what `aligned_alloc` returns.
unfoldable pub scot_replicator :
    (addr bucket : ℕ) → Heap → Mem → Option (Writer × LockfreeMap × Mem)
scot_replicator addr bucket h m = do
  let (w, g) = scot_writer addr h m
  (hasht, heap) ← lockfree_map scot_ht_size scot_hash_cmp bucket h
  some (record w { heap = heap }, hasht, g)

-- The constructor of ScotChecker.
unfoldable pub scot_checker : (addr : ℕ) → Heap → Mem → Checker × Mem
scot_checker addr h m =
    let (w, g) = scot_writer addr h m in
    (record { writer = w; wait_hashv = 0; wait_lock = false }, g)

-- A region that this node registered, by its key.
abbrev pub local_addr : Hartebeest → Text → ℕ
local_addr hb key = hb.addr (hb.local_mr key)

-- The loop that makes the replayers, and the one that makes the receivers; each spawns its worker.
unfoldable pub init_replayers : Hartebeest → (nid : ℕ) → List Context → Mem → List Replayer × Mem
init_replayers hb nid [] m = ([], m)
init_replayers hb nid (ctx ∷ ctxs) m =
    let (r, g) = scot_replayer (local_addr hb (rkey rply_ks.mr nid ctx.nid)) ctx.nid m in
    let (rs, final) = init_replayers hb nid ctxs g in (spawn_replayer r ∷ rs, final)

unfoldable pub init_receivers : Hartebeest → (nid : ℕ) → List Context → Mem → List Receiver × Mem
init_receivers hb nid [] m = ([], m)
init_receivers hb nid (ctx ∷ ctxs) m =
    let (r, g) = scot_receiver (local_addr hb (rkey rcvr_ks.mr nid ctx.nid)) ctx.nid m in
    let (rs, final) = init_receivers hb nid ctxs g in (spawn_receiver r ∷ rs, final)

-- What a writer uses of a context: where the peer's regions begin.
abbrev pub conn_addresses : Hartebeest → Context → ConnContext
conn_addresses hb ctx = record {
  nid = ctx.nid;
  rply_addr = hb.addr ctx.remote.rply_mr;
  rcvr_addr = hb.addr ctx.remote.rcvr_mr;
}

-- A node with its workers; `rpli` and `chkr` say whether the two writers are there.
pub record Node : Type 0 where
  pub core : Core
  pub qsize : ℕ
  pub rpli : Bool
  pub chkr : Bool
  pub vec_rply : List Replayer
  pub vec_rcvr : List Receiver

-- A node after its destructor: both writers are deleted, and so are the replayers, whose threads, known by
-- their ids, run on over deleted objects. The receivers are as they were.
pub record Ended : Type 0 where
  pub rpli : Bool
  pub chkr : Bool
  pub dangling : List ℕ
  pub vec_rcvr : List Receiver

-- What the allocator gives to the node.
pub record Space : Type 0 where
  pub rpli_slot : ℕ
  pub chkr_slot : ℕ
  pub bucket : ℕ
  pub heap : Heap
  pub mem : Mem

-- The constructor of ScotCore once it has its id and the replicator.
unfoldable pub wire_core :
    Hartebeest → Connection → Space → (nid : ℕ) → Writer → LockfreeMap → Mem → Node
wire_core hb conn space nid w hasht m1 =
    let (k, m2) = scot_checker (local_addr hb (wkey_helper chkr_ks.mr no_id no_id)) w.heap m1 in
    let (rplys, m3) = init_replayers hb nid (get_quorum conn) m2 in
    let (rcvrs, m4) = init_receivers hb nid (get_quorum conn) m3 in
    record {
      core = record {
        nid = nid;
        uint_judge = record { rdict = []; active_rule = none };
        rpli_slot = space.rpli_slot;
        hasht = hasht;
        chkr_slot = space.chkr_slot;
        quorum = map (conn_addresses hb) (get_quorum conn);
        rpli = part w;
        chkr = record {
          writer = part k.writer;
          wait_hashv = k.wait_hashv;
          wait_lock = k.wait_lock;
        };
        mem = m4;
      };
      qsize = get_quorum_sz conn;
      rpli = true;
      chkr = true;
      vec_rply = map (λ r. toggle_replayer r scot_wrkr_pause) rplys;
      vec_rcvr = map (λ r. toggle_receiver r scot_wrkr_pause) rcvrs;
    }

-- The constructor of ScotCore.
unfoldable pub scot_core : Hartebeest → Connection → Space → Option Node
scot_core hb conn space = do
  nid ← get_my_nid conn
  (w, hasht, m1) ←
      scot_replicator (local_addr hb (wkey_helper rpli_ks.mr no_id no_id)) space.bucket space.heap
        space.mem
  some (wire_core hb conn space nid w hasht m1)

-- The ids of the replayers that have a thread; `worker_spawn` has detached it.
unfoldable pub running : List Replayer → List ℕ
running [] = []
running (r ∷ rs) = if r.worker then r.id ∷ running rs else running rs

-- The destructor. What ~ScotReplayer writes to a signal is gone with the object.
unfoldable pub end_core : Node → Ended
unfolding running
end_core n = record {
  rpli = false;
  chkr = false;
  dangling = running n.vec_rply;
  vec_rcvr = n.vec_rcvr;
}

-- `get_nid` and `get_qsize`
abbrev pub get_nid : Node → ℕ
get_nid n = n.core.nid

abbrev pub get_qsize : Node → ℕ
get_qsize n = n.qsize

abbrev pub add_rule : Node → ℕ → Rule → Node
add_rule n key rulef = record n {
  core = record n.core { uint_judge = register_rule n.core.uint_judge key rulef };
}

-- `ScotCore::update_active`; `none` is an exception.
unfoldable pub update_rule : Node → ℕ → Option Node
update_rule n key = do
  j ← update_active n.core.uint_judge key
  some (record n { core = record n.core { uint_judge = j } })
