-- ===== src/Core/Node/Ready.antt =====
-- What the constructor of ScotCore leaves.
use scot.Base.{
  ℕ, ◌+◌, ◌%◌, ◌≡◌, ◌≢◌, ◌<◌, ◌≤◌, Bool, true, false, All, All-map, All-through, map-map, ◌∙◌, some,
  List, [], ◌∷◌, map, ◌==◌, refl, ap, arith,
}
use scot.Entry.{Heap, scot_hash_cmp}
use scot.Memory.{Mem, memzero}
use scot.Log.{Log, scot_log, sizeof_aligned_log}
use scot.Lfmap.{LockfreeMap, lockfree_map, reset}
use scot.Lfmap.Find.{hash_table}
use scot.Replicator.Table.{IsTable}
use scot.Replicator.Reset.{reset-IsTable}
use scot.Writer.{Writer}
use scot.Reader.Worker.{
  Replayer, Receiver, scot_replayer, scot_receiver, toggle_replayer, toggle_receiver,
  scot_wrkr_pause, pause_loop,
}
use scot.Conn.Strings.{Text, stoi}
use scot.Conn.Key.{wkey_helper, no_id, rpli_ks, chkr_ks, rply_ks, rcvr_ks}
use scot.Conn.Calls.{Hartebeest}
use scot.Conn.{Connection, Context, rkey}
use scot.Core.Node.{
  Node, Space, scot_core, scot_writer, scot_replicator, scot_checker, init_replayers,
  init_receivers, conn_addresses, wire_core, local_addr, get_nid, scot_ht_size,
}

-- The region of a log holds zeros.
abbrev pub IsClear : Mem → Log → Type 0
IsClear m l = (a : ℕ) → l.log ≤ a → a < l.log + sizeof_aligned_log → m a ≡ 0

abbrev Keeps : Mem → Mem → Type 0
Keeps m g = (a : ℕ) → m a ≡ 0 → g a ≡ 0

scot_log-Keeps : (addr : ℕ) (m : Mem) → Keeps m (scot_log addr m).1
unfolding scot_log memzero
scot_log-Keeps addr m a z = ground arith

scot_log-IsClear : (addr : ℕ) (m : Mem) → IsClear (scot_log addr m).1 (scot_log addr m).0
unfolding scot_log memzero
scot_log-IsClear addr m a le lt = ground arith

-- A reader and its worker: the log begins at its place in the region registered for the peer, which is
-- clear; the thread is there, and does not pause.
abbrev pub IsReady :
    Hartebeest → (key : Text) → (nid : ℕ) → Mem → Log → (worker : Bool) → (signal id : ℕ) → Type 0
IsReady hb key nid m log worker signal id =
    (log.log ≡ local_addr hb (rkey key nid id))
    × (log.next_free ≡ 0)
    × IsClear m log
    × (worker ≡ true)
    × (signal ≡ 0)

abbrev pub IsReplayerReady : Hartebeest → (nid : ℕ) → Mem → Replayer → Type 0
IsReplayerReady hb nid m r = IsReady hb rply_ks.mr nid m r.log r.worker r.worker_signal r.id

abbrev pub IsReceiverReady : Hartebeest → (nid : ℕ) → Mem → Receiver → Type 0
IsReceiverReady hb nid m r = IsReady hb rcvr_ks.mr nid m r.log r.worker r.worker_signal r.id

abbrev run_replayer : Replayer → Replayer
run_replayer r = toggle_replayer r scot_wrkr_pause

abbrev run_receiver : Receiver → Receiver
run_receiver r = toggle_receiver r scot_wrkr_pause

module _ (hb : Hartebeest) (nid : ℕ) where
  replayers-ready :
      (ctxs : List Context) (m : Mem)
      → (map (λ r. r.id) (init_replayers hb nid ctxs m).0 ≡ map (λ ctx. ctx.nid) ctxs)
        × Keeps m (init_replayers hb nid ctxs m).1
        × All
            (λ r. IsReplayerReady hb nid (init_replayers hb nid ctxs m).1 (run_replayer r))
            (init_replayers hb nid ctxs m).0
  unfolding init_replayers scot_replayer scot_log pause_loop
  replayers-ready [] m = (refl, λ a z. z, tt)
  replayers-ready (ctx ∷ ctxs) m =
      let addr = local_addr hb (rkey rply_ks.mr nid ctx.nid) in
      let (ids, keeps, ready) = replayers-ready ctxs (scot_log addr m).1 in
      (
        ap (λ (t : List ℕ). ctx.nid ∷ t) ids,
        λ a z. keeps a (scot_log-Keeps addr m a z),
        ((refl, refl, λ a le lt. keeps a (scot_log-IsClear addr m a le lt), refl, refl), ready),
      )

  receivers-ready :
      (ctxs : List Context) (m : Mem)
      → (map (λ r. r.id) (init_receivers hb nid ctxs m).0 ≡ map (λ ctx. ctx.nid) ctxs)
        × Keeps m (init_receivers hb nid ctxs m).1
        × All
            (λ r. IsReceiverReady hb nid (init_receivers hb nid ctxs m).1 (run_receiver r))
            (init_receivers hb nid ctxs m).0
  unfolding init_receivers scot_receiver scot_log pause_loop
  receivers-ready [] m = (refl, λ a z. z, tt)
  receivers-ready (ctx ∷ ctxs) m =
      let addr = local_addr hb (rkey rcvr_ks.mr nid ctx.nid) in
      let (ids, keeps, ready) = receivers-ready ctxs (scot_log addr m).1 in
      (
        ap (λ (t : List ℕ). ctx.nid ∷ t) ids,
        λ a z. keeps a (scot_log-Keeps addr m a z),
        ((refl, refl, λ a le lt. keeps a (scot_log-IsClear addr m a le lt), refl, refl), ready),
      )

-- The node that the constructor makes.
pub record IsNode (hb : Hartebeest) (conn : Connection) (space : Space) (nid : ℕ) (n : Node)
    : Type 0 where
  pub made : scot_core hb conn space ≡ some n
  pub own_nid : get_nid n ≡ nid
  pub quorum : n.core.quorum ≡ map (conn_addresses hb) conn.quroum_conns
  pub rply_ids : map (λ r. r.id) n.vec_rply ≡ map (λ ctx. ctx.nid) conn.quroum_conns
  pub rcvr_ids : map (λ r. r.id) n.vec_rcvr ≡ map (λ ctx. ctx.nid) conn.quroum_conns
  pub rply_ready : All (IsReplayerReady hb nid n.core.mem) n.vec_rply
  pub rcvr_ready : All (IsReceiverReady hb nid n.core.mem) n.vec_rcvr
  pub rpli_clear : IsClear n.core.mem n.core.rpli.log
  pub chkr_clear : IsClear n.core.mem n.core.chkr.writer.log
  pub rpli_slot : n.core.rpli_slot ≡ space.rpli_slot
  pub rpli_counters : n.core.rpli.counters ≡ record { next_free = 0; processed = 0 }
  pub chkr_counters : n.core.chkr.writer.counters ≡ record { next_free = 0; processed = 0 }
  pub rpli_place : n.core.rpli.log.next_free ≡ 0
  pub rpli_instn : n.core.rpli.log.instn ≡ 0
  pub hasht : n.core.hasht ≡ hash_table scot_ht_size space.bucket
  pub table : IsTable scot_ht_size space.bucket n.core.rpli.heap (λ i. []) []

-- The writer that the constructor of ScotReplicator makes.
abbrev fresh_writer : (addr bucket : ℕ) → Heap → Mem → Writer
fresh_writer addr bucket h m = record {
  counters = record { next_free = 0; processed = 0 };
  log = (scot_log addr m).0;
  heap = reset (hash_table scot_ht_size bucket) h;
  mem = (scot_log addr m).1;
}

table_made :
    (nelem bucket : ℕ) (h : Heap)
    → (bucket == 0) ≡ false
    → lockfree_map nelem scot_hash_cmp bucket h
      ≡ some (hash_table nelem bucket, reset (hash_table nelem bucket) h)
unfolding lockfree_map
table_made nelem bucket h e = rw e refl

replicator_made :
    (addr bucket : ℕ) (h : Heap) (m : Mem)
    → (bucket == 0) ≡ false
    → scot_replicator addr bucket h m
      ≡ some (fresh_writer addr bucket h m, hash_table scot_ht_size bucket, (scot_log addr m).1)
unfolding scot_replicator scot_writer
replicator_made addr bucket h m e = rw (table_made scot_ht_size bucket h e) refl

core_made :
    (hb : Hartebeest) (conn : Connection) (space : Space) (nid : ℕ) (w : Writer) (t : LockfreeMap)
    (m : Mem)
    → stoi conn.nid ≡ some nid
    → scot_replicator
        (local_addr hb (wkey_helper rpli_ks.mr no_id no_id))
        space.bucket
        space.heap
        space.mem
      ≡ some (w, t, m)
    → scot_core hb conn space ≡ some (wire_core hb conn space nid w t m)
unfolding scot_core
core_made hb conn space nid w t m e f = rw (e, f) refl

-- The constructor of ScotCore returns, where the environment gives an id and the allocator an aligned
-- address other than null, and then: there is one replayer and one receiver for each peer, in order; each has its log at the
-- start of the region that is registered for that peer; each thread is spawned and no longer
-- paused; the regions of all logs, those of the two writers included, are clear; the replicator
-- stands at the start of its slots and its log; and the table holds its invariant with nothing
-- registered.
pub scot_core-IsNode :
    (hb : Hartebeest) (conn : Connection) (space : Space) (nid : ℕ)
    → stoi conn.nid ≡ some nid
    → space.bucket % 8 ≡ 0
    → space.bucket ≢ 0
    → (n : Node) × IsNode hb conn space nid n
unfolding wire_core scot_checker scot_writer scot_log
scot_core-IsNode hb conn space nid e aligned there =
    let a0 = local_addr hb (wkey_helper rpli_ks.mr no_id no_id) in
    let a1 = local_addr hb (wkey_helper chkr_ks.mr no_id no_id) in
    let m1 = (scot_log a0 space.mem).1 in
    let m2 = (scot_log a1 m1).1 in
    let p = init_replayers hb nid conn.quroum_conns m2 in
    let q = init_receivers hb nid conn.quroum_conns p.1 in
    let (ids_p, keeps_p, ready_p) = replayers-ready hb nid conn.quroum_conns m2 in
    let (ids_q, keeps_q, ready_q) = receivers-ready hb nid conn.quroum_conns p.1 in
    let not_null : (space.bucket == 0) ≡ false = ground arith in
    let hasht = hash_table scot_ht_size space.bucket in
    let w = fresh_writer a0 space.bucket space.heap space.mem in
    (
      wire_core hb conn space nid w hasht m1,
      record {
        made =
            core_made hb conn space nid w hasht m1 e
              (replicator_made a0 space.bucket space.heap space.mem not_null);
        own_nid = refl;
        quorum = refl;
        rply_ids = map-map (λ r. r.id) run_replayer p.0 ∙ ids_p;
        rcvr_ids = map-map (λ r. r.id) run_receiver q.0 ∙ ids_q;
        rply_ready = All-through _ run_replayer p.0 (
            All-map _ _ p.0 (λ r x. (x.0, x.1, λ a le lt. keeps_q a (x.2 a le lt), x.3, x.4))
              ready_p);
        rcvr_ready = All-through _ run_receiver q.0 ready_q;
        rpli_clear = λ a le lt.
            keeps_q a (keeps_p a (scot_log-Keeps a1 m1 a (scot_log-IsClear a0 space.mem a le lt)));
        chkr_clear = λ a le lt. keeps_q a (keeps_p a (scot_log-IsClear a1 m1 a le lt));
        rpli_slot = refl;
        rpli_counters = refl;
        chkr_counters = refl;
        rpli_place = refl;
        rpli_instn = refl;
        hasht = refl;
        table = (reset-IsTable scot_ht_size space.bucket space.heap (omega arith) (omega arith)).0;
      },
    )
