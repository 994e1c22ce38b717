-- ===== src/Conn.antt =====
-- src/scot-conn.cc and src/includes/scot-conn.hh, class ScotConnection: how a node sets its connections
-- up, as the trace of the calls that it makes.
pub mod Strings
pub mod Key
pub mod Calls
pub mod Rendezvous
pub mod Pairing
pub mod MadeFirst
pub mod Phases
pub mod Barrier
pub mod Result
mod Examples
use scot.Base.{
  ℕ, zero, suc, Bool, true, false, ◌&&◌, Option, none, some, List, [], ◌∷◌, ◌++◌, map, ◌>>=◌,
  if◌then◌else◌,
}
use scot.Base.Int.{ℤ, pos}
use scot.Log.{scot_buffer_sz}
use scot.Core.{quorum_ids}
use scot.Conn.Strings.{Text, codes, to_string, stoi}
use scot.Conn.Key.{
  wkey_helper, rkey_helper, no_id, Keyset, rpli_ks, chkr_ks, rply_ks, rcvr_ks, hbkey_pd,
  hbkey_mr_hbtr, hbkey_qp_hbtr, hbkey_scq_hbtr, hbkey_rcq_hbtr,
}
use scot.Conn.Calls.{
  Call, init, create_local_pd, create_local_mr, create_basiccq, create_local_qp, init_local_qp,
  memc_push_local_mr, memc_push_local_qp, memc_fetch_remote_mr, memc_fetch_remote_qp,
  connect_local_qp, memc_push_general, memc_wait_general, memc_del_general, Hartebeest,
}

-- `struct ConnContext`: pointers to queue pairs and memory regions.
pub record LocalSide : Type 0 where
  pub rpli_qp : ℕ
  pub chkr_qp : ℕ
  pub hbtr_qp : ℕ
  pub rpli_mr : ℕ
  pub chkr_mr : ℕ
  pub hbtr_mr : ℕ

pub record RemoteSide : Type 0 where
  pub rply_mr : ℕ
  pub rcvr_mr : ℕ
  pub hbtr_mr : ℕ

pub record Context : Type 0 where
  pub nid : ℕ
  pub local : LocalSide
  pub remote : RemoteSide

-- The constructor of ConnContext.
abbrev pub conn_context : ℕ → Context
conn_context nid = record {
  nid = nid;
  local = record { rpli_qp = 0; chkr_qp = 0; hbtr_qp = 0; rpli_mr = 0; chkr_mr = 0; hbtr_mr = 0 };
  remote = record { rply_mr = 0; rcvr_mr = 0; hbtr_mr = 0 };
}

-- The keys of this node `nid` for its peer, by each helper.
abbrev pub wkey : Text → (nid peer : ℕ) → Text
wkey r nid peer = wkey_helper r (pos nid) (pos peer)

abbrev pub rkey : Text → (nid peer : ℕ) → Text
rkey r nid peer = rkey_helper r (pos nid) (pos peer)

-- sizeof(struct ScotScoreboard)
abbrev pub sizeof_scoreboard : ℕ
sizeof_scoreboard = 4

abbrev pub hbtr_key : ℕ → Text
hbtr_key nid = wkey_helper hbkey_mr_hbtr (pos nid) no_id

-- `__init_hartebeest` before its loop.
unfoldable pub init_writers : ℕ → List Call
init_writers nid =
    init
    ∷ create_local_pd hbkey_pd
    ∷ create_local_mr hbkey_pd (wkey_helper rpli_ks.mr no_id no_id) scot_buffer_sz
    ∷ create_local_mr hbkey_pd (wkey_helper chkr_ks.mr no_id no_id) scot_buffer_sz
    ∷ create_local_mr hbkey_pd (hbtr_key nid) sizeof_scoreboard
    ∷ memc_push_local_mr (hbtr_key nid) hbkey_pd (hbtr_key nid)
    ∷ []

-- The two completion queues and the queue pair of one key set, by one helper.
abbrev pub create_cqs : (Text → ℕ → ℕ → Text) → Keyset → (nid peer : ℕ) → List Call
create_cqs key ks nid peer =
    create_basiccq (key ks.scq nid peer) ∷ create_basiccq (key ks.rcq nid peer) ∷ []

abbrev pub create_qp : (Text → ℕ → ℕ → Text) → Keyset → (nid peer : ℕ) → Call
create_qp key ks nid peer =
    create_local_qp hbkey_pd (key ks.qp nid peer) (key ks.scq nid peer) (key ks.rcq nid peer)

abbrev pub push_qp : (Text → ℕ → ℕ → Text) → Text → (nid peer : ℕ) → Call
push_qp key r nid peer = memc_push_local_qp (key r nid peer) hbkey_pd (key r nid peer)

abbrev pub push_mr : (Text → ℕ → ℕ → Text) → Text → (nid peer : ℕ) → Call
push_mr key r nid peer = memc_push_local_mr (key r nid peer) hbkey_pd (key r nid peer)

-- The body of the loop of `__init_hartebeest`, in three parts: the writers, the readers, the heartbeat.
unfoldable pub init_peer_writers : (nid peer : ℕ) → List Call
init_peer_writers nid peer =
    create_cqs wkey rpli_ks nid peer
    ++ create_cqs wkey chkr_ks nid peer
    ++ create_qp wkey rpli_ks nid peer
      ∷ create_qp wkey chkr_ks nid peer
      ∷ init_local_qp hbkey_pd (wkey rpli_ks.qp nid peer)
      ∷ init_local_qp hbkey_pd (wkey chkr_ks.qp nid peer)
      ∷ push_qp wkey rpli_ks.qp nid peer
      ∷ push_qp wkey chkr_ks.qp nid peer
      ∷ []

unfoldable pub init_peer_readers : (nid peer : ℕ) → List Call
init_peer_readers nid peer =
    create_cqs rkey rply_ks nid peer
    ++ create_cqs rkey rcvr_ks nid peer
    ++ create_local_mr hbkey_pd (rkey rply_ks.mr nid peer) scot_buffer_sz
      ∷ create_local_mr hbkey_pd (rkey rcvr_ks.mr nid peer) scot_buffer_sz
      ∷ create_qp rkey rply_ks nid peer
      ∷ create_qp rkey rcvr_ks nid peer
      ∷ init_local_qp hbkey_pd (rkey rply_ks.qp nid peer)
      ∷ init_local_qp hbkey_pd (rkey rcvr_ks.qp nid peer)
      ∷ push_qp rkey rply_ks.qp nid peer
      ∷ push_mr rkey rply_ks.mr nid peer
      ∷ push_qp rkey rcvr_ks.qp nid peer
      ∷ push_mr rkey rcvr_ks.mr nid peer
      ∷ []

unfoldable pub init_peer_heartbeat : (nid peer : ℕ) → List Call
init_peer_heartbeat nid peer =
    create_basiccq (wkey hbkey_scq_hbtr nid peer)
    ∷ create_basiccq (wkey hbkey_rcq_hbtr nid peer)
    ∷ create_local_qp hbkey_pd (wkey hbkey_qp_hbtr nid peer) (wkey hbkey_scq_hbtr nid peer)
        (wkey hbkey_rcq_hbtr nid peer)
    ∷ init_local_qp hbkey_pd (wkey hbkey_qp_hbtr nid peer)
    ∷ push_qp wkey hbkey_qp_hbtr nid peer
    ∷ []

unfoldable pub init_peer : (nid peer : ℕ) → List Call
init_peer nid peer =
    init_peer_writers nid peer ++ (init_peer_readers nid peer ++ init_peer_heartbeat nid peer)

-- What the body stores in the context.
unfoldable pub init_local : Hartebeest → (nid : ℕ) → Context → Context
init_local hb nid ctx = record ctx {
  local = record {
    rpli_qp = hb.local_qp (wkey rpli_ks.qp nid ctx.nid);
    chkr_qp = hb.local_qp (wkey chkr_ks.qp nid ctx.nid);
    hbtr_qp = hb.local_qp (wkey hbkey_qp_hbtr nid ctx.nid);
    rpli_mr = hb.local_mr (wkey_helper rpli_ks.mr no_id no_id);
    chkr_mr = hb.local_mr (wkey_helper chkr_ks.mr no_id no_id);
    hbtr_mr = hb.local_mr (hbtr_key nid);
  };
}

-- The pushes whose result the body asserts.
unfoldable pub init_asserts : Hartebeest → (nid peer : ℕ) → Bool
init_asserts hb nid peer =
    hb.is_pushed (push_qp wkey rpli_ks.qp nid peer)
    && hb.is_pushed (push_qp wkey chkr_ks.qp nid peer)
    && hb.is_pushed (push_qp rkey rply_ks.qp nid peer)
    && hb.is_pushed (push_mr rkey rply_ks.mr nid peer)
    && hb.is_pushed (push_qp rkey rcvr_ks.qp nid peer)
    && hb.is_pushed (push_mr rkey rcvr_ks.mr nid peer)
    && hb.is_pushed (push_qp wkey hbkey_qp_hbtr nid peer)

-- The body of the loop of `__connect_qps`.
unfoldable pub connect_peer : (nid peer : ℕ) → List Call
connect_peer nid peer =
    memc_fetch_remote_mr (wkey rply_ks.mr nid peer)
    ∷ memc_fetch_remote_qp (wkey rply_ks.qp nid peer)
    ∷ connect_local_qp hbkey_pd (wkey rpli_ks.qp nid peer) (wkey rply_ks.qp nid peer)
    ∷ memc_fetch_remote_mr (wkey rcvr_ks.mr nid peer)
    ∷ memc_fetch_remote_qp (wkey rcvr_ks.qp nid peer)
    ∷ connect_local_qp hbkey_pd (wkey chkr_ks.qp nid peer) (wkey rcvr_ks.qp nid peer)
    ∷ memc_fetch_remote_qp (rkey rpli_ks.qp nid peer)
    ∷ connect_local_qp hbkey_pd (rkey rply_ks.qp nid peer) (rkey rpli_ks.qp nid peer)
    ∷ memc_fetch_remote_qp (rkey chkr_ks.qp nid peer)
    ∷ connect_local_qp hbkey_pd (rkey rcvr_ks.qp nid peer) (rkey chkr_ks.qp nid peer)
    ∷ memc_fetch_remote_mr (hbtr_key nid)
    ∷ memc_fetch_remote_qp (rkey hbkey_qp_hbtr nid peer)
    ∷ connect_local_qp hbkey_pd (wkey hbkey_qp_hbtr nid peer) (rkey hbkey_qp_hbtr nid peer)
    ∷ []

unfoldable pub connect_remote : Hartebeest → (nid : ℕ) → Context → Context
connect_remote hb nid ctx = record ctx {
  remote = record {
    rply_mr = hb.remote_mr (wkey rply_ks.mr nid ctx.nid);
    rcvr_mr = hb.remote_mr (wkey rcvr_ks.mr nid ctx.nid);
    hbtr_mr = hb.remote_mr (hbtr_key nid);
  };
}

-- `__wait_connection`, where `nid` is the text of the environment variable.
unfoldable pub wait_key : Text → Text
wait_key nid = nid ++ codes "-wait"

abbrev pub wait_peer : (peer : ℕ) → Call
wait_peer peer = memc_wait_general (wait_key (to_string peer))

-- The body of the loop of `__finalize_hartebeest`.
unfoldable pub finalize_peer : (nid peer : ℕ) → List Call
finalize_peer nid peer =
    memc_del_general (wkey rpli_ks.qp nid peer)
    ∷ memc_del_general (wkey chkr_ks.qp nid peer)
    ∷ memc_del_general (rkey rply_ks.qp nid peer)
    ∷ memc_del_general (rkey rcvr_ks.qp nid peer)
    ∷ memc_del_general (rkey rply_ks.mr nid peer)
    ∷ memc_del_general (rkey rcvr_ks.mr nid peer)
    ∷ []

-- `for (auto& ctx: quroum_conns)`
unfoldable pub each_peer : (ℕ → List Call) → List ℕ → List Call
each_peer f [] = []
each_peer f (peer ∷ peers) = f peer ++ each_peer f peers

unfoldable pub all_asserts : (ℕ → Bool) → List ℕ → Bool
all_asserts f [] = true
all_asserts f (peer ∷ peers) = f peer && all_asserts f peers

-- ScotConnection
pub record Connection : Type 0 where
  pub nid : Text
  pub quorum_sz : ℕ
  pub quroum_conns : List Context

-- The trace of the constructor, for the node's id as a number and as a text.
unfoldable pub setup_calls : Text → (nid : ℕ) → List ℕ → List Call
setup_calls nid_text nid peers =
    init_writers nid
    ++ (each_peer (init_peer nid) peers
        ++ (each_peer (connect_peer nid) peers
            ++ ((memc_push_general (wait_key nid_text) ∷ map wait_peer peers)
                ++ each_peer (finalize_peer nid) peers)))

-- The constructor, for the texts of the two environment variables; `none` is an exception of `stoi` or
-- an assertion that failed.
unfoldable pub scot_connection : Hartebeest → (nid qsize : Text) → Option (Connection × List Call)
scot_connection hb nid qsize = do
  quorum_sz ← stoi qsize
  my_nid ← stoi nid
  let peers = quorum_ids quorum_sz 0 my_nid
  if all_asserts (init_asserts hb my_nid) peers
      then some (
        record {
          nid = nid;
          quorum_sz = quorum_sz;
          quroum_conns =
              map (λ peer. connect_remote hb my_nid (init_local hb my_nid (conn_context peer)))
                peers;
        },
        setup_calls nid my_nid peers,
      )
      else none

-- `get_my_nid`; `none` is an exception of `stoi`.
abbrev pub get_my_nid : Connection → Option ℕ
get_my_nid conn = stoi conn.nid

abbrev pub get_quorum_sz : Connection → ℕ
get_quorum_sz conn = conn.quorum_sz

abbrev pub get_quorum : Connection → List Context
get_quorum conn = conn.quroum_conns
