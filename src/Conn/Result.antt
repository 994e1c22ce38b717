-- ===== src/Conn/Result.antt =====
-- What the constructor of ScotConnection leaves.
use scot.Base.{ℕ, ◌≡◌, true, All, some, List, [], ◌∷◌, map, refl, ap}
use scot.Core.{quorum_ids}
use scot.Conn.Strings.{to_string, stoi-to_string}
use scot.Conn.Key.{rkey_helper, wkey_helper, rply_ks, rcvr_ks}
use scot.Conn.Calls.{Call, Hartebeest}
use scot.Conn.{
  Context, Connection, conn_context, init_local, connect_remote, init_asserts, all_asserts,
  scot_connection, rkey,
}
use scot.Conn.Phases.{calls_of}

asserts_hold :
    (hb : Hartebeest) (nid : ℕ)
    → ((c : Call) → hb.is_pushed c ≡ true)
    → (peers : List ℕ) → all_asserts (init_asserts hb nid) peers ≡ true
unfolding all_asserts init_asserts
asserts_hold hb nid h [] = refl
asserts_hold hb nid h (p ∷ peers) = simp (h, asserts_hold hb nid h peers)

-- What a context says about its peer: both remote regions are those that the peer publishes for this node.
abbrev pub IsWired : Hartebeest → (nid : ℕ) → Context → Type 0
IsWired hb nid ctx =
    (ctx.remote.rply_mr ≡ hb.remote_mr (rkey rply_ks.mr ctx.nid nid))
    × (ctx.remote.rcvr_mr ≡ hb.remote_mr (rkey rcvr_ks.mr ctx.nid nid))

module _ (hb : Hartebeest) (nid : ℕ) where
  abbrev context : ℕ → Context
  context peer = connect_remote hb nid (init_local hb nid (conn_context peer))

  context-nid : (peers : List ℕ) → map (λ ctx. ctx.nid) (map context peers) ≡ peers
  unfolding connect_remote init_local
  context-nid [] = refl
  context-nid (p ∷ peers) = ap (λ (t : List ℕ). p ∷ t) (context-nid peers)

  context-IsWired : (peers : List ℕ) → All (IsWired hb nid) (map context peers)
  unfolding connect_remote init_local wkey_helper rkey_helper
  context-IsWired [] = tt
  context-IsWired (p ∷ peers) = ((refl, refl), context-IsWired peers)

-- The constructor, for a cluster of `n` and the environment variables `nid` and `n` in digits: where
-- every push succeeds, it returns; its trace is that of node `nid`; it has one context for each peer, in
-- the order of the ids; and each context's remote regions are those that the peer publishes for this node.
pub scot_connection-IsWired :
    (hb : Hartebeest) (n nid : ℕ)
    → ((c : Call) → hb.is_pushed c ≡ true)
    → (conn : Connection) × (scot_connection hb (to_string nid) (to_string n)
        ≡ some (conn, calls_of n nid))
      × (conn.nid ≡ to_string nid)
      × (conn.quorum_sz ≡ n)
      × (map (λ ctx. ctx.nid) conn.quroum_conns ≡ quorum_ids n 0 nid)
      × All (IsWired hb nid) conn.quroum_conns
unfolding scot_connection
scot_connection-IsWired hb n nid h = (
  _,
  rw (stoi-to_string n, stoi-to_string nid, asserts_hold hb nid h (quorum_ids n 0 nid)) refl,
  refl,
  refl,
  context-nid hb nid (quorum_ids n 0 nid),
  context-IsWired hb nid (quorum_ids n 0 nid),
)
