-- ===== src/Conn/MadeFirst.antt =====
-- The order of the calls within a node: nothing is used before it is made.
pub mod Trace
use scot.Base.{ℕ, ◌≡◌, inl, inr, true, List, [], ◌∷◌, ◌++◌, map, refl, arith}
use scot.Core.Owner.{member}
use scot.Conn.Strings.{Text}
use scot.Conn.Key.{hbkey_pd, rpli_ks, chkr_ks, rply_ks, rcvr_ks, hbkey_qp_hbtr}
use scot.Conn.Calls.{
  Call, create_local_pd, create_local_mr, create_basiccq, create_local_qp, init_local_qp,
  memc_push_local_mr, memc_push_local_qp, memc_fetch_remote_qp, connect_local_qp, memc_push_general,
  Has,
}
use scot.Conn.{
  wkey, rkey, init_writers, init_peer, init_peer_writers, init_peer_readers, init_peer_heartbeat,
  connect_peer, each_peer, finalize_peer, wait_peer, setup_calls, wait_key,
}
use scot.Conn.Rendezvous.{Has-each_peer}

-- What has to be among the earlier calls for a call.
abbrev pub Needs : List Call → Call → Type 0
Needs before (create_local_mr pd mr size) = Has (create_local_pd pd) before
Needs before (create_local_qp pd qp scq rcq) =
    Has (create_local_pd pd) before
    × Has (create_basiccq scq) before
    × Has (create_basiccq rcq) before
Needs before (init_local_qp pd qp) =
    (scq : Text) × (rcq : Text) × Has (create_local_qp pd qp scq rcq) before
Needs before (memc_push_local_mr key pd mr) = (size : ℕ) × Has (create_local_mr pd mr size) before
Needs before (memc_push_local_qp key pd qp) = Has (init_local_qp pd qp) before
Needs before (connect_local_qp pd local_qp remote_qp) =
    Has (init_local_qp pd local_qp) before × Has (memc_fetch_remote_qp remote_qp) before
Needs before _ = Unit

-- Every call of a trace finds what it needs among the earlier ones; `before` is latest first.
abbrev pub MadeFirst : List Call → List Call → Type 0
MadeFirst before [] = Unit
MadeFirst before (c ∷ cs) = Needs before c × MadeFirst (c ∷ before) cs

abbrev pub Within : List Call → List Call → Type 0
Within b b' = (d : Call) → Has d b → Has d b'

Needs-Within : (b b' : List Call) (c : Call) → Within b b' → Needs b c → Needs b' c
Needs-Within b b' (create_local_mr pd mr size) w h = w _ h
Needs-Within b b' (create_local_qp pd qp scq rcq) w (h, i, j) = (w _ h, w _ i, w _ j)
Needs-Within b b' (init_local_qp pd qp) w (s, r, h) = (s, r, w _ h)
Needs-Within b b' (memc_push_local_mr key pd mr) w (n, h) = (n, w _ h)
Needs-Within b b' (memc_push_local_qp key pd qp) w h = w _ h
Needs-Within b b' (connect_local_qp pd l r) w (h, i) = (w _ h, w _ i)
Needs-Within b b' _ w h = tt

pub MadeFirst-Within : (b b' cs : List Call) → Within b b' → MadeFirst b cs → MadeFirst b' cs
MadeFirst-Within b b' [] w m = tt
MadeFirst-Within b b' (c ∷ cs) w (h, m) = (
  Needs-Within b b' c w h,
  MadeFirst-Within (c ∷ b) (c ∷ b') cs (λ d i. elim i [ inl e ↦ inl e | inr j ↦ inr (w d j) ]) m,
)

-- The calls of a trace, latest first, in front of the earlier ones.
abbrev pub push_all : List Call → List Call → List Call
push_all [] b = b
push_all (c ∷ cs) b = push_all cs (c ∷ b)

pub Within-push_all : (cs b : List Call) → Within b (push_all cs b)
Within-push_all [] b d h = h
Within-push_all (c ∷ cs) b d h = Within-push_all cs (c ∷ b) d (inr h)

pub Has-push_all : (cs b : List Call) → Within cs (push_all cs b)
Has-push_all [] b d h = elim h [ ]
Has-push_all (c ∷ cs) b d (inl e) = Within-push_all cs (c ∷ b) d (inl e)
Has-push_all (c ∷ cs) b d (inr h) = Has-push_all cs (c ∷ b) d h

pub MadeFirst-append :
    (b cs ds : List Call) → MadeFirst b cs → MadeFirst (push_all cs b) ds → MadeFirst b (cs ++ ds)
MadeFirst-append b [] ds m k = k
MadeFirst-append b (c ∷ cs) ds (h, m) k = (h, MadeFirst-append (c ∷ b) cs ds m k)

-- Each peer's part is well ordered on top of what came before the loop.
pub MadeFirst-each_peer :
    (b : List Call) (f : ℕ → List Call) (peers : List ℕ)
    → ((p : ℕ) → member p peers ≡ true → MadeFirst b (f p))
    → MadeFirst b (each_peer f peers)
unfolding each_peer
MadeFirst-each_peer b f [] m = tt
MadeFirst-each_peer b f (p ∷ peers) m =
    MadeFirst-append b (f p) (each_peer f peers) (m p (ground arith)) (
      MadeFirst-Within b _ (each_peer f peers) (Within-push_all (f p) b)
        (MadeFirst-each_peer b f peers (λ q h. m q (ground arith))))
