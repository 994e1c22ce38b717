-- ===== src/Core/Node/Linked.antt =====
-- Which memory a writer of one node reaches at another.
use scot.Base.{
  ℕ, suc, ◌%◌, ◌==◌, ==_iff, Bool-cases, get_elem?, get_elem?-map, ◌≡◌, ◌≢◌, ◌<◌, true, All, some,
  List, [], ◌∷◌, map, refl, sym, ap, subst, arith, ◌∙◌, inl, inr,
}
use scot.Core.{quorum_ids}
use scot.Core.Owner.{member, quorum_ids-exact}
use scot.Writer.{ConnContext}
use scot.Reader.Worker.{Replayer, Receiver}
use scot.Conn.Strings.{Text, to_string, stoi, stoi-to_string}
use scot.Conn.Key.{hbkey_pd, rply_ks, rcvr_ks}
use scot.Conn.Calls.{Call, Hartebeest, memc_push_local_mr, Has}
use scot.Conn.{Connection, scot_connection, init_peer, init_peer_writers, init_peer_readers, rkey}
use scot.Conn.Rendezvous.{init_calls, pushes}
use scot.Conn.Phases.{calls_of}
use scot.Conn.Result.{IsWired, scot_connection-IsWired}
use scot.Core.Node.{Node, Space, conn_addresses, local_addr}
use scot.Core.Node.Ready.{IsNode, scot_core-IsNode}

-- What is relied on of hartebeest in a cluster of `n`: pushes succeed, and what a node fetches under the
-- key under which node `b` pushed a memory region of that name is that region, at its address.
pub record IsFabric (n : ℕ) (hbs : ℕ → Hartebeest) : Type 0 where
  pub pushed : (a : ℕ) (c : Call) → (hbs a).is_pushed c ≡ true
  pub fetched :
      (a b : ℕ) (k : Text)
      → b < n
      → Has (memc_push_local_mr k hbkey_pd k) (init_calls n b)
      → (hbs a).addr ((hbs a).remote_mr k) ≡ local_addr (hbs b) k

-- What the allocator is relied on for: an aligned address other than null.
pub record IsSpace (s : Space) : Type 0 where
  pub aligned : s.bucket % 8 ≡ 0
  pub there : s.bucket ≢ 0

-- Node `a` of `n` after both constructors.
pub record Joined (n : ℕ) (hb : Hartebeest) (s : Space) (a : ℕ) : Type 0 where
  pub conn : Connection
  pub node : Node
  pub connected : scot_connection hb (to_string a) (to_string n) ≡ some (conn, calls_of n a)
  pub ids : map (λ ctx. ctx.nid) conn.quroum_conns ≡ quorum_ids n 0 a
  pub wired : All (IsWired hb a) conn.quroum_conns
  pub is_node : IsNode hb conn s a node

pub joined :
    (n : ℕ) (hb : Hartebeest) (s : Space) (a : ℕ)
    → ((c : Call) → hb.is_pushed c ≡ true)
    → IsSpace s
    → Joined n hb s a
joined n hb s a pushed space =
    let (conn, e, own, size, ids, wired) = scot_connection-IsWired hb n a pushed in
    let id : stoi conn.nid ≡ some a =
      subst (λ (t : Text). stoi t ≡ some a) (sym own) (stoi-to_string a) in
    let (node, is_node) = scot_core-IsNode hb conn s a id space.aligned space.there in
    record { conn = conn; node = node; connected = e; ids = ids; wired = wired; is_node = is_node }

publishes_rply :
    (n a b : ℕ)
    → a < n
    → a ≢ b
    → Has (memc_push_local_mr (rkey rply_ks.mr b a) hbkey_pd (rkey rply_ks.mr b a)) (init_calls n b)
unfolding init_peer init_peer_writers init_peer_readers
publishes_rply n a b la ne = pushes n a b la ne _ (ground arith)

publishes_rcvr :
    (n a b : ℕ)
    → a < n
    → a ≢ b
    → Has (memc_push_local_mr (rkey rcvr_ks.mr b a) hbkey_pd (rkey rcvr_ks.mr b a)) (init_calls n b)
unfolding init_peer init_peer_writers init_peer_readers
publishes_rcvr n a b la ne = pushes n a b la ne _ (ground arith)

-- Where the ids of a list's elements are known, an element with a given id, and what holds of it.
pick :
    {A : Type 0} (P : A → Type 0) (f : A → ℕ) (xs : List A) (ids : List ℕ) (b : ℕ)
    → map f xs ≡ ids
    → member b ids ≡ true
    → All P xs
    → (i : ℕ) × (x : A) × (get_elem? xs i ≡ some x) × (f x ≡ b) × P x
pick P f [] ids b e m p = absurd (let m' : member b [] ≡ true = rw (← e) at m in cc)
pick P f (x ∷ xs) ids b e m p = elim (Bool-cases (b == f x)) [
  | inl same ↦ (0, x, refl, sym ((==_iff b (f x)).0 same), p.0)
  | inr differ ↦
      let m' : member b (f x ∷ map f xs) ≡ true =
        subst (λ (t : List ℕ). member b t ≡ true) (sym e) m in
      let (i, y, at, named, q) = pick P f xs (map f xs) b refl (rw differ at m') p.1 in
      (suc i, y, at, named, q)
]

-- Node `na` has a context for `b` that holds the addresses of the logs that the replayer and the
-- receiver of node `nb` for `a` read.
pub record Reaches (na nb : Node) (a b : ℕ) : Type 0 where
  pub at : ℕ
  pub ctx : ConnContext
  pub ctx_at : get_elem? na.core.quorum at ≡ some ctx
  pub ctx_nid : ctx.nid ≡ b
  pub rply_place : ℕ
  pub rply : Replayer
  pub rply_at : get_elem? nb.vec_rply rply_place ≡ some rply
  pub rply_id : rply.id ≡ a
  pub rply_addr : ctx.rply_addr ≡ rply.log.log
  pub rcvr_place : ℕ
  pub rcvr : Receiver
  pub rcvr_at : get_elem? nb.vec_rcvr rcvr_place ≡ some rcvr
  pub rcvr_id : rcvr.id ≡ a
  pub rcvr_addr : ctx.rcvr_addr ≡ rcvr.log.log

module _ {n : ℕ} {hbs : ℕ → Hartebeest} (fabric : IsFabric n hbs) {a b : ℕ} (la : a < n)
    (lb : b < n) (ne : a ≢ b) {sa sb : Space} where
  reaches : (ja : Joined n (hbs a) sa a) (jb : Joined n (hbs b) sb b) → Reaches ja.node jb.node a b
  reaches ja jb =
      let rply = fabric.fetched a b (rkey rply_ks.mr b a) lb (publishes_rply n a b la ne) in
      let rcvr = fabric.fetched a b (rkey rcvr_ks.mr b a) lb (publishes_rcvr n a b la ne) in
      let peer_b = (quorum_ids-exact n a b).0 (lb, λ e. ne (sym e)) in
      let peer_a = (quorum_ids-exact n b a).0 (la, ne) in
      let (i, ctx, ctx_at, ctx_nid, w) =
        pick _ (λ c. c.nid) ja.conn.quroum_conns _ b ja.ids peer_b ja.wired in
      let (j, p, p_at, p_id, p_ready) =
        pick _ (λ r. r.id) jb.node.vec_rply _ a (jb.is_node.rply_ids ∙ jb.ids) peer_a
          jb.is_node.rply_ready in
      let (k, q, q_at, q_id, q_ready) =
        pick _ (λ r. r.id) jb.node.vec_rcvr _ a (jb.is_node.rcvr_ids ∙ jb.ids) peer_a
          jb.is_node.rcvr_ready in
      record {
        at = i;
        ctx = conn_addresses (hbs a) ctx;
        ctx_at =
            subst (λ (t : List ConnContext). get_elem? t i ≡ some (conn_addresses (hbs a) ctx))
              (sym ja.is_node.quorum)
              (get_elem?-map (conn_addresses (hbs a)) ja.conn.quroum_conns i ctx ctx_at);
        ctx_nid = ctx_nid;
        rply_place = j;
        rply = p;
        rply_at = p_at;
        rply_id = p_id;
        rply_addr =
            ap (hbs a).addr (w.0 ∙ ap (λ (t : ℕ). (hbs a).remote_mr (rkey rply_ks.mr t a)) ctx_nid)
            ∙ rply
            ∙ ap (λ (t : ℕ). local_addr (hbs b) (rkey rply_ks.mr b t)) (sym p_id)
            ∙ sym p_ready.0;
        rcvr_place = k;
        rcvr = q;
        rcvr_at = q_at;
        rcvr_id = q_id;
        rcvr_addr =
            ap (hbs a).addr (w.1 ∙ ap (λ (t : ℕ). (hbs a).remote_mr (rkey rcvr_ks.mr t a)) ctx_nid)
            ∙ rcvr
            ∙ ap (λ (t : ℕ). local_addr (hbs b) (rkey rcvr_ks.mr b t)) (sym q_id)
            ∙ sym q_ready.0;
      }

  -- Writers and readers are linked crosswise. In a cluster of `n` whose pushes succeed and in which a
  -- fetched region is the one pushed under its key, for any two different nodes with the space they ask
  -- for, both constructors return on both nodes with the state that their theorems describe, and where
  -- the replicator and the checker of the one node write for the other are the very addresses at which
  -- the logs begin that the other's replayer and receiver for it read.
  pub scot_core-linked :
      IsSpace sa
      → IsSpace sb
      → (ja : Joined n (hbs a) sa a) × (jb : Joined n (hbs b) sb b) × Reaches ja.node jb.node a b
  scot_core-linked pa pb =
      let ja = joined n (hbs a) sa a (fabric.pushed a) pa in
      let jb = joined n (hbs b) sb b (fabric.pushed b) pb in (ja, jb, reaches ja jb)
