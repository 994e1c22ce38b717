-- ===== src/Conn/Rendezvous.antt =====
-- What one node publishes before the barrier and what another fetches and connects to.
use scot.Base.{
  All, All-map, All-append, ℕ, ◌≡◌, ◌≢◌, ◌<◌, ◌⊎◌, inl, inr, true, List, [], ◌∷◌, ◌++◌, ◌==◌,
  Bool-cases, ==_iff, refl, arith,
}
use scot.Core.{quorum_ids}
use scot.Core.Owner.{member, quorum_ids-exact}
use scot.Conn.Strings.{Text}
use scot.Conn.Key.{wkey_helper, rkey_helper, hbkey_pd}
use scot.Conn.Calls.{
  Call, memc_push_local_mr, memc_push_local_qp, memc_fetch_remote_mr, memc_fetch_remote_qp, Has,
  Has-append_left, Has-append_right, Lacks, Lacks-append,
}
use scot.Conn.{
  init_writers, init_peer, init_peer_writers, init_peer_readers, init_peer_heartbeat, connect_peer,
  each_peer, hbtr_key,
}

-- The keys that a trace fetches.
abbrev pub qp_fetches : List Call → List Text
qp_fetches [] = []
qp_fetches (memc_fetch_remote_qp k ∷ cs) = k ∷ qp_fetches cs
qp_fetches (_ ∷ cs) = qp_fetches cs

abbrev pub mr_fetches : List Call → List Text
mr_fetches [] = []
mr_fetches (memc_fetch_remote_mr k ∷ cs) = k ∷ mr_fetches cs
mr_fetches (_ ∷ cs) = mr_fetches cs

-- The trace of `__init_hartebeest` on node `nid` of `n`.
abbrev pub init_calls : (n nid : ℕ) → List Call
init_calls n nid = init_writers nid ++ each_peer (init_peer nid) (quorum_ids n 0 nid)

-- The trace of `__connect_qps`.
abbrev pub connect_calls : (n nid : ℕ) → List Call
connect_calls n nid = each_peer (connect_peer nid) (quorum_ids n 0 nid)

pub Has-each_peer :
    (c : Call) (f : ℕ → List Call) (i : ℕ) (peers : List ℕ)
    → member i peers ≡ true
    → Has c (f i)
    → Has c (each_peer f peers)
unfolding each_peer
Has-each_peer c f i [] m h = cc
Has-each_peer c f i (j ∷ peers) m h = elim (Bool-cases (i == j)) [
  | inl same ↦ let e = (==_iff i j).0 same in Has-append_left c (f j) _ (rw (← e) h)
  | inr differ ↦ Has-append_right c (f j) _ (Has-each_peer c f i peers (rw differ at m) h)
]

pub Lacks-each_peer :
    (c : Call) (f : ℕ → List Call) (peers : List ℕ)
    → ((p : ℕ) → Lacks c (f p))
    → Lacks c (each_peer f peers)
unfolding each_peer
Lacks-each_peer c f [] l h = h
Lacks-each_peer c f (p ∷ peers) l h =
    Lacks-append c (f p) (each_peer f peers) (l p) (Lacks-each_peer c f peers l) h

pub quorum_peer : (n a b : ℕ) → member b (quorum_ids n 0 a) ≡ true → (b < n) × (a ≢ b)
quorum_peer n a b m = ground (arith, (quorum_ids-exact n a b).1)

-- What node `b` publishes for its peer `a`.
pub pushes :
    (n a b : ℕ) → a < n → a ≢ b → (c : Call) → Has c (init_peer b a) → Has c (init_calls n b)
pushes n a b la ne c h =
    Has-append_right c (init_writers b) _
      (Has-each_peer c (init_peer b) a (quorum_ids n 0 b) ((quorum_ids-exact n b a).0 (la, ne)) h)

abbrev PushesQp : (a b : ℕ) → Text → Type 0
PushesQp a b k = Has (memc_push_local_qp k hbkey_pd k) (init_peer b a)

connect-qp : (a b : ℕ) → All (PushesQp a b) (qp_fetches (connect_peer a b))
unfolding connect_peer init_peer init_peer_writers init_peer_readers init_peer_heartbeat wkey_helper
    rkey_helper
connect-qp a b = ground arith

abbrev PushesMr : (a b : ℕ) → Text → Type 0
PushesMr a b k = Has (memc_push_local_mr k hbkey_pd k) (init_peer b a) ⊎ (k ≡ hbtr_key a)

connect-mr : (a b : ℕ) → All (PushesMr a b) (mr_fetches (connect_peer a b))
unfolding connect_peer init_peer init_peer_writers init_peer_readers init_peer_heartbeat wkey_helper
    rkey_helper
connect-mr a b = ground arith

-- Some node of `n` publishes the queue pair, or the memory region, under the key.
abbrev pub IsQpPublished : ℕ → Text → Type 0
IsQpPublished n k = (b : ℕ) × (b < n) × Has (memc_push_local_qp k hbkey_pd k) (init_calls n b)

abbrev pub IsMrPublished : ℕ → Text → Type 0
IsMrPublished n k = (b : ℕ) × (b < n) × Has (memc_push_local_mr k hbkey_pd k) (init_calls n b)

own_scoreboard :
    (n a : ℕ) → Has (memc_push_local_mr (hbtr_key a) hbkey_pd (hbtr_key a)) (init_calls n a)
unfolding init_writers
own_scoreboard n a = inr (inr (inr (inr (inr (inl refl)))))

module _ (n a : ℕ) (la : a < n) where
  qp_here : (b : ℕ) → b < n → a ≢ b → All (IsQpPublished n) (qp_fetches (connect_peer a b))
  qp_here b lb ne =
      All-map (PushesQp a b) (IsQpPublished n) _ (λ k h. (b, lb, pushes n a b la ne _ h))
        (connect-qp a b)

  mr_here : (b : ℕ) → b < n → a ≢ b → All (IsMrPublished n) (mr_fetches (connect_peer a b))
  mr_here b lb ne =
      All-map (PushesMr a b) (IsMrPublished n) _
        (λ k h. elim h [
          | inl there ↦ (b, lb, pushes n a b la ne _ there)
          | inr own ↦ (a, la, rw own (own_scoreboard n a))
        ])
        (connect-mr a b)

  -- The fetches of one peer come before those of the rest.
  peers_published :
      (peers : List ℕ)
      → ((b : ℕ) → member b peers ≡ true → (b < n) × (a ≢ b))
      → All (IsQpPublished n) (qp_fetches (each_peer (connect_peer a) peers))
        × All (IsMrPublished n) (mr_fetches (each_peer (connect_peer a) peers))
  unfolding each_peer connect_peer
  peers_published [] known = (tt, tt)
  peers_published (b ∷ peers) known =
      let here = known b (ground arith) in
      let rest = peers_published peers (λ c m. known c (ground arith)) in
      (
        All-append _ (qp_fetches (connect_peer a b)) _ (qp_here b here.0 here.1) rest.0,
        All-append _ (mr_fetches (connect_peer a b)) _ (mr_here b here.0 here.1) rest.1,
      )

  -- Nothing is fetched in vain: each queue pair and each memory region that node `a` of a cluster of `n`
  -- fetches in `__connect_qps` is published by some node of the cluster in `__init_hartebeest`, under
  -- the key by which it is fetched.
  pub connect_calls-published :
      All (IsQpPublished n) (qp_fetches (connect_calls n a))
      × All (IsMrPublished n) (mr_fetches (connect_calls n a))
  connect_calls-published = peers_published (quorum_ids n 0 a) (λ b m. quorum_peer n a b m)
