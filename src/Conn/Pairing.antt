-- ===== src/Conn/Pairing.antt =====
-- The queue pairs that two nodes connect with each other.
use scot.Base.{All, All-map, All-append, ℕ, ◌≡◌, ◌≢◌, ◌<◌, true, List, [], ◌∷◌, arith}
use scot.Core.{quorum_ids}
use scot.Core.Owner.{member, quorum_ids-exact}
use scot.Conn.Strings.{Text}
use scot.Conn.Key.{wkey_helper, rkey_helper, hbkey_pd}
use scot.Conn.Calls.{Call, connect_local_qp, Has}
use scot.Conn.{connect_peer, each_peer}
use scot.Conn.Rendezvous.{connect_calls, quorum_peer, Has-each_peer}

-- The pairs that a trace connects: the local one, and the one it expects at the other end.
abbrev pub pairs : List Call → List (Text × Text)
pairs [] = []
pairs (connect_local_qp pd l r ∷ cs) = (l, r) ∷ pairs cs
pairs (_ ∷ cs) = pairs cs

abbrev Mirrors : (a b : ℕ) → Text × Text → Type 0
Mirrors a b p = Has (connect_local_qp hbkey_pd p.1 p.0) (connect_peer b a)

connect_peer-Mirrors : (a b : ℕ) → All (Mirrors a b) (pairs (connect_peer a b))
unfolding connect_peer wkey_helper rkey_helper
connect_peer-Mirrors a b = ground arith

-- Another node of `n` connects the same two queue pairs from its end.
abbrev pub IsMirrored : (n a : ℕ) → Text × Text → Type 0
IsMirrored n a p =
    (b : ℕ) × (b < n) × (a ≢ b) × Has (connect_local_qp hbkey_pd p.1 p.0) (connect_calls n b)

module _ (n a : ℕ) (la : a < n) where
  mirrors_here : (b : ℕ) → b < n → a ≢ b → All (IsMirrored n a) (pairs (connect_peer a b))
  mirrors_here b lb ne =
      All-map (Mirrors a b) (IsMirrored n a) _
        (λ p h. (
          b,
          lb,
          ne,
          Has-each_peer _ (connect_peer b) a (quorum_ids n 0 b)
              ((quorum_ids-exact n b a).0 (la, ne)) h,
        ))
        (connect_peer-Mirrors a b)

  mirrors_throughout :
      (peers : List ℕ)
      → ((b : ℕ) → member b peers ≡ true → (b < n) × (a ≢ b))
      → All (IsMirrored n a) (pairs (each_peer (connect_peer a) peers))
  unfolding each_peer connect_peer
  mirrors_throughout [] known = tt
  mirrors_throughout (b ∷ peers) known =
      let here = known b (ground arith) in
      All-append _ (pairs (connect_peer a b)) _ (mirrors_here b here.0 here.1)
        (mirrors_throughout peers (λ c m. known c (ground arith)))

  -- Connections agree at both ends: whenever node `a` of a cluster of `n` connects a local queue pair to a
  -- remote one, some other node of the cluster connects that one, as its local, to this one, as its remote.
  pub connect_calls-IsMirrored : All (IsMirrored n a) (pairs (connect_calls n a))
  connect_calls-IsMirrored = mirrors_throughout (quorum_ids n 0 a) (λ b m. quorum_peer n a b m)
