-- ===== src/Conn/Barrier/Fetch.antt =====
-- A fetch that waits for its key gets it.
use scot.Base.{ℕ, ◌≡◌, ◌<◌, ◌⊎◌, ◌∙◌, inl, inr, All, List, [], ◌∷◌, ◌++◌, map, refl, subst, arith}
use scot.Core.{quorum_ids}
use scot.Conn.Strings.{Text, to_string}
use scot.Conn.Calls.{
  Call, memc_push_general, memc_wait_general, memc_fetch_remote_qp, memc_fetch_remote_mr, Has,
  Has-append_cases, Lacks, Lacks-append,
}
use scot.Conn.{
  init_writers, init_peer, init_peer_writers, init_peer_readers, init_peer_heartbeat, finalize_peer,
  each_peer, wait_peer, wait_key, setup_calls,
}
use scot.Conn.Rendezvous.{
  Lacks-each_peer, init_calls, connect_calls, qp_fetches, mr_fetches, IsQpPublished, IsMrPublished,
  connect_calls-published,
}
use scot.Conn.Phases.{calls_of, append_assoc}

-- What a key that is fetched is known of.
qp_fetches-All :
    (P : Text → Type 0) (k : Text) (cs : List Call)
    → All P (qp_fetches cs)
    → Has (memc_fetch_remote_qp k) cs
    → P k
qp_fetches-All P k [] a h = elim h [ ]
qp_fetches-All P k (memc_fetch_remote_qp j ∷ cs) a (inl e) =
    let same : j ≡ k = cc in subst P same a.0
qp_fetches-All P k (memc_fetch_remote_qp j ∷ cs) a (inr h) = qp_fetches-All P k cs a.1 h
qp_fetches-All P k (_ ∷ cs) a (inl e) = cc
qp_fetches-All P k (_ ∷ cs) a (inr h) = qp_fetches-All P k cs a h

mr_fetches-All :
    (P : Text → Type 0) (k : Text) (cs : List Call)
    → All P (mr_fetches cs)
    → Has (memc_fetch_remote_mr k) cs
    → P k
mr_fetches-All P k [] a h = elim h [ ]
mr_fetches-All P k (memc_fetch_remote_mr j ∷ cs) a (inl e) =
    let same : j ≡ k = cc in subst P same a.0
mr_fetches-All P k (memc_fetch_remote_mr j ∷ cs) a (inr h) = mr_fetches-All P k cs a.1 h
mr_fetches-All P k (_ ∷ cs) a (inl e) = cc
mr_fetches-All P k (_ ∷ cs) a (inr h) = mr_fetches-All P k cs a h

-- A call that blocks.
abbrev pub Blocking : Call → Type 0
Blocking c =
    ((k : Text) × (c ≡ memc_wait_general k))
    ⊎ (((k : Text) × (c ≡ memc_fetch_remote_qp k)) ⊎ ((k : Text) × (c ≡ memc_fetch_remote_mr k)))

pub free_if_not : (c : Call) → Blocking c ⊎ (Blocking c → ⊥)
free_if_not (memc_wait_general k) = inl (inl (k, refl))
free_if_not (memc_fetch_remote_qp k) = inl (inr (inl (k, refl)))
free_if_not (memc_fetch_remote_mr k) = inl (inr (inr (k, refl)))
free_if_not c = inr (λ b. ground arith)

-- `__init_hartebeest` makes no call that blocks.
init_calls-free : (n b : ℕ) (c : Call) → Blocking c → Lacks c (init_calls n b)
unfolding init_writers init_peer init_peer_writers init_peer_readers init_peer_heartbeat
init_calls-free n b c (inl (k, e)) =
    Lacks-append _ (init_writers b) _ (λ h. ground arith)
      (Lacks-each_peer _ (init_peer b) (quorum_ids n 0 b) (λ p h. ground arith))
init_calls-free n b c (inr (inl (k, e))) =
    Lacks-append _ (init_writers b) _ (λ h. ground arith)
      (Lacks-each_peer _ (init_peer b) (quorum_ids n 0 b) (λ p h. ground arith))
init_calls-free n b c (inr (inr (k, e))) =
    Lacks-append _ (init_writers b) _ (λ h. ground arith)
      (Lacks-each_peer _ (init_peer b) (quorum_ids n 0 b) (λ p h. ground arith))

-- A call of a first part has been made, or a call of that part is next.
reached_or_next :
    (p : Call) (x y d t : List Call)
    → d ++ t ≡ x ++ y
    → Has p x
    → Has p d ⊎ ((c : Call) × (cs : List Call) × (t ≡ c ∷ cs) × Has c x)
reached_or_next p [] y d t e h = elim h [ ]
reached_or_next p (b ∷ x) y [] t e h = inr (b, x ++ y, e, inl refl)
reached_or_next p (b ∷ x) y (a ∷ d) t e (inl f) = let q : p ≡ a = cc in inl (inl q)
reached_or_next p (b ∷ x) y (a ∷ d) t e (inr h) =
    let q : d ++ t ≡ x ++ y = cc in
    elim (reached_or_next p x y d t q h) [
      | inl made ↦ inl (inr made)
      | inr (c, cs, f, g) ↦ inr (c, cs, f, inr g)
    ]

init_first : (n b : ℕ) → (y : List Call) × (calls_of n b ≡ init_calls n b ++ y)
unfolding setup_calls
init_first n b = (_, append_assoc (init_writers b) (each_peer (init_peer b) (quorum_ids n 0 b)) _)

-- A node has made a call of its `__init_hartebeest`, or its next call does not block.
pub init_made-or-free :
    (n b : ℕ) (p : Call) (d t : List Call)
    → d ++ t ≡ calls_of n b
    → Has p (init_calls n b)
    → Has p d ⊎ ((c : Call) × (cs : List Call) × (t ≡ c ∷ cs) × (Blocking c → ⊥))
init_made-or-free n b p d t e h =
    let (y, whole) = init_first n b in
    elim (reached_or_next p (init_calls n b) y d t (e ∙ whole) h) [
      | inl made ↦ inl made
      | inr (c, cs, f, g) ↦ inr (c, cs, f, λ blocking. init_calls-free n b c blocking g)
    ]

waits-Lacks_fetch :
    (c : Call)
    → ((k : Text) × (c ≡ memc_fetch_remote_qp k)) ⊎ ((k : Text) × (c ≡ memc_fetch_remote_mr k))
    → (key : Text) (peers : List ℕ) → Lacks c (memc_push_general key ∷ map wait_peer peers)
waits-Lacks_fetch c f key [] (inl e) = ground arith
waits-Lacks_fetch c f key [] (inr h) = elim h [ ]
waits-Lacks_fetch c f key (p ∷ peers) (inl e) = ground arith
waits-Lacks_fetch c f key (p ∷ peers) (inr (inl e)) = ground arith
waits-Lacks_fetch c f key (p ∷ peers) (inr (inr h)) = waits-Lacks_fetch c f key peers (inr h)

finalize-Lacks_fetch :
    (n i : ℕ) (c : Call)
    → ((k : Text) × (c ≡ memc_fetch_remote_qp k)) ⊎ ((k : Text) × (c ≡ memc_fetch_remote_mr k))
    → Lacks c (each_peer (finalize_peer i) (quorum_ids n 0 i))
unfolding finalize_peer
finalize-Lacks_fetch n i c (inl (k, e)) =
    Lacks-each_peer _ (finalize_peer i) (quorum_ids n 0 i) (λ p h. ground arith)
finalize-Lacks_fetch n i c (inr (k, e)) =
    Lacks-each_peer _ (finalize_peer i) (quorum_ids n 0 i) (λ p h. ground arith)

-- A fetch of a node's trace is one of its `__connect_qps`.
fetch-connect :
    (n i : ℕ) (c : Call)
    → ((k : Text) × (c ≡ memc_fetch_remote_qp k)) ⊎ ((k : Text) × (c ≡ memc_fetch_remote_mr k))
    → Has c (calls_of n i)
    → Has c (connect_calls n i)
unfolding setup_calls
fetch-connect n i c f h =
    let waits = memc_push_general (wait_key (to_string i)) ∷ map wait_peer (quorum_ids n 0 i) in
    let whole =
      subst (Has c) (append_assoc (init_writers i) (each_peer (init_peer i) (quorum_ids n 0 i)) _)
        h in
    elim (Has-append_cases c (init_calls n i) _ whole) [
      | inl early ↦ absurd (init_calls-free n i c (inr f) early)
      | inr later ↦ elim (Has-append_cases c (connect_calls n i) _ later) [
        | inl here ↦ here
        | inr late ↦ elim (Has-append_cases c waits _ late) [
          | inl w ↦ absurd (waits-Lacks_fetch c f _ (quorum_ids n 0 i) w)
          | inr d ↦ absurd (finalize-Lacks_fetch n i c f d)
        ]
      ]
    ]

-- Some node publishes what a node fetches.
pub fetched_qp-published :
    (n i : ℕ) (k : Text) → i < n → Has (memc_fetch_remote_qp k) (calls_of n i) → IsQpPublished n k
fetched_qp-published n i k li h =
    qp_fetches-All _ k (connect_calls n i) (connect_calls-published n i li).0
      (fetch-connect n i _ (inl (k, refl)) h)

pub fetched_mr-published :
    (n i : ℕ) (k : Text) → i < n → Has (memc_fetch_remote_mr k) (calls_of n i) → IsMrPublished n k
fetched_mr-published n i k li h =
    mr_fetches-All _ k (connect_calls n i) (connect_calls-published n i li).1
      (fetch-connect n i _ (inr (k, refl)) h)
