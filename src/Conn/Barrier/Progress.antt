-- ===== src/Conn/Barrier/Progress.antt =====
-- The barrier lets everybody through.
use scot.Base.{
  Bool, ℕ, ◌≡◌, ◌≢◌, ◌<◌, ◌⊎◌, ◌∙◌, inl, inr, true, List, [], ◌∷◌, ◌++◌, map, refl, sym, ap, subst,
  arith,
}
use scot.Core.{quorum_ids}
use scot.Core.Owner.{member}
use scot.Conn.Strings.{Text, to_string}
use scot.Conn.Key.{hbkey_pd}
use scot.Conn.Barrier.Fetch.{
  Blocking, free_if_not, init_made-or-free, fetched_qp-published, fetched_mr-published,
}
use scot.Conn.Calls.{
  memc_fetch_remote_qp, memc_fetch_remote_mr, memc_push_local_qp, memc_push_local_mr, Call,
  memc_push_general, memc_wait_general, Has, Has-append_right, Has-append_cases, Lacks,
  Lacks-append,
}
use scot.Conn.{
  init_writers, init_peer, init_peer_writers, init_peer_readers, init_peer_heartbeat, connect_peer,
  finalize_peer, each_peer, wait_peer, wait_key,
}
use scot.Conn.Rendezvous.{Lacks-each_peer, quorum_peer}
use scot.Conn.Phases.{calls_of, set_up, barrier, clean_up, phases}
use scot.Conn.Barrier.{Cluster, Step, call, Reach, Inv, Reach-Inv}

module _ (k : Text) where
  set_up-Lacks_wait : (n i : ℕ) → Lacks (memc_wait_general k) (set_up n i)
  unfolding set_up init_writers init_peer init_peer_writers init_peer_readers init_peer_heartbeat
      connect_peer
  set_up-Lacks_wait n i =
      Lacks-append _ (init_writers i) _ (λ h. ground arith)
        (Lacks-append _ (each_peer (init_peer i) (quorum_ids n 0 i)) _
          (Lacks-each_peer _ (init_peer i) (quorum_ids n 0 i) (λ p h. ground arith))
          (Lacks-each_peer _ (connect_peer i) (quorum_ids n 0 i) (λ p h. ground arith)))

  clean_up-Lacks_wait : (n i : ℕ) → Lacks (memc_wait_general k) (clean_up n i)
  unfolding clean_up finalize_peer
  clean_up-Lacks_wait n i =
      Lacks-each_peer _ (finalize_peer i) (quorum_ids n 0 i) (λ p h. ground arith)

  -- A wait in a list of waits is for one of the peers.
  waits-member :
      (peers : List ℕ)
      → Has (memc_wait_general k) (map wait_peer peers)
      → (b : ℕ) × (member b peers ≡ true) × (k ≡ wait_key (to_string b))
  waits-member [] h = elim h [ ]
  waits-member (p ∷ peers) (inl e) = (p, ground arith, cc)
  waits-member (p ∷ peers) (inr h) = let (b, m, e) = waits-member peers h in (b, ground arith, e)

  -- A node waits for its peers alone.
  waits_for_peer :
      (n i : ℕ)
      → Has (memc_wait_general k) (calls_of n i)
      → (b : ℕ) × (b < n) × (k ≡ wait_key (to_string b))
  unfolding barrier
  waits_for_peer n i h =
      elim (Has-append_cases _ (set_up n i) _ (subst (Has (memc_wait_general k)) (phases n i) h)) [
        | inl early ↦ absurd (set_up-Lacks_wait n i early)
        | inr late ↦ elim (Has-append_cases _ (barrier n i) (clean_up n i) late) [
          | inl (inl e) ↦ cc
          | inl (inr w) ↦
              let (b, m, e) = waits-member (quorum_ids n 0 i) w in (b, (quorum_peer n i b m).0, e)
          | inr c ↦ absurd (clean_up-Lacks_wait n i c)
        ]
      ]

pub next_of : (xs : List Call) → (xs ≡ []) ⊎ ((d : Call) × (ds : List Call) × (xs ≡ d ∷ ds))
next_of [] = inl refl
next_of (d ∷ ds) = inr (d, ds, refl)

-- A call that is next, after what a trace begins with, comes in the rest of the trace.
after : (c p : Call) (x y d cs : List Call) → d ++ c ∷ cs ≡ x ++ p ∷ y → Lacks c x → c ≢ p → Has p d
after c p [] y [] cs e l ne = let q : c ≡ p = cc in absurd (ne q)
after c p [] y (a ∷ d) cs e l ne = inl cc
after c p (b ∷ x) y [] cs e l ne = (let q : c ≡ b = cc in absurd (l (inl q)))
after c p (b ∷ x) y (a ∷ d) cs e l ne =
    (let q : d ++ c ∷ cs ≡ x ++ p ∷ y = cc in inr (after c p x y d cs q (λ h. l (inr h)) ne))

module _ {n : ℕ} {s : Cluster} (inv : Inv n s) where
  -- What a node has next is in its trace.
  next_in : (i : ℕ) (c : Call) (cs : List Call) → s.left i ≡ c ∷ cs → Has c (calls_of n i)
  next_in i c cs e =
      subst (Has c) (inv.parts i)
        (Has-append_right _ (s.called i) (s.left i) (subst (Has c) (sym e) (inl refl)))

  -- A node that is about to wait has pushed its own key.
  waiting_pushed :
      (b : ℕ) (k : Text) (ds : List Call)
      → s.left b ≡ memc_wait_general k ∷ ds
      → Has (memc_push_general (wait_key (to_string b))) (s.called b)
  unfolding barrier
  waiting_pushed b k ds e =
      after (memc_wait_general k) _ (set_up n b) _ (s.called b) ds
        (ap (λ (t : List Call). s.called b ++ t) (sym e) ∙ inv.parts b ∙ phases n b)
        (set_up-Lacks_wait k n b) (λ q. ground arith)

  -- So has one that has nothing left to call.
  finished_pushed :
      (b : ℕ) → s.left b ≡ [] → Has (memc_push_general (wait_key (to_string b))) (s.called b)
  unfolding barrier
  finished_pushed b e =
      let key = memc_push_general (wait_key (to_string b)) in
      let whole : Has key (set_up n b ++ (barrier n b ++ clean_up n b)) =
        Has-append_right key (set_up n b) (barrier n b ++ clean_up n b) (inl refl) in
      let split = subst (Has key) (sym (phases n b) ∙ sym (inv.parts b)) whole in
      elim (Has-append_cases key (s.called b) (s.left b) split) [
        | inl h ↦ h
        | inr h ↦ absurd (subst (Has key) e h)
      ]

module _ {blocks : Bool} {n : ℕ} {s : Cluster} (inv : Inv n s) where
  -- A call that does not block is a step.
  go_free :
      (i : ℕ) (c : Call) (cs : List Call)
      → i < n
      → s.left i ≡ c ∷ cs
      → (Blocking c → ⊥)
      → (t : Cluster) × Step blocks n s t
  go_free i c cs li e free = (
    _,
    call i c cs li e (λ k q. absurd (free (inl (k, q)))) (λ k w q. absurd (free (inr (inl (k, q)))))
        (λ k w q. absurd (free (inr (inr (k, q))))),
  )

  -- A wait for a key that is pushed is a step.
  wake :
      (i b : ℕ) (k : Text) (cs : List Call)
      → i < n
      → b < n
      → k ≡ wait_key (to_string b)
      → s.left i ≡ memc_wait_general k ∷ cs
      → Has (memc_push_general (wait_key (to_string b))) (s.called b)
      → (t : Cluster) × Step blocks n s t
  wake i b k cs li lb kb e h = (
    _,
    call i (memc_wait_general k) cs li e
        (λ k' q.
          let same : wait_key (to_string b) ≡ k' = cc in
          (b, lb, subst (λ (x : Text). Has (memc_push_general x) (s.called b)) same h))
        (λ k' w q. ground arith) (λ k' w q. ground arith),
  )

  -- A fetch is a step, or the node that publishes its key has one.
  fetch_qp :
      (i : ℕ) (k : Text) (cs : List Call)
      → i < n
      → s.left i ≡ memc_fetch_remote_qp k ∷ cs
      → (t : Cluster) × Step blocks n s t
  fetch_qp i k cs li e =
      let (b, lb, h) = fetched_qp-published n i k li (next_in inv i _ cs e) in
      elim (init_made-or-free n b _ (s.called b) (s.left b) (inv.parts b) h) [
        | inl made ↦ (
          _,
          call i (memc_fetch_remote_qp k) cs li e (λ k' q. ground arith)
              (λ k' w q.
                let same : k ≡ k' = cc in
                (
                  b,
                  lb,
                  subst (λ (x : Text). Has (memc_push_local_qp x hbkey_pd x) (s.called b)) same
                      made,
                ))
              (λ k' w q. ground arith),
        )
        | inr (c, ds, f, free) ↦ go_free b c ds lb f free
      ]

  fetch_mr :
      (i : ℕ) (k : Text) (cs : List Call)
      → i < n
      → s.left i ≡ memc_fetch_remote_mr k ∷ cs
      → (t : Cluster) × Step blocks n s t
  fetch_mr i k cs li e =
      let (b, lb, h) = fetched_mr-published n i k li (next_in inv i _ cs e) in
      elim (init_made-or-free n b _ (s.called b) (s.left b) (inv.parts b) h) [
        | inl made ↦ (
          _,
          call i (memc_fetch_remote_mr k) cs li e (λ k' q. ground arith) (λ k' w q. ground arith)
              (λ k' w q.
                let same : k ≡ k' = cc in
                (
                  b,
                  lb,
                  subst (λ (x : Text). Has (memc_push_local_mr x hbkey_pd x) (s.called b)) same
                      made,
                )),
        )
        | inr (c, ds, f, free) ↦ go_free b c ds lb f free
      ]

  -- A node with a call left waits at the barrier, or there is a step.
  waits_or_step :
      (i : ℕ) (c : Call) (cs : List Call)
      → i < n
      → s.left i ≡ c ∷ cs
      → ((k : Text) × (s.left i ≡ memc_wait_general k ∷ cs)) ⊎ ((t : Cluster) × Step blocks n s t)
  waits_or_step i c cs li e = elim (free_if_not c) [
    | inl (inl (k, w)) ↦ inl (k, cc)
    | inl (inr (inl (k, q))) ↦ inr (fetch_qp i k cs li cc)
    | inl (inr (inr (k, q))) ↦ inr (fetch_mr i k cs li cc)
    | inr free ↦ inr (go_free i c cs li e free)
  ]

  ready :
      (i : ℕ) (c : Call) (cs : List Call)
      → i < n
      → s.left i ≡ c ∷ cs
      → (t : Cluster) × Step blocks n s t
  ready i c cs li e = elim (waits_or_step i c cs li e) [
    | inr step ↦ step
    | inl (k, w) ↦
        let (b, lb, kb) = waits_for_peer k n i (next_in inv i _ cs w) in
        elim (next_of (s.left b)) [
          | inl done ↦ wake i b k cs li lb kb w (finished_pushed inv b done)
          | inr (d, ds, p) ↦ elim (waits_or_step b d ds lb p) [
            | inl (k2, w2) ↦ wake i b k cs li lb kb w (waiting_pushed inv b k2 ds w2)
            | inr step ↦ step
          ]
        ]
  ]

-- The set-up never gets stuck: in every state that an interleaving of the nodes of a cluster reaches, as
-- long as some node has a call left, some node can make its next call, although a wait blocks the
-- node that makes it until its key has been pushed, and whether or not a fetch does so too.
pub Reach-progress :
    {blocks : Bool} {n : ℕ} {s : Cluster}
    → Reach blocks n s
    → (i : ℕ) (c : Call) (cs : List Call) → i < n
    → s.left i ≡ c ∷ cs
    → (t : Cluster) × Step blocks n s t
Reach-progress r i c cs li e = ready (Reach-Inv r) i c cs li e
