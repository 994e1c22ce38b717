-- ===== src/Conn/Phases.antt =====
-- The trace of a node, cut at its barrier.
use scot.Base.{
  ℕ, ◌≡◌, ◌∙◌, inl, inr, true, List, [], ◌∷◌, ◌++◌, map, ◌==◌, refl, ap, subst, Bool-cases, ==_iff,
  arith,
}
use scot.Core.{quorum_ids}
use scot.Core.Owner.{member}
use scot.Conn.Strings.{Text, codes, to_string, to_string-injective, NoDash, last_dash}
use scot.Conn.Calls.{
  Call, memc_push_general, memc_del_general, Has, Has-append_cases, Lacks, Lacks-append,
}
use scot.Conn.{
  init_writers, init_peer, init_peer_writers, init_peer_readers, init_peer_heartbeat, connect_peer,
  finalize_peer, each_peer, wait_peer, wait_key, setup_calls,
}
use scot.Conn.Rendezvous.{connect_calls, Lacks-each_peer}

-- The trace of node `i` of `n`, whose environment variable says its id in digits.
abbrev pub calls_of : (n i : ℕ) → List Call
calls_of n i = setup_calls (to_string i) i (quorum_ids n 0 i)

-- The trace by its phases: before the barrier, at the barrier, and what follows.
unfoldable pub set_up : (n i : ℕ) → List Call
set_up n i = init_writers i ++ (each_peer (init_peer i) (quorum_ids n 0 i) ++ connect_calls n i)

unfoldable pub barrier : (n i : ℕ) → List Call
barrier n i = memc_push_general (wait_key (to_string i)) ∷ map wait_peer (quorum_ids n 0 i)

unfoldable pub clean_up : (n i : ℕ) → List Call
clean_up n i = each_peer (finalize_peer i) (quorum_ids n 0 i)

pub append_assoc : (xs ys zs : List Call) → xs ++ (ys ++ zs) ≡ (xs ++ ys) ++ zs
append_assoc [] ys zs = refl
append_assoc (x ∷ xs) ys zs = ap (λ (t : List Call). x ∷ t) (append_assoc xs ys zs)

pub phases : (n i : ℕ) → calls_of n i ≡ set_up n i ++ (barrier n i ++ clean_up n i)
unfolding setup_calls set_up barrier clean_up
phases n i =
    let a = init_writers i in
    let b = each_peer (init_peer i) (quorum_ids n 0 i) in
    let c = connect_calls n i in
    let d = barrier n i ++ clean_up n i in
    ap (λ (t : List Call). a ++ t) (append_assoc b c d) ∙ append_assoc a (b ++ c) d

-- Neither a push of a plain key nor a deletion happens before the barrier.
module _ (k : Text) where
  pub set_up-Lacks_push : (n i : ℕ) → Lacks (memc_push_general k) (set_up n i)
  unfolding set_up init_writers init_peer init_peer_writers init_peer_readers init_peer_heartbeat
      connect_peer
  set_up-Lacks_push n i =
      Lacks-append _ (init_writers i) _ (λ h. ground arith)
        (Lacks-append _ (each_peer (init_peer i) (quorum_ids n 0 i)) _
          (Lacks-each_peer _ (init_peer i) (quorum_ids n 0 i) (λ p h. ground arith))
          (Lacks-each_peer _ (connect_peer i) (quorum_ids n 0 i) (λ p h. ground arith)))

  pub set_up-Lacks_del : (n i : ℕ) → Lacks (memc_del_general k) (set_up n i)
  unfolding set_up init_writers init_peer init_peer_writers init_peer_readers init_peer_heartbeat
      connect_peer
  set_up-Lacks_del n i =
      Lacks-append _ (init_writers i) _ (λ h. ground arith)
        (Lacks-append _ (each_peer (init_peer i) (quorum_ids n 0 i)) _
          (Lacks-each_peer _ (init_peer i) (quorum_ids n 0 i) (λ p h. ground arith))
          (Lacks-each_peer _ (connect_peer i) (quorum_ids n 0 i) (λ p h. ground arith)))

  waits-Lacks_del : (peers : List ℕ) → Lacks (memc_del_general k) (map wait_peer peers)
  waits-Lacks_del [] h = h
  waits-Lacks_del (p ∷ peers) (inl e) = cc
  waits-Lacks_del (p ∷ peers) (inr h) = waits-Lacks_del peers h

  waits-Lacks_push : (peers : List ℕ) → Lacks (memc_push_general k) (map wait_peer peers)
  waits-Lacks_push [] h = h
  waits-Lacks_push (p ∷ peers) (inl e) = cc
  waits-Lacks_push (p ∷ peers) (inr h) = waits-Lacks_push peers h

  clean_up-Lacks_push : (n i : ℕ) → Lacks (memc_push_general k) (clean_up n i)
  unfolding clean_up finalize_peer
  clean_up-Lacks_push n i =
      Lacks-each_peer _ (finalize_peer i) (quorum_ids n 0 i) (λ p h. ground arith)

  pub barrier-Lacks_del : (n i : ℕ) → Lacks (memc_del_general k) (barrier n i)
  unfolding barrier
  barrier-Lacks_del n i (inl e) = cc
  barrier-Lacks_del n i (inr h) = waits-Lacks_del (quorum_ids n 0 i) h

  -- The one plain key that a node pushes is its own.
  pub own_push : (n i : ℕ) → Has (memc_push_general k) (calls_of n i) → k ≡ wait_key (to_string i)
  unfolding barrier
  own_push n i h =
      elim (Has-append_cases _ (set_up n i) _ (subst (Has (memc_push_general k)) (phases n i) h)) [
        | inl early ↦ absurd (set_up-Lacks_push n i early)
        | inr late ↦ elim (Has-append_cases _ (barrier n i) (clean_up n i) late) [
          | inl (inl e) ↦ cc
          | inl (inr w) ↦ absurd (waits-Lacks_push (quorum_ids n 0 i) w)
          | inr c ↦ absurd (clean_up-Lacks_push n i c)
        ]
      ]

pub wait_key-injective : (i j : ℕ) → wait_key (to_string i) ≡ wait_key (to_string j) → i ≡ j
unfolding wait_key
wait_key-injective i j e =
    let d : NoDash (codes "wait") = omega arith in
    to_string-injective i j
      (last_dash (to_string i) (to_string j) (codes "wait") (codes "wait") d d e).0

pub Has-waits :
    (b : ℕ) (peers : List ℕ) → member b peers ≡ true → Has (wait_peer b) (map wait_peer peers)
Has-waits b [] m = cc
Has-waits b (p ∷ peers) m = elim (Bool-cases (b == p)) [
  | inl same ↦ inl (ap wait_peer ((==_iff b p).0 same))
  | inr differ ↦ inr (Has-waits b peers (rw differ at m))
]
