-- ===== src/Conn/Barrier/Order.antt =====
-- What the barrier is for.
use scot.Base.{Bool, ℕ, ◌≡◌, ◌≢◌, ◌<◌, ◌∙◌, inr, List, ◌++◌, sym, subst}
use scot.Core.{quorum_ids}
use scot.Core.Owner.{quorum_ids-exact}
use scot.Conn.Strings.{Text, to_string}
use scot.Conn.Calls.{
  Call, memc_push_general, memc_del_general, Has, Has-append_left, Has-append_right, Lacks-append,
  prefix_of,
}
use scot.Conn.{init_writers, init_peer, each_peer, wait_peer, wait_key}
use scot.Conn.Rendezvous.{connect_calls}
use scot.Conn.Phases.{
  calls_of, append_assoc, set_up, barrier, clean_up, phases, set_up-Lacks_push, set_up-Lacks_del,
  barrier-Lacks_del, own_push, wait_key-injective, Has-waits,
}
use scot.Conn.Barrier.{Cluster, Reach, Inv, Reach-Inv}

module _ {n : ℕ} {s : Cluster} (inv : Inv n s) where
  -- A node that has deleted a key is past its barrier.
  past_barrier :
      (a : ℕ) (k : Text)
      → Has (memc_del_general k) (s.called a)
      → (e : List Call) × (s.called a ≡ (set_up n a ++ barrier n a) ++ e)
  past_barrier a k h =
      prefix_of _ (set_up n a ++ barrier n a) (clean_up n a) (s.called a) (s.left a)
        (inv.parts a ∙ phases n a ∙ append_assoc (set_up n a) (barrier n a) (clean_up n a)) h
        (Lacks-append _ (set_up n a) (barrier n a) (set_up-Lacks_del k n a)
          (barrier-Lacks_del k n a))

  -- A node at its barrier is past its set-up.
  past_set_up :
      (b : ℕ) (k : Text)
      → Has (memc_push_general k) (s.called b)
      → (e : List Call) × (s.called b ≡ set_up n b ++ e)
  past_set_up b k h =
      prefix_of _ (set_up n b) (barrier n b ++ clean_up n b) (s.called b) (s.left b)
        (inv.parts b ∙ phases n b) h (set_up-Lacks_push k n b)

  waited_for :
      (a b : ℕ) (k : Text)
      → Has (memc_del_general k) (s.called a)
      → b < n
      → a ≢ b
      → Has (memc_push_general (wait_key (to_string b))) (s.called b)
  unfolding barrier
  waited_for a b k h lb ne =
      let (e, p) = past_barrier a k h in
      let waits : Has (wait_peer b) (barrier n a) =
        inr (Has-waits b (quorum_ids n 0 a) ((quorum_ids-exact n a b).0 (lb, λ q. ne (sym q)))) in
      let here : Has (wait_peer b) (s.called a) = subst (Has (wait_peer b)) (sym p) (
        Has-append_left _ (set_up n a ++ barrier n a) e
          (Has-append_right _ (set_up n a) (barrier n a) waits)) in
      let (j, lj, g) = inv.waited a (wait_key (to_string b)) here in
      let whole : Has (memc_push_general (wait_key (to_string b))) (calls_of n j) =
        subst (Has (memc_push_general (wait_key (to_string b)))) (inv.parts j)
          (Has-append_left _ (s.called j) (s.left j) g) in
      let same = wait_key-injective b j (own_push (wait_key (to_string b)) n j whole) in
      subst (λ (x : ℕ). Has (memc_push_general (wait_key (to_string b))) (s.called x)) (sym same) g

-- No key is deleted before everybody is connected: in every state that any interleaving of the nodes of
-- a cluster reaches, whether or not a fetch waits for its key, once a node has deleted any key, every other node has made all the calls of its
-- `__connect_qps`, the fetches of these keys among them.
pub delete-after-connect :
    {blocks : Bool} {n : ℕ} {s : Cluster}
    → Reach blocks n s
    → (a b : ℕ) (k : Text) → b < n
    → a ≢ b
    → Has (memc_del_general k) (s.called a)
    → (c : Call) → Has c (connect_calls n b)
    → Has c (s.called b)
unfolding set_up
delete-after-connect {n = n} {s = s} r a b k lb ne h c g =
    let inv = Reach-Inv r in
    let (e, p) = past_set_up inv b (wait_key (to_string b)) (waited_for inv a b k h lb ne) in
    subst (Has c) (sym p) (
      Has-append_left c (set_up n b) e (
        Has-append_right c (init_writers b) _
          (Has-append_right c (each_peer (init_peer b) (quorum_ids n 0 b)) (connect_calls n b) g)))
