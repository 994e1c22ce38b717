-- ===== src/Conn/Barrier.antt =====
-- The nodes of a cluster set their connections up side by side: any node makes its next call at any
-- time, except that `hartebeest_memc_wait_general` returns only once its key has been pushed. Whether a
-- fetch too returns only once its key has been pushed is the library's affair: `blocks` says so.
pub mod Order
pub mod Fetch
pub mod Progress
pub mod Finish
use scot.Base.{
  ℕ, zero, suc, ◌≡◌, ◌≢◌, ◌<◌, ◌⊎◌, ◌∙◌, inl, inr, Bool, true, List, [], ◌∷◌, ◌++◌, map, ◌==◌, refl,
  sym, ap, subst, Bool-cases, ==_iff, if◌then◌else◌, arith,
}
use scot.Core.{quorum_ids}
use scot.Core.Owner.{member, quorum_ids-exact}
use scot.Conn.Strings.{
  Text, codes, to_string, to_string-injective, to_string-NoDash, NoDash, last_dash,
}
use scot.Conn.Key.{hbkey_pd}
use scot.Conn.Calls.{
  Call, memc_push_local_qp, memc_push_local_mr, memc_fetch_remote_qp, memc_fetch_remote_mr,
  memc_push_general, memc_wait_general, memc_del_general, Has, Has-append_left, Has-append_right,
  Has-append_cases, Lacks, Lacks-append, prefix_of,
}
use scot.Conn.{
  init_writers, init_peer, init_peer_writers, init_peer_readers, init_peer_heartbeat, connect_peer,
  finalize_peer, each_peer, wait_peer, wait_key, setup_calls,
}
use scot.Conn.Phases.{calls_of}
use scot.Conn.Rendezvous.{connect_calls, Has-each_peer, Lacks-each_peer}

-- What each node has called, and what it has left.
pub record Cluster : Type 0 where
  pub called : ℕ → List Call
  pub left : ℕ → List Call

abbrev pub put : (ℕ → List Call) → ℕ → List Call → ℕ → List Call
put f i v j = if i == j then v else f j

abbrev pub IsPushed : (n : ℕ) → (ℕ → List Call) → Text → Type 0
IsPushed n called k = (j : ℕ) × (j < n) × Has (memc_push_general k) (called j)

abbrev pub IsQpPushed : (n : ℕ) → (ℕ → List Call) → Text → Type 0
IsQpPushed n called k = (j : ℕ) × (j < n) × Has (memc_push_local_qp k hbkey_pd k) (called j)

abbrev pub IsMrPushed : (n : ℕ) → (ℕ → List Call) → Text → Type 0
IsMrPushed n called k = (j : ℕ) × (j < n) × Has (memc_push_local_mr k hbkey_pd k) (called j)

pub data Step (blocks : Bool) (n : ℕ) (s : Cluster) : Cluster → Type 0 where
  call :
      (i : ℕ) (c : Call) (cs : List Call)
      → i < n
      → s.left i ≡ c ∷ cs
      → ((k : Text) → c ≡ memc_wait_general k → IsPushed n s.called k)
      → ((k : Text) → blocks ≡ true → c ≡ memc_fetch_remote_qp k → IsQpPushed n s.called k)
      → ((k : Text) → blocks ≡ true → c ≡ memc_fetch_remote_mr k → IsMrPushed n s.called k)
      → Step blocks n s
          (record { called = put s.called i (s.called i ++ c ∷ []); left = put s.left i cs })

pub data Reach (blocks : Bool) (n : ℕ) : Cluster → Type 0 where
  start : Reach blocks n (record { called = λ i. []; left = calls_of n })
  later : {s t : Cluster} → Reach blocks n s → Step blocks n s t → Reach blocks n t

-- Every node is somewhere in its own trace, and has waited only for what was pushed.
pub record Inv (n : ℕ) (s : Cluster) : Type 0 where
  pub parts : (i : ℕ) → s.called i ++ s.left i ≡ calls_of n i
  pub waited : (i : ℕ) (k : Text) → Has (memc_wait_general k) (s.called i) → IsPushed n s.called k

append_one : (xs ys : List Call) (c : Call) → (xs ++ c ∷ []) ++ ys ≡ xs ++ c ∷ ys
append_one [] ys c = refl
append_one (x ∷ xs) ys c = ap (λ (t : List Call). x ∷ t) (append_one xs ys c)

grows :
    (f : ℕ → List Call) (i : ℕ) (c d : Call) (j : ℕ)
    → Has d (f j)
    → Has d (put f i (f i ++ c ∷ []) j)
grows f i c d j h = elim (Bool-cases (i == j)) [
  | inl same ↦ let e = (==_iff i j).0 same in rw same (Has-append_left d (f i) (c ∷ []) (rw e h))
  | inr differ ↦ rw differ h
]

call-Inv : {blocks : Bool} {n : ℕ} {s t : Cluster} → Inv n s → Step blocks n s t → Inv n t
call-Inv {n = n} {s = s} inv (call i c cs lt e ready _ _) = record {
  parts = λ j. elim (Bool-cases (i == j)) [
    | inl same ↦
        let p = (==_iff i j).0 same in
        rw same (
          append_one (s.called i) cs c
          ∙ ap (λ (t : List Call). s.called i ++ t) (sym e)
          ∙ rw (← p) (inv.parts i))
    | inr differ ↦ rw differ (inv.parts j)
  ];
  waited = λ j k h. still k (elim (Bool-cases (i == j)) [
    | inl same ↦ elim (Has-append_cases _ (s.called i) (c ∷ []) (rw same at h)) [
      | inl before ↦ inv.waited i k before
      | inr now ↦ ready k (elim now [ inl p ↦ sym p | inr none_left ↦ absurd none_left ])
    ]
    | inr differ ↦ inv.waited j k (rw differ at h)
  ]);
}
  where
    still :
        (k : Text) → IsPushed n s.called k → IsPushed n (put s.called i (s.called i ++ c ∷ [])) k
    still k (m, lm, h) = (m, lm, grows s.called i c _ m h)

pub Reach-Inv : {blocks : Bool} {n : ℕ} {s : Cluster} → Reach blocks n s → Inv n s
Reach-Inv start = record { parts = λ i. refl; waited = λ i k h. elim h [ ] }
Reach-Inv (later r st) = call-Inv (Reach-Inv r) st
