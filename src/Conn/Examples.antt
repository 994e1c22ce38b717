-- ===== src/Conn/Examples.antt =====
-- Set-ups at concrete ids.
use scot.Base.{ℕ, ◌+◌, ◌≡◌, ◌≤◌, inl, true, List, [], ◌∷◌, refl, arith, sym, subst, All}
use scot.Core.{quorum_ids}
use scot.Conn.Strings.{Text, to_string}
use scot.Conn.Key.{rpli_ks, rply_ks}
use scot.Conn.Calls.{
  Call, Hartebeest, memc_del_general, memc_fetch_remote_mr, Has, Has-append_right,
}
use scot.Conn.{wkey, setup_calls, init_writers, each_peer, finalize_peer, connect_peer}
use scot.Conn.Rendezvous.{connect_calls}
use scot.Conn.Pairing.{pairs, IsMirrored, connect_calls-IsMirrored}
use scot.Conn.MadeFirst.{MadeFirst}
use scot.Conn.MadeFirst.Trace.{setup_calls-MadeFirst}
use scot.Conn.Phases.{calls_of, phases, set_up, barrier, clean_up}
use scot.Conn.Barrier.{Cluster, Step, Reach, start}
use scot.Conn.Barrier.Order.{delete-after-connect}
use scot.Conn.Barrier.Progress.{Reach-progress}
use scot.Conn.Barrier.Finish.{total, Steps, IsDone, Reach-finishes, IsDone-called}

abbrev all_pushed : Hartebeest
all_pushed = record {
  is_pushed = λ c. true;
  local_qp = λ k. 3;
  local_mr = λ k. 5;
  remote_mr = λ k. 7;
  addr = λ p. 4096 + p;
}

abbrev first_state : Cluster
first_state = record { called = λ i. []; left = calls_of 2 }

-- Two nodes that have nothing left to call.
abbrev last_state : Cluster
last_state = (Reach-finishes {blocks = true} {n = 2} {s = first_state} start).1.0

last_state-Reach : Reach true 2 last_state
last_state-Reach = (Reach-finishes {blocks = true} {n = 2} {s = first_state} start).1.1

last_state-IsDone : IsDone 2 last_state
last_state-IsDone = (Reach-finishes {blocks = true} {n = 2} {s = first_state} start).1.3

connect_calls-IsMirrored_example : All (IsMirrored 3 1) (pairs (connect_calls 3 1))
connect_calls-IsMirrored_example = connect_calls-IsMirrored 3 1 (omega arith)

abbrev deleted_key : Text
deleted_key = wkey rpli_ks.qp 0 1

deletes : Has (memc_del_general deleted_key) (calls_of 2 0)
unfolding clean_up finalize_peer each_peer quorum_ids
deletes =
    let late : Has (memc_del_general deleted_key) (clean_up 2 0) = inl refl in
    subst (Has (memc_del_general deleted_key)) (sym (phases 2 0))
      (Has-append_right _ (set_up 2 0) _ (Has-append_right _ (barrier 2 0) _ late))

fetches : Has (memc_fetch_remote_mr (wkey rply_ks.mr 1 0)) (connect_calls 2 1)
unfolding connect_peer each_peer quorum_ids
fetches = inl refl

last_state-deletes : Has (memc_del_general deleted_key) (last_state.called 0)
last_state-deletes =
    subst (Has (memc_del_general deleted_key))
      (sym (IsDone-called last_state-Reach last_state-IsDone 0 (omega arith))) deletes

delete-after-connect_example :
    Has (memc_fetch_remote_mr (wkey rply_ks.mr 1 0)) (last_state.called 1)
delete-after-connect_example =
    delete-after-connect {blocks = true} {n = 2} {s = last_state} last_state-Reach 0 1 deleted_key
      (omega arith) (ground arith) last_state-deletes (memc_fetch_remote_mr (wkey rply_ks.mr 1 0))
      fetches

first_state-left : (c : Call) × (cs : List Call) × (first_state.left 0 ≡ c ∷ cs)
unfolding setup_calls init_writers
first_state-left = (_, _, refl)

Reach-progress_example : (t : Cluster) × Step true 2 first_state t
Reach-progress_example =
    Reach-progress {blocks = true} {n = 2} {s = first_state} start 0 first_state-left.0
      first_state-left.1 (omega arith) first_state-left.2

Reach-finishes_example :
    ((k : ℕ) (t : Cluster) → Steps true 2 k first_state t → k ≤ total 2 first_state.left)
    × ((t : Cluster) × Reach true 2 t
        × Steps true 2 (total 2 first_state.left) first_state t
        × IsDone 2 t)
Reach-finishes_example = Reach-finishes {blocks = true} {n = 2} {s = first_state} start

setup_calls-MadeFirst_example : MadeFirst [] (setup_calls (to_string 0) 0 (1 ∷ 2 ∷ []))
setup_calls-MadeFirst_example = setup_calls-MadeFirst (to_string 0) 0 (1 ∷ 2 ∷ [])
