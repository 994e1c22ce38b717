-- ===== src/Reader/Worker.antt =====
-- The classes ScotReplayer and ScotReceiver of src/includes/scot-core.hh: their constructors and
-- destructors (src/scot-rply.cc, src/scot-rcvr.cc), the signal of their workers, and the worker loops.
-- The pointer to the writer that a worker calls is the same for every worker of a node, and is left out.
use Prim.Native.Nat.{bit_and}
use scot.Base.{ℕ, Bool, true, false, Option, none, some, List, [], ◌∷◌, ◌==◌, if◌then◌else◌}
use scot.Entry.{SlotEntryArgs}
use scot.Memory.{Mem}
use scot.Log.{Log, scot_log}
use scot.Reader.{receiver_round, replayer_round, worker_signal_toggle}

abbrev pub scot_wrkr_halt : ℕ
scot_wrkr_halt = 0

abbrev pub scot_wrkr_run : ℕ
scot_wrkr_run = 1

abbrev pub scot_wrkr_pause : ℕ
scot_wrkr_pause = 2

-- `worker` says whether the thread was spawned.
pub record Replayer : Type 0 where
  pub log : Log
  pub worker : Bool
  pub worker_signal : ℕ
  pub id : ℕ

pub record Receiver : Type 0 where
  pub log : Log
  pub worker : Bool
  pub worker_signal : ℕ
  pub id : ℕ

-- The constructors.
unfoldable pub scot_replayer : (addr rply_id : ℕ) → Mem → Replayer × Mem
scot_replayer addr rply_id m =
    let (log, g) = scot_log addr m in
    (
      record {
        log = log;
        worker = false;
        worker_signal = worker_signal_toggle 0 scot_wrkr_pause;
        id = rply_id;
      },
      g,
    )

unfoldable pub scot_receiver : (addr rcvr_id : ℕ) → Mem → Receiver × Mem
scot_receiver addr rcvr_id m =
    let (log, g) = scot_log addr m in
    (
      record {
        log = log;
        worker = false;
        worker_signal = worker_signal_toggle 0 scot_wrkr_pause;
        id = rcvr_id;
      },
      g,
    )

abbrev pub toggle_replayer : Replayer → (signal : ℕ) → Replayer
toggle_replayer r signal = record r { worker_signal = worker_signal_toggle r.worker_signal signal }

abbrev pub toggle_receiver : Receiver → (signal : ℕ) → Receiver
toggle_receiver r signal = record r { worker_signal = worker_signal_toggle r.worker_signal signal }

abbrev pub spawn_replayer : Replayer → Replayer
spawn_replayer r = record r { worker = true }

abbrev pub spawn_receiver : Receiver → Receiver
spawn_receiver r = record r { worker = true }

-- The destructors: the thread is detached, and sees at most the signal that they leave.
abbrev pub end_replayer : Replayer → Replayer
end_replayer r = toggle_replayer r scot_wrkr_halt

abbrev pub end_receiver : Receiver → Receiver
end_receiver r = toggle_receiver r scot_wrkr_halt

-- `IS_SIGNALED(SCOT_WRKR_PAUSE)`
abbrev pub is_paused : ℕ → Bool
is_paused worker_signal = if bit_and worker_signal scot_wrkr_pause == 0 then false else true

-- The wait at the top of a round, by the signals that it reads; false while it still waits.
unfoldable pub pause_loop : List ℕ → Bool
pause_loop [] = false
pause_loop (s ∷ ss) = if is_paused s then pause_loop ss else true

abbrev pub keep_some : Option ℕ → List ℕ → List ℕ
keep_some none hs = hs
keep_some (some h) hs = h ∷ hs

-- `ScotReplayer::__worker`, for the signals and the memories that each of its rounds sees: the hash
-- values that it passes to `release_wait`, up to the first round that still waits.
unfoldable pub replayer_worker : Log → List (List ℕ × List Mem) → List ℕ
replayer_worker log [] = []
replayer_worker log ((signals, looks) ∷ rounds) =
    if pause_loop signals
    then elim (replayer_round log looks) [
      | none ↦ []
      | some (o, l, m) ↦ keep_some o (replayer_worker l rounds)
    ]
    else []

abbrev pub keep_request : Option SlotEntryArgs → List SlotEntryArgs → List SlotEntryArgs
keep_request none rs = rs
keep_request (some r) rs = r ∷ rs

-- `ScotReceiver::__worker`: the requests that it passes to the replicator's `write_request`.
unfoldable pub receiver_worker : Log → List (List ℕ × List Mem) → List SlotEntryArgs
receiver_worker log [] = []
receiver_worker log ((signals, looks) ∷ rounds) =
    if pause_loop signals
    then elim (receiver_round log looks) [
      | none ↦ []
      | some (o, l, m) ↦ keep_request o (receiver_worker l rounds)
    ]
    else []
