-- ===== src/Reader.antt =====
-- src/scot-rcvr.cc and src/scot-rply.cc: one round of the worker loops of ScotReceiver and
-- ScotReplayer. As in the log, a list says what the waits see; the result begins with what the round
-- asks of its writer.
pub mod Replay
pub mod Stale
pub mod Worker
pub mod Stream
pub mod Succession
pub mod Receive
pub mod Replicate
mod Examples
use Prim.Native.Nat.{bit_xor}
use scot.Base.{ℕ, ◌+◌, Option, none, some, List, ◌==◌, if◌then◌else◌, ◌>>=◌}
use scot.Entry.{SlotEntryArgs}
use scot.Memory.{Mem, store8, load16, load32}
use scot.Log.{
  Log, sizeof_header, poll_next_local_log, scot_msgtype_none, scot_msgtype_ack, scot_msgtype_wait,
}

-- `ScotReceiver::__worker`: it polls for WAIT | HDRONLY. `some` request goes to the replicator.
unfoldable pub receiver_round : Log → List Mem → Option (Option SlotEntryArgs × Log × Mem)
receiver_round log ms = do
  (l, m, rcvd) ← poll_next_local_log log 12 ms
  if m (rcvd + 7) == scot_msgtype_wait
      then some (
        some (record {
          hashv = load32 m rcvd;
          buffer = rcvd + sizeof_header;
          buffer_sz = load16 m (rcvd + 4);
          key = 0;
          key_sz = 0;
          msg = scot_msgtype_ack;
        }),
        l,
        store8 m (rcvd + 7) scot_msgtype_none,
      )
      else some (none, l, m)

-- `ScotReplayer::__worker`: it polls for PURE | ACK. `some` hash value goes to the checker.
unfoldable pub replayer_round : Log → List Mem → Option (Option ℕ × Log × Mem)
replayer_round log ms = do
  (l, m, rcvd) ← poll_next_local_log log 3 ms
  some (
    if m (rcvd + 7) == scot_msgtype_ack then some (load32 m rcvd) else none,
    l,
    store8 m (rcvd + 7) scot_msgtype_none,
  )

-- `worker_signal_toggle`
abbrev pub worker_signal_toggle : (worker_signal signal : ℕ) → ℕ
worker_signal_toggle worker_signal signal = bit_xor worker_signal signal
