-- ===== src/Writer.antt =====
-- What the two writers, ScotReplicator and ScotChecker, share: the ScotWriter part of
-- src/includes/scot-core.hh, the peers of src/includes/scot-conn.hh, and what they hand to RDMA.
pub mod Replicate
pub mod Check
pub mod Filled
pub mod Replicated
pub mod Last
pub mod Sequence
pub mod Threads
pub mod Checked
mod Examples
use scot.Base.{ℕ, ◌+◌, ◌-◌, List}
use scot.Entry.{Heap}
use scot.Memory.{Mem}
use scot.Log.{Log}
use scot.Slot.{Counters}

-- A writer's own state, the entries and the bytes.
pub record Writer : Type 0 where
  pub counters : Counters
  pub log : Log
  pub heap : Heap
  pub mem : Mem

-- `struct ConnContext`: a peer, and where its memory regions begin for `rply_mr` and `rcvr_mr`.
pub record ConnContext : Type 0 where
  pub nid : ℕ
  pub rply_addr : ℕ
  pub rcvr_addr : ℕ

-- One call of `hartebeest_rdma_post_single_fast` with IBV_WR_RDMA_WRITE, and the memory at the call.
pub record Post : Type 0 where
  pub nid : ℕ
  pub header : ℕ
  pub target : ℕ
  pub size : ℕ
  pub local : Mem

-- `uintptr_t(header) - uintptr_t(log.get_base())`, added to the peer's address.
abbrev pub remote_target : ℕ → Log → (header : ℕ) → ℕ
remote_target addr l header = addr + (header - l.log)
