-- ===== src/Writer/Replicate.antt =====
-- src/scot-rpli.cc, `ScotReplicator::write_request`, as one thread runs it by itself. The RDMA calls
-- are a list of posts; waiting for their completion changes nothing here.
use scot.Base.{ℕ, ◌+◌, Option, some, List, map, ◌>>=◌}
use scot.Entry.{SlotEntryArgs}
use scot.Memory.{Mem}
use scot.Lfmap.{LockfreeMap}
use scot.Log.{Log, sizeof_header, write_local_log}
use scot.Slot.Entries.{get_slot_entry, register_entry, mark_entry_finished}
use scot.Replicator.{ht_try_insert, ht_get_latest_entry}
use scot.Writer.{Writer, ConnContext, Post, remote_target}

unfoldable pub rpli_post : Log → (header log_sz : ℕ) → Mem → ConnContext → Post
rpli_post l header log_sz mem ctx = record {
  nid = ctx.nid;
  header = header;
  target = remote_target ctx.rply_addr l header;
  size = log_sz;
  local = mem;
}

-- `slot` is the address of the slots; `fuel` bounds each loop. The function itself returns false.
unfoldable pub write_request :
    (slot : ℕ)
    → LockfreeMap
    → (fuel : ℕ) → List ConnContext
    → Writer
    → SlotEntryArgs
    → Option (Writer × List Post)
unfolding rpli_post
write_request slot hasht fuel quorum w sa = do
  (index, c, h) ← register_entry slot w.counters w.heap sa
  let curr = get_slot_entry slot index
  g ← ht_try_insert hasht fuel fuel h curr
  (latest, k) ← ht_get_latest_entry fuel g curr
  let (l, mem, header) = write_local_log w.log w.mem (k latest)
  let log_sz = sizeof_header + (k latest).buffer_sz + 1
  (_, d, final) ← mark_entry_finished slot (some hasht) c k index latest
  some (
    record { counters = d; log = l; heap = final; mem = mem },
    map (rpli_post l header log_sz mem) quorum,
  )
