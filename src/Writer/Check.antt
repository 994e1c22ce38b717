-- ===== src/Writer/Check.antt =====
-- src/scot-chkr.cc, ScotChecker, as one thread runs it by itself. Between the posts the type in the
-- header changes, and each post is completed before the next.
use scot.Base.{
  ℕ, ◌+◌, Bool, true, false, Option, none, some, List, [], ◌∷◌, ◌==◌, if◌then◌else◌, ◌>>=◌,
}
use scot.Entry.{SlotEntryArgs}
use scot.Memory.{Mem, store8}
use scot.Log.{Log, sizeof_header, write_local_log, scot_msgtype_wait, scot_msgtype_hdronly}
use scot.Slot.Entries.{get_slot_entry, register_entry, mark_entry_finished}
use scot.Writer.{Writer, ConnContext, Post, remote_target}

-- The checker beside its ScotWriter part: the hash value it waits for, and `wait_lock`.
pub record Checker : Type 0 where
  pub writer : Writer
  pub wait_hashv : ℕ
  pub wait_lock : Bool

-- The loop over the quorum: the posts, and the memory after.
unfoldable pub chkr_posts :
    Log → (header log_sz owner : ℕ) → Mem → List ConnContext → List Post × Mem
chkr_posts l header log_sz owner m [] = ([], m)
chkr_posts l header log_sz owner m (ctx ∷ ctxs) =
    let own = owner == ctx.nid in
    let g = store8 m (header + 7) (if own then scot_msgtype_wait else scot_msgtype_hdronly) in
    let rest = chkr_posts l header log_sz owner g ctxs in
    let post : Post = record {
      nid = ctx.nid;
      header = header;
      target = remote_target ctx.rcvr_addr l header;
      size = if own then log_sz else sizeof_header;
      local = g;
    } in
    (post ∷ rest.0, rest.1)

-- `write_request`; the caller gives the arguments with `msg = SCOT_MSGTYPE_WAIT`. `wait_lock` is set
-- by `__WAIT_FOR_PROPACK__`, whose loop ends after one round whatever the lock was.
unfoldable pub chkr_write_request :
    (slot : ℕ)
    → List ConnContext
    → Checker
    → SlotEntryArgs
    → (owner : ℕ) → Option (Checker × List Post)
unfolding chkr_posts
chkr_write_request slot quorum k sa owner = do
  let w = k.writer
  (index, c, h) ← register_entry slot w.counters w.heap (record sa { msg = scot_msgtype_wait })
  let curr = get_slot_entry slot index
  let (l, mem, header) = write_local_log w.log w.mem (h curr)
  let log_sz = sizeof_header + (h curr).buffer_sz + 1
  let (posts, m) = chkr_posts l header log_sz owner mem quorum
  (_, d, final) ← mark_entry_finished slot none c h index curr
  some (
    record {
      writer = record { counters = d; log = l; heap = final; mem = m };
      wait_hashv = 0;
      wait_lock = true;
    },
    posts,
  )

-- `release_wait`
unfoldable pub release_wait : Checker → (hashv : ℕ) → Checker
release_wait k hashv = if k.wait_hashv == hashv then record k { wait_lock = false } else k
