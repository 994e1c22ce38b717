-- ===== src/Writer/Threads.antt =====
-- src/scot-rpli.cc, `ScotReplicator::write_request` under any interleaving of its callers: the writer
-- lock of src/includes/scot-core.hh, and what a caller does while it holds it.
pub mod Held
pub mod Serial
mod Examples
use scot.Base.{
  ℕ, ◌+◌, ◌≡◌, ◌==◌, Bool, true, false, Option, some, List, [], ◌∷◌, ◌++◌, if◌then◌else◌,
}
use scot.Entry.{Heap}
use scot.Memory.{Mem}
use scot.Log.{Log, sizeof_header, write_local_log}
use scot.Replicator.{ht_get_latest_entry}
use scot.Writer.{ConnContext, Post}
use scot.Writer.Replicate.{rpli_post}

-- Where a caller stands.
pub data Place : Type 0 where
  outside : Place  -- before `__START_WRITE__`, or after `__END_WRITE__`
  locked : (curr : ℕ) → Place  -- before `__ht_get_latest_entry(curr)`
  chosen : (latest : ℕ) → Place  -- before `log.write_local_log(latest)`
  posting : (header log_sz : ℕ) (ctxs : List ConnContext) → Place  -- before the posts to `ctxs`

-- What the callers share: the lock, the log, the bytes, the entries, and the posts made so far.
pub record Shared : Type 0 where
  pub writer_lock : Bool
  pub log : Log
  pub mem : Mem
  pub heap : Heap
  pub posts : List Post

-- What one caller does next. Outside the lock it only changes entries: it fills a slot, adds it to the
-- table, or marks it finished, which is taken to be any change. The size of the message is read with
-- the message: no slot is filled again or cleared while some caller has not marked its own.
pub data Access (quorum : List ConnContext) (s : Shared) : Place → Shared → Place → Type 0 where
  prepare : (h : Heap) → Access quorum s outside (record s { heap = h }) outside
  start_write :
      (curr : ℕ)
      → s.writer_lock ≡ false
      → Access quorum s outside (record s { writer_lock = true }) (locked curr)
  choose :
      {curr : ℕ} (fuel latest : ℕ) (h : Heap)
      → ht_get_latest_entry fuel s.heap curr ≡ some (latest, h)
      → Access quorum s (locked curr) (record s { heap = h }) (chosen latest)
  write :
      {latest : ℕ} (l : Log) (m : Mem) (header : ℕ)
      → write_local_log s.log s.mem (s.heap latest) ≡ (l, m, header)
      → Access quorum s
          (chosen latest)
          (record s { log = l; mem = m })
          (posting header (sizeof_header + (s.heap latest).buffer_sz + 1) quorum)
  post :
      {header log_sz : ℕ} {ctx : ConnContext} {ctxs : List ConnContext}
      → Access quorum s
          (posting header log_sz (ctx ∷ ctxs))
          (record s { posts = s.posts ++ rpli_post s.log header log_sz s.mem ctx ∷ [] })
          (posting header log_sz ctxs)
  end_write :
      {header log_sz : ℕ}
      → Access quorum s (posting header log_sz []) (record s { writer_lock = false }) outside

pub record Callers : Type 0 where
  pub shared : Shared
  pub place : ℕ → Place

abbrev pub put : (ℕ → Place) → ℕ → Place → ℕ → Place
put place i p j = if j == i then p else place j

-- The callers in any order, any number of them.
pub data Turns (quorum : List ConnContext) (s : Callers) : Callers → Type 0 where
  none_yet : Turns quorum s s
  turn :
      {t : Callers}
      → Turns quorum s t
      → (i : ℕ) {u : Shared} {p : Place} → Access quorum t.shared (t.place i) u p
      → Turns quorum s (record { shared = u; place = put t.place i p })

-- A log, bytes and entries, with no caller inside and nothing posted.
abbrev pub unlocked : Log → Mem → Heap → Callers
unlocked l m h = record {
  shared = record { writer_lock = false; log = l; mem = m; heap = h; posts = [] };
  place = λ i. outside;
}
