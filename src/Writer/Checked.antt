-- ===== src/Writer/Checked.antt =====
-- `ScotChecker::write_request` as a whole: what each peer is sent.
use scot.Base.{
  All, ℕ, ◌+◌, ◌-◌, ◌≡◌, ◌≢◌, ◌<◌, ◌∙◌, refl, ap, true, false, some, List, [], ◌∷◌, map, ◌==◌, ltb,
  u32, if◌then◌else◌, arith,
}
use scot.Entry.{SlotEntryArgs, Heap, write, set_ready}
use scot.Memory.{Mem, store8}
use scot.Memory.Laws.{store8_self, store8_ne}
use scot.Log.{
  Log, aligned_addr, write_local_log, next_message, scot_msgtype_wait, scot_msgtype_hdronly,
}
use scot.Slot.Entries.{
  get_slot_entry, fill_entry, get_next_slot, register_entry, mark_entry_finished,
}
use scot.Writer.{Writer, ConnContext, Post, remote_target}
use scot.Writer.Check.{Checker, chkr_posts, chkr_write_request}

-- The owner of the hash value is sent the whole message with type WAIT, another peer only the header
-- with type HDRONLY; besides the type, what is sent is what the memory `m` holds.
pub record IsSent (header log_sz owner : ℕ) (m : Mem) (p : Post) : Type 0 where
  pub from : p.header ≡ header
  pub for_owner : p.nid ≡ owner → (p.size ≡ log_sz) × (p.local (header + 7) ≡ scot_msgtype_wait)
  pub for_others : p.nid ≢ owner → (p.size ≡ 8) × (p.local (header + 7) ≡ scot_msgtype_hdronly)
  pub body : (a : ℕ) → a ≢ header + 7 → p.local a ≡ m a

filled_size :
    (h : Heap) (p : ℕ) (sa : SlotEntryArgs)
    → (fill_entry h p (record sa { msg = scot_msgtype_wait }) p).buffer_sz ≡ sa.buffer_sz
unfolding fill_entry write
filled_size h p sa = ground arith

-- Whom a post reaches, and where.
abbrev pub peer_of : Post → ℕ × ℕ
peer_of p = (p.nid, p.target)

abbrev pub peer_at : (offset : ℕ) → ConnContext → ℕ × ℕ
peer_at offset c = (c.nid, c.rcvr_addr + offset)

module _ (l : Log) (header log_sz owner : ℕ) where
  abbrev one_post : Mem → ConnContext → Post
  one_post g ctx = record {
    nid = ctx.nid;
    header = header;
    target = remote_target ctx.rcvr_addr l header;
    size = if owner == ctx.nid then log_sz else 8;
    local =
        store8 g (header + 7)
          (if owner == ctx.nid then scot_msgtype_wait else scot_msgtype_hdronly);
  }

  one_post-IsSent :
      (m g : Mem) (ctx : ConnContext)
      → ((a : ℕ) → a ≢ header + 7 → g a ≡ m a)
      → IsSent header log_sz owner m (one_post g ctx)
  one_post-IsSent m g ctx same = record {
    from = refl;
    for_owner = λ e. (ground arith, store8_self g (header + 7) _ ∙ ground arith);
    for_others = λ ne. (ground arith, store8_self g (header + 7) _ ∙ ground arith);
    body = λ a ne. store8_ne g (header + 7) _ a ne ∙ same a ne;
  }

  pub chkr_posts-IsSent :
      (m g : Mem) (ctxs : List ConnContext)
      → ((a : ℕ) → a ≢ header + 7 → g a ≡ m a)
      → All (IsSent header log_sz owner m) (chkr_posts l header log_sz owner g ctxs).0
  unfolding chkr_posts
  chkr_posts-IsSent m g [] same = tt
  chkr_posts-IsSent m g (ctx ∷ ctxs) same =
      let s = one_post-IsSent m g ctx same in
      (s, chkr_posts-IsSent m (one_post g ctx).local ctxs s.body)

  pub chkr_posts-peers :
      (g : Mem) (ctxs : List ConnContext)
      → map peer_of (chkr_posts l header log_sz owner g ctxs).0
        ≡ map (peer_at (header - l.log)) ctxs
  unfolding chkr_posts
  chkr_posts-peers g [] = refl
  chkr_posts-peers g (ctx ∷ ctxs) =
      ap (λ (ps : List (ℕ × ℕ)). (ctx.nid, ctx.rcvr_addr + (header - l.log)) ∷ ps)
        (chkr_posts-peers (one_post g ctx).local ctxs)

module _ (slot : ℕ) (quorum : List ConnContext) (k : Checker) (sa : SlotEntryArgs) (owner : ℕ) where
  abbrev w : Writer
  w = k.writer

  abbrev curr : ℕ
  curr = get_slot_entry slot w.counters.next_free

  abbrev header : ℕ
  header = aligned_addr w.log.log w.log.next_free

  -- The memory after the message was written to the local log.
  abbrev pub logged : Mem
  logged =
      (write_local_log w.log w.mem
        (fill_entry w.heap curr (record sa { msg = scot_msgtype_wait }) curr)).1

  -- Unless it takes the last slot, `write_request` of the checker returns; it has sent one post to
  -- each peer, in order, to the offset of the message in that peer's receiver region: the whole message
  -- as WAIT to the owner, the header alone as HDRONLY to the others. It then waits for no hash value, has
  -- left `wait_lock` set without having waited, and its log stands behind the message.
  pub chkr_write_request-asks :
      w.counters.next_free < 511
      → (j : Checker) × (posts : List Post) × (chkr_write_request slot quorum k sa owner
          ≡ some (j, posts))
        × All (IsSent header (8 + sa.buffer_sz + 1) owner logged) posts
        × (map peer_of posts ≡ map (peer_at (header - w.log.log)) quorum)
        × (j.wait_hashv ≡ 0)
        × (j.wait_lock ≡ true)
        × (j.writer.log ≡ next_message w.log sa.buffer_sz)
  unfolding chkr_write_request register_entry get_next_slot mark_entry_finished write_local_log
      next_message
  chkr_write_request-asks lt =
      let e : ltb w.counters.next_free 512 ≡ true = ground arith in
      let f : (w.counters.next_free == 511) ≡ false = ground arith in
      let h = fill_entry w.heap curr (record sa { msg = scot_msgtype_wait }) in
      let after = write_local_log w.log w.mem (h curr) in
      let sz : (h curr).buffer_sz ≡ sa.buffer_sz = filled_size w.heap curr sa in
      let sent = chkr_posts after.0 header (8 + sa.buffer_sz + 1) owner after.1 quorum in
      (
        record {
          writer = record {
            counters = record {
              next_free = u32 (w.counters.next_free + 1);
              processed = u32 (w.counters.processed + 1);
            };
            log = after.0;
            heap = set_ready h curr 0;
            mem = sent.1;
          };
          wait_hashv = 0;
          wait_lock = true;
        },
        sent.0,
        rw (e, f, sz),
        chkr_posts-IsSent after.0 header (8 + sa.buffer_sz + 1) owner logged after.1 quorum
            (λ a ne. refl),
        chkr_posts-peers after.0 header (8 + sa.buffer_sz + 1) owner after.1 quorum,
        refl,
        refl,
        ap (next_message w.log) sz,
      )
