-- ===== src/Core/Ask.antt =====
-- `propose` on a node that does not own the hash value, up to the receiver of the owner.
use scot.Base.{
  ℕ, ◌+◌, ◌-◌, ◌^◌, ◌≡◌, ◌≢◌, ◌<◌, ◌≤◌, ◌⊎◌, refl, sym, ap, ◌∙◌, inl, inr, some, List, map, All,
  get_elem?, get_elem?-agree, All-get_elem?, Bool-cases, ==_iff, ne_of, ◌==◌, true, false, arith,
  subst,
}
use scot.Entry.{SlotEntry, SlotEntryArgs}
use scot.Memory.{Mem}
use scot.Log.{Log, aligned_addr, next_message, scot_msgtype_wait, scot_logentry_canary}
use scot.Log.Write.{IsRequest, write_local_log-IsMessage}
use scot.Log.Deliver.{IsDelivery, Looks}
use scot.Slot.Entries.{get_slot_entry, fill_entry}
use scot.Writer.{Writer, ConnContext, Post}
use scot.Writer.Filled.{IsFilled, fill_self}
use scot.Writer.Check.{Checker}
use scot.Writer.Checked.{IsSent, logged, peer_of, peer_at, chkr_write_request-asks}
use scot.Reader.{receiver_round}
use scot.Reader.Stream.{same_place}
use scot.Reader.Receive.{asked, receiver_round-delivered}
use scot.Core.{Core, chkr_writer, after_chkr, judge, propose}

module _ (c : Core) (sa : SlotEntryArgs) (owner : ℕ)
    (judged : judge c.uint_judge sa.hashv ≡ some owner) (other : owner ≢ c.nid)
    (few : c.chkr.writer.counters.next_free < 511) where
  abbrev w : Writer
  w = (chkr_writer c).writer

  abbrev src : ℕ
  src = aligned_addr w.log.log w.log.next_free

  -- The message as it stands in the log of the checker.
  abbrev pub message : Mem
  message = logged c.chkr_slot c.quorum (chkr_writer c) sa owner

  -- The entry that the message was written from.
  abbrev entry : SlotEntry
  entry =
      fill_entry w.heap (get_slot_entry c.chkr_slot w.counters.next_free)
        (record sa { msg = scot_msgtype_wait }) (get_slot_entry c.chkr_slot w.counters.next_free)

  entry-IsFilled : IsFilled entry (record sa { msg = scot_msgtype_wait })
  entry-IsFilled =
      fill_self w.heap (get_slot_entry c.chkr_slot w.counters.next_free)
        (record sa { msg = scot_msgtype_wait })

  propose-asks :
      (fuel : ℕ)
      → (k : Checker) × (posts : List Post) × (propose fuel c sa ≡ some (after_chkr c k, posts))
        × All (IsSent src (8 + sa.buffer_sz + 1) owner message) posts
        × (map peer_of posts ≡ map (peer_at (src - w.log.log)) c.quorum)
        × (k.wait_lock ≡ true)
        × (k.writer.log ≡ next_message w.log sa.buffer_sz)
  unfolding propose
  propose-asks fuel =
      let (k, posts, done, sent, peers, _, lock, log) =
        chkr_write_request-asks c.chkr_slot c.quorum (chkr_writer c) sa owner few in
      let t : (owner == c.nid) ≡ false = ground arith in
      (k, posts, rw (judged, t, done) refl, sent, peers, lock, log)

  module _ (hash_fits : sa.hashv < 2 ^ 32) (size_fits : sa.buffer_sz < 2 ^ 16)
      (inst : w.log.instn < 2 ^ 8)
      (apart : (sa.buffer + sa.buffer_sz ≤ src) ⊎ (src + 9 + sa.buffer_sz ≤ sa.buffer)) where
    entry-IsRequest : IsRequest entry
    entry-IsRequest = record {
      hashv = rw entry-IsFilled.hashv hash_fits;
      buffer_sz = rw entry-IsFilled.buffer_sz size_fits;
      msg = rw entry-IsFilled.msg (omega arith);
    }

    entry_apart :
        (entry.buffer + entry.buffer_sz ≤ src) ⊎ (src + 9 + entry.buffer_sz ≤ entry.buffer)
    entry_apart = rw (entry-IsFilled.buffer, entry-IsFilled.buffer_sz) apart

    message_type : message (src + 7) ≡ scot_msgtype_wait
    message_type =
        (write_local_log-IsMessage w.log w.mem entry entry-IsRequest inst entry_apart).msg
        ∙ entry-IsFilled.msg

    -- The post for the owner carries the message as it stands in the log.
    sent_same :
        (post : Post) (size : ℕ)
        → IsSent src size owner message post
        → post.nid ≡ owner
        → (a : ℕ) → post.local a ≡ message a
    sent_same post size sent named a = elim (Bool-cases (a == src + 7)) [
      | inl e ↦
          let q : a ≡ src + 7 = (==_iff a (src + 7)).0 e in
          rw q ((sent.for_owner named).1 ∙ sym message_type)
      | inr e ↦ sent.body a (ne_of a (src + 7) e)
    ]

    module _ (i : ℕ) (ctx : ConnContext) (peer : get_elem? c.quorum i ≡ some ctx)
        (named : ctx.nid ≡ owner) (lr : Log) (region : ctx.rcvr_addr ≡ lr.log)
        (in_step : lr.next_free ≡ w.log.next_free) (remote : Mem) (image : ℕ → Mem)
        (delivered : IsDelivery message remote src
          (aligned_addr lr.log lr.next_free)
          (9 + sa.buffer_sz)
          image)
        (clean : remote (aligned_addr lr.log lr.next_free + 7) ≡ 0)
        (no_canary : remote (aligned_addr lr.log lr.next_free + 8 + sa.buffer_sz)
          ≢ scot_logentry_canary)
        (ks : List ℕ) (looks : Looks (9 + sa.buffer_sz) ks) where
      -- Take a node whose rule names another node the owner of a proposal that fits its types and whose
      -- buffer does not overlap the place of the message, where the slot is not the last one of the checker,
      -- and an owner whose receiver reads the region that the checker writes for it and stands at the index
      -- of the checker's log. Then `propose` returns, and its posts hold one for the owner that carries
      -- the whole message to the very place where the receiver polls. Once that is delivered, however
      -- the looks of the receiver fall between the arrivals of its bytes, where no stale type or canary
      -- lies there, a round of the receiver returns and asks the replicator for a request of type ACK
      -- with the proposal's hash value and size, whose bytes in the owner's memory are those of the
      -- proposal; checker and receiver stand at the same index again.
      pub propose-received :
          (fuel : ℕ)
          → (d : Core) × (posts : List Post) × (post : Post) × (g : Mem) × (propose fuel c sa
              ≡ some (d, posts))
            × (get_elem? posts i ≡ some post)
            × (post.nid ≡ owner)
            × (post.target ≡ aligned_addr lr.log lr.next_free)
            × (post.size ≡ 9 + sa.buffer_sz)
            × ((a : ℕ) → post.local a ≡ message a)
            × (receiver_round lr (map image ks)
                ≡ some (
                  some (asked sa.hashv (aligned_addr lr.log lr.next_free + 8) sa.buffer_sz),
                  next_message lr sa.buffer_sz,
                  g,
                ))
            × ((j : ℕ)
                → j < sa.buffer_sz
                → g (aligned_addr lr.log lr.next_free + 8 + j) ≡ w.mem (sa.buffer + j))
            × ((next_message lr sa.buffer_sz).next_free ≡ d.chkr.writer.log.next_free)
      propose-received fuel =
          let (k, posts, done, all_sent, peers, lock, log) = propose-asks fuel in
          let (post, at, same) =
            get_elem?-agree peer_of (peer_at (src - w.log.log)) posts c.quorum i ctx peers peer in
          let sent = All-get_elem? _ posts i post all_sent at in
          let nid : post.nid ≡ owner = ap (λ (x : ℕ × ℕ). x.0) same ∙ named in
          let size = entry-IsFilled.buffer_sz in
          let (g, round, type, payload, place) =
            receiver_round-delivered w.log lr w.mem entry entry-IsRequest inst entry_apart in_step
              remote image
              (subst
                (λ (n : ℕ).
                  IsDelivery message remote src (aligned_addr lr.log lr.next_free) (9 + n) image)
                (sym size) delivered)
              clean
              (subst
                (λ (n : ℕ).
                  remote (aligned_addr lr.log lr.next_free + 8 + n) ≢ scot_logentry_canary)
                (sym size) no_canary)
              entry-IsFilled.msg ks (subst (λ (n : ℕ). Looks (9 + n) ks) (sym size) looks) in
          (
            after_chkr c k,
            posts,
            post,
            g,
            done,
            at,
            nid,
            ap (λ (x : ℕ × ℕ). x.1) same ∙ omega (arith, region, in_step),
            (sent.for_owner nid).0 ∙ omega arith,
            sent_same post _ sent nid,
            subst
                (λ (h : ℕ).
                  receiver_round lr (map image ks)
                  ≡ some (
                    some (asked h (aligned_addr lr.log lr.next_free + 8) sa.buffer_sz),
                    next_message lr sa.buffer_sz,
                    g,
                  ))
                entry-IsFilled.hashv
                (subst
                  (λ (n : ℕ).
                    receiver_round lr (map image ks)
                    ≡ some (
                      some (asked entry.hashv (aligned_addr lr.log lr.next_free + 8) n),
                      next_message lr n,
                      g,
                    ))
                  size round),
            λ j lt.
                payload j (subst (λ (n : ℕ). j < n) (sym size) lt)
                ∙ ap (λ (x : ℕ). w.mem (x + j)) entry-IsFilled.buffer,
            same_place w.log lr sa.buffer_sz in_step ∙ ap (λ (x : Log). x.next_free) (sym log),
          )
