-- ===== src/Reader/Receive.antt =====
-- ScotReceiver and a WAIT message that arrives.
use Prim.Native.Nat.{bit_and}
use scot.Base.{ℕ, ◌+◌, ◌^◌, ◌≡◌, ◌≢◌, ◌<◌, ◌≤◌, ◌⊎◌, refl, ◌∙◌, some, List, map, ◌==◌, true, arith}
use scot.Entry.{SlotEntry, SlotEntryArgs}
use scot.Memory.{Mem, store8}
use scot.Memory.Laws.{store8_self, store8_ne}
use scot.Log.{
  Log, aligned_addr, next_message, write_local_log, scot_msgtype_wait, scot_msgtype_ack,
  scot_msgtype_none, scot_logentry_canary,
}
use scot.Log.Write.{IsRequest}
use scot.Log.Deliver.{IsDelivery, Looks, poll_next_local_log-delivered}
use scot.Reader.{receiver_round}

-- What the receiver asks of the replicator.
abbrev pub asked : (hashv buffer buffer_sz : ℕ) → SlotEntryArgs
asked hashv buffer buffer_sz = record {
  hashv = hashv;
  buffer = buffer;
  buffer_sz = buffer_sz;
  key = 0;
  key_sz = 0;
  msg = scot_msgtype_ack;
}

module _ (lw lr : Log) (m : Mem) (r : SlotEntry) (fits : IsRequest r) (inst : lw.instn < 2 ^ 8)
    (apart : (r.buffer + r.buffer_sz ≤ aligned_addr lw.log lw.next_free)
      ⊎ (aligned_addr lw.log lw.next_free + 9 + r.buffer_sz ≤ r.buffer))
    (in_step : lr.next_free ≡ lw.next_free) (remote : Mem) (image : ℕ → Mem)
    (d : IsDelivery
      (write_local_log lw m r).1
      remote
      (aligned_addr lw.log lw.next_free)
      (aligned_addr lr.log lr.next_free)
      (9 + r.buffer_sz)
      image)
    (clean : remote (aligned_addr lr.log lr.next_free + 7) ≡ 0)
    (no_canary : remote (aligned_addr lr.log lr.next_free + 8 + r.buffer_sz)
      ≢ scot_logentry_canary) where
  abbrev to : ℕ
  to = aligned_addr lr.log lr.next_free

  -- The receiver stands where the writer stood, and the message is delivered: its round returns, asks for
  -- the request of the message to be replicated as ACK, and clears its type.
  pub receiver_round-delivered :
      r.msg ≡ scot_msgtype_wait
      → (ks : List ℕ) → Looks (9 + r.buffer_sz) ks
      → (g : Mem) × (receiver_round lr (map image ks)
          ≡ some (some (asked r.hashv (to + 8) r.buffer_sz), next_message lr r.buffer_sz, g))
        × (g (to + 7) ≡ scot_msgtype_none)
        × ((j : ℕ) → j < r.buffer_sz → g (to + 8 + j) ≡ m (r.buffer + j))
        × ((next_message lr r.buffer_sz).next_free ≡ (write_local_log lw m r).0.next_free)
  unfolding receiver_round
  receiver_round-delivered type ks looks =
      let stale : bit_and (remote (to + 7)) 12 ≡ 0 = rw clean refl in
      let wanted : bit_and r.msg 12 ≢ 0 = rw type (λ e. omega arith) in
      let (g, done, hash, size, msg, payload, canary, place) =
        poll_next_local_log-delivered lw lr m r fits inst apart in_step remote image 12 d stale
          wanted (rw type (λ e. omega arith)) no_canary ks looks in
      let is_wait : (g (to + 7) == scot_msgtype_wait) ≡ true = rw (msg, type) refl in
      (
        store8 g (to + 7) scot_msgtype_none,
        rw (done, is_wait, hash, size) refl,
        store8_self g (to + 7) 0,
        λ j lt. store8_ne g (to + 7) 0 _ (omega arith) ∙ payload j lt,
        place,
      )
