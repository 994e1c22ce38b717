-- ===== src/Reader/Replay.antt =====
-- ScotReplayer and a message that arrives.
use Prim.Native.Nat.{bit_and}
use scot.Base.{
  ℕ, ◌+◌, ◌^◌, ◌≡◌, ◌≢◌, ◌<◌, ◌≤◌, ◌⊎◌, ◌∙◌, refl, inl, inr, sym, ap, Option, none, some, List, map,
  ◌==◌, if◌then◌else◌, arith,
}
use scot.Entry.{SlotEntry}
use scot.Memory.{Mem, store8}
use scot.Memory.Laws.{store8_self, store8_ne}
use scot.Log.{
  Log, aligned_addr, next_message, write_local_log, scot_logentry_canary, scot_msgtype_ack,
  scot_msgtype_pure, scot_msgtype_none,
}
use scot.Log.Write.{IsRequest}
use scot.Log.Deliver.{IsDelivery, Looks, poll_next_local_log-polled, poll_next_local_log-delivered}
use scot.Reader.{replayer_round}

same_mem :
    {l l' : Log} {g g' : Mem} {p p' : ℕ}
    → ◌≡◌ {A = Option (Log × Mem × ℕ)} (some (l, g, p)) (some (l', g', p'))
    → g ≡ g'
same_mem e = cc

module _ (lw lr : Log) (m : Mem) (r : SlotEntry) (fits : IsRequest r) (inst : lw.instn < 2 ^ 8)
    (apart : (r.buffer + r.buffer_sz ≤ aligned_addr lw.log lw.next_free)
      ⊎ (aligned_addr lw.log lw.next_free + 9 + r.buffer_sz ≤ r.buffer))
    (in_step : lr.next_free ≡ lw.next_free) (remote : Mem) (image : ℕ → Mem)
    (d : IsDelivery
      (write_local_log lw m r).1
      remote
      (aligned_addr lw.log lw.next_free)
      (aligned_addr lr.log lr.next_free)
      (9 + r.buffer_sz)
      image)
    (clean : remote (aligned_addr lr.log lr.next_free + 7) ≡ 0)
    (no_canary : remote (aligned_addr lr.log lr.next_free + 8 + r.buffer_sz)
      ≢ scot_logentry_canary) where
  abbrev dst : ℕ
  dst = aligned_addr lr.log lr.next_free

  -- What the round leaves: the image of the whole message with its type and its canary cleared.
  abbrev pub left_by : Mem
  left_by =
      store8 (store8 (image (9 + r.buffer_sz)) (dst + 8 + r.buffer_sz) 0) (dst + 7)
        scot_msgtype_none

  pub replayer_round-left_by :
      (r.msg ≡ scot_msgtype_pure) ⊎ (r.msg ≡ scot_msgtype_ack)
      → (ks : List ℕ) → Looks (9 + r.buffer_sz) ks
      → replayer_round lr (map image ks)
        ≡ some (
          if r.msg == scot_msgtype_ack then some r.hashv else none,
          next_message lr r.buffer_sz,
          left_by,
        )
  unfolding replayer_round
  replayer_round-left_by type ks looks =
      let stale : bit_and (remote (dst + 7)) 3 ≡ 0 = rw clean refl in
      let wanted : bit_and r.msg 3 ≢ 0 = elim type [
        | inl pure ↦ rw pure (λ e. omega arith)
        | inr ack ↦ rw ack (λ e. omega arith)
      ] in
      let e =
        poll_next_local_log-polled lw lr m r fits inst apart in_step remote image 3 d stale wanted
          (ground arith) no_canary ks looks in
      let (g, done, hash, size, msg, payload, canary, place) =
        poll_next_local_log-delivered lw lr m r fits inst apart in_step remote image 3 d stale
          wanted (ground arith) no_canary ks looks in
      rw done (
        rw (msg, hash)
          (ap
            (λ (x : Mem). some (
              if r.msg == scot_msgtype_ack then some r.hashv else none,
              next_message lr r.buffer_sz,
              store8 x (dst + 7) scot_msgtype_none,
            ))
            (same_mem (sym done ∙ e))))

  -- The round, with the log after it.
  pub replayer_round-next :
      (r.msg ≡ scot_msgtype_pure) ⊎ (r.msg ≡ scot_msgtype_ack)
      → (ks : List ℕ) → Looks (9 + r.buffer_sz) ks
      → (g : Mem) × (replayer_round lr (map image ks)
          ≡ some (
            if r.msg == scot_msgtype_ack then some r.hashv else none,
            next_message lr r.buffer_sz,
            g,
          ))
        × (g (dst + 7) ≡ scot_msgtype_none)
        × (g (dst + 8 + r.buffer_sz) ≡ 0)
        × ((j : ℕ) → j < r.buffer_sz → g (dst + 8 + j) ≡ m (r.buffer + j))
        × ((next_message lr r.buffer_sz).next_free ≡ (write_local_log lw m r).0.next_free)
  unfolding replayer_round
  replayer_round-next type ks looks =
      let stale : bit_and (remote (dst + 7)) 3 ≡ 0 = rw clean refl in
      let wanted : bit_and r.msg 3 ≢ 0 = elim type [
        | inl pure ↦ rw pure (λ e. omega arith)
        | inr ack ↦ rw ack (λ e. omega arith)
      ] in
      let (g, done, hash, size, msg, payload, canary, place) =
        poll_next_local_log-delivered lw lr m r fits inst apart in_step remote image 3 d stale
          wanted (ground arith) no_canary ks looks in
      (
        store8 g (dst + 7) scot_msgtype_none,
        rw done (rw (msg, hash)),
        store8_self g (dst + 7) 0,
        store8_ne g (dst + 7) 0 _ (omega arith) ∙ canary,
        λ j lt. store8_ne g (dst + 7) 0 _ (omega arith) ∙ payload j lt,
        place,
      )

  -- The replayer stands where the writer stood, the request fits its types and does not overlap its
  -- message, and neither a type nor a canary lies where the new ones arrive. Then, however the looks of the
  -- replayer fall between the arrivals of the bytes of a request that the
  -- replicator wrote with type PURE or ACK, its round returns; it calls `release_wait` exactly for an
  -- ACK, and then with the request's hash value; it leaves the type and the canary cleared and the
  -- payload of the request in place, and its log stands where the writer's stands.
  pub replayer_round-delivered :
      (r.msg ≡ scot_msgtype_pure) ⊎ (r.msg ≡ scot_msgtype_ack)
      → (ks : List ℕ) → Looks (9 + r.buffer_sz) ks
      → (l : Log) × (g : Mem) × (replayer_round lr (map image ks)
          ≡ some (if r.msg == scot_msgtype_ack then some r.hashv else none, l, g))
        × (g (dst + 7) ≡ scot_msgtype_none)
        × (g (dst + 8 + r.buffer_sz) ≡ 0)
        × ((j : ℕ) → j < r.buffer_sz → g (dst + 8 + j) ≡ m (r.buffer + j))
        × (l.next_free ≡ (write_local_log lw m r).0.next_free)
  replayer_round-delivered type ks looks =
      let (g, done, t, c, payload, place) = replayer_round-next type ks looks in
      (next_message lr r.buffer_sz, g, done, t, c, payload, place)
