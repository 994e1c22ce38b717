-- ===== src/Reader/Replicate.antt =====
-- `ScotReplicator::write_request` on one node, up to the replayer of a peer.
use scot.Base.{
  ℕ, suc, ◌+◌, ◌%◌, ◌^◌, ◌≡◌, ◌≢◌, ◌<◌, ◌≤◌, ◌⊎◌, none, some, List, ◌∷◌, map, length, get_elem?,
  get_elem?-map, if◌then◌else◌, ◌==◌, arith, subst,
}
use scot.Entry.{SlotEntry, SlotEntryArgs}
use scot.Memory.{Mem}
use scot.Lfmap.Chain.{Cell}
use scot.Lfmap.Find.{hash_table}
use scot.Log.{
  Log, aligned_addr, write_local_log, scot_msgtype_pure, scot_msgtype_ack, scot_msgtype_none,
  scot_logentry_canary,
}
use scot.Log.Write.{IsRequest}
use scot.Log.Deliver.{IsDelivery, Looks}
use scot.Slot.Entries.{get_slot_entry}
use scot.Replicator.Table.{IsTable}
use scot.Replicator.Add.{IsUnused, cells_after}
use scot.Writer.{Writer, ConnContext, Post}
use scot.Writer.Replicate.{write_request}
use scot.Writer.Replicated.{request, whole_post, write_request-logs}
use scot.Reader.{replayer_round}
use scot.Reader.Replay.{replayer_round-delivered}

module _ (nelem bucket slot : ℕ) (cells : ℕ → List Cell) (reg : List ℕ) (w : Writer)
    (sa : SlotEntryArgs) (t : IsTable nelem bucket w.heap cells reg)
    (u : IsUnused nelem bucket reg (get_slot_entry slot w.counters.next_free))
    (few : w.counters.next_free < 511) where
  abbrev pub requested : SlotEntry
  requested = request nelem bucket slot cells reg w sa t u

  abbrev pub sent : ConnContext → Post
  sent ctx =
      whole_post nelem bucket slot cells reg w sa t u (write_local_log w.log w.mem requested).1 ctx

  module _ (fits : IsRequest requested) (inst : w.log.instn < 2 ^ 8)
      (apart : (sa.buffer + sa.buffer_sz ≤ aligned_addr w.log.log w.log.next_free)
        ⊎ (aligned_addr w.log.log w.log.next_free + 9 + sa.buffer_sz ≤ sa.buffer))
      (type : (sa.msg ≡ scot_msgtype_pure) ⊎ (sa.msg ≡ scot_msgtype_ack)) (fuel : ℕ)
      (enough : length reg < fuel) (quorum : List ConnContext) (i : ℕ) (ctx : ConnContext)
      (peer : get_elem? quorum i ≡ some ctx) (lr : Log) (region : ctx.rply_addr ≡ lr.log)
      (in_step : lr.next_free ≡ w.log.next_free) (remote : Mem) (image : ℕ → Mem)
      (delivered : IsDelivery
        (sent ctx).local
        remote
        (sent ctx).header
        (sent ctx).target
        (sent ctx).size
        image)
      (clean : remote (aligned_addr lr.log lr.next_free + 7) ≡ 0)
      (no_canary : remote (aligned_addr lr.log lr.next_free + 8 + sa.buffer_sz)
        ≢ scot_logentry_canary)
      (ks : List ℕ) (looks : Looks (9 + sa.buffer_sz) ks) where
    sent_target : (sent ctx).target ≡ aligned_addr lr.log lr.next_free
    sent_target = omega (arith, region, in_step)

    delivery :
        IsDelivery
          (sent ctx).local
          remote
          (aligned_addr w.log.log w.log.next_free)
          (aligned_addr lr.log lr.next_free)
          (9 + sa.buffer_sz)
          image
    delivery =
        subst
          (λ (n : ℕ).
            IsDelivery (sent ctx).local remote (aligned_addr w.log.log w.log.next_free)
              (aligned_addr lr.log lr.next_free) n image)
          (omega arith)
          (subst
            (λ (a : ℕ).
              IsDelivery (sent ctx).local remote (sent ctx).header a (sent ctx).size image)
            sent_target delivered)

    -- A request of type PURE or ACK gets through to the replayer of a peer: `write_request` returns under
    -- its conditions, the post for the peer goes to where its replayer polls, and once that is
    -- delivered a round of the replayer returns, calls `release_wait` for an ACK, and leaves the payload
    -- in place; writer and replayer stand at the same index again.
    pub write_request-replayed :
        (v : Writer) × (l : Log) × (g : Mem) × (write_request slot
            (hash_table nelem bucket)
            (suc fuel)
            quorum
            w
            sa
          ≡ some (v, map sent quorum))
        × (get_elem? (map sent quorum) i ≡ some (sent ctx))
        × ((sent ctx).target ≡ aligned_addr lr.log lr.next_free)
        × (replayer_round lr (map image ks)
            ≡ some (if sa.msg == scot_msgtype_ack then some sa.hashv else none, l, g))
        × (l.next_free ≡ v.log.next_free)
        × (g (aligned_addr lr.log lr.next_free + 7) ≡ scot_msgtype_none)
        × ((j : ℕ)
            → j < sa.buffer_sz
            → g (aligned_addr lr.log lr.next_free + 8 + j) ≡ w.mem (sa.buffer + j))
        × IsTable nelem bucket v.heap
            (cells_after
              (sa.hashv % nelem)
              sa.hashv
              (get_slot_entry slot w.counters.next_free)
              cells)
            (get_slot_entry slot w.counters.next_free ∷ reg)
    write_request-replayed =
        let (k, done, table) =
          write_request-logs nelem bucket slot cells reg w sa t u fuel quorum few enough in
        let (l, g, round, cleared, _, payload, place) =
          replayer_round-delivered w.log lr w.mem requested fits inst apart in_step remote image
            delivery clean no_canary type ks looks in
        (
          _,
          l,
          g,
          done,
          get_elem?-map sent quorum i ctx peer,
          sent_target,
          round,
          place,
          cleared,
          payload,
          table,
        )
