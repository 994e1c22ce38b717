-- ===== src/Core/Propose.antt =====
-- `propose` on the node that owns the hash value, up to the replayer of a peer.
use scot.Base.{
  ℕ, suc, ◌+◌, ◌%◌, ◌^◌, ◌≡◌, ◌≢◌, ◌<◌, ◌≤◌, ◌⊎◌, refl, inl, none, some, List, ◌∷◌, map, length,
  get_elem?, ◌==◌, true, arith,
}
use scot.Entry.{SlotEntry, SlotEntryArgs}
use scot.Memory.{Mem}
use scot.Lfmap.Chain.{Cell}
use scot.Lfmap.Find.{hash_table}
use scot.Log.{Log, aligned_addr, scot_msgtype_pure, scot_msgtype_none, scot_logentry_canary}
use scot.Log.Write.{IsRequest}
use scot.Log.Deliver.{IsDelivery, Looks}
use scot.Slot.Entries.{get_slot_entry}
use scot.Replicator.Table.{IsTable}
use scot.Replicator.Add.{IsUnused, cells_after}
use scot.Writer.{ConnContext, Post}
use scot.Reader.{replayer_round}
use scot.Reader.Replicate.{requested, sent, write_request-replayed}
use scot.Core.{Core, rpli_writer, after_rpli, judge, propose}

module _ (nelem bucket : ℕ) (cells : ℕ → List Cell) (reg : List ℕ) (c : Core) (sa : SlotEntryArgs)
    (hasht : c.hasht ≡ hash_table nelem bucket) (t : IsTable nelem bucket c.rpli.heap cells reg)
    (u : IsUnused nelem bucket reg (get_slot_entry c.rpli_slot c.rpli.counters.next_free))
    (few : c.rpli.counters.next_free < 511) (owner : judge c.uint_judge sa.hashv ≡ some c.nid) where
  -- The request that `propose` passes on.
  abbrev pub pure_args : SlotEntryArgs
  pure_args = record sa { msg = scot_msgtype_pure }

  abbrev pub proposed : SlotEntry
  proposed = requested nelem bucket c.rpli_slot cells reg (rpli_writer c) pure_args t u few

  abbrev pub post_for : ConnContext → Post
  post_for = sent nelem bucket c.rpli_slot cells reg (rpli_writer c) pure_args t u few

  module _ (fits : IsRequest proposed) (inst : c.rpli.log.instn < 2 ^ 8)
      (apart : (sa.buffer + sa.buffer_sz ≤ aligned_addr c.rpli.log.log c.rpli.log.next_free)
        ⊎ (aligned_addr c.rpli.log.log c.rpli.log.next_free + 9 + sa.buffer_sz ≤ sa.buffer))
      (fuel : ℕ) (enough : length reg < fuel) (i : ℕ) (ctx : ConnContext)
      (peer : get_elem? c.quorum i ≡ some ctx) (lr : Log) (region : ctx.rply_addr ≡ lr.log)
      (in_step : lr.next_free ≡ c.rpli.log.next_free) (remote : Mem) (image : ℕ → Mem)
      (delivered : IsDelivery
        (post_for ctx).local
        remote
        (post_for ctx).header
        (post_for ctx).target
        (post_for ctx).size
        image)
      (clean : remote (aligned_addr lr.log lr.next_free + 7) ≡ 0)
      (no_canary : remote (aligned_addr lr.log lr.next_free + 8 + sa.buffer_sz)
        ≢ scot_logentry_canary)
      (ks : List ℕ) (looks : Looks (9 + sa.buffer_sz) ks) where
    -- Take a node whose rule names it the owner of a proposal, under the conditions of `write_request`, and
    -- a peer whose replayer reads the region that the node writes for it and stands at the index of
    -- the node's log. Then `propose` returns, and its posts hold one for the peer that goes to the very
    -- place where the replayer polls. Once that post is delivered, however the looks of the replayer fall
    -- between the arrivals of its bytes, where no stale type or canary lies there, a round of
    -- the replayer returns; it releases no checker, and leaves the payload of the proposal in place and
    -- its type cleared; writer and replayer stand at the same index again, and the table of the
    -- node holds its invariant with the new entry as the newest for its hash value.
    pub propose-replayed :
        (d : Core) × (posts : List Post) × (l : Log) × (g : Mem) × (propose (suc fuel) c sa
          ≡ some (d, posts))
        × (get_elem? posts i ≡ some (post_for ctx))
        × ((post_for ctx).target ≡ aligned_addr lr.log lr.next_free)
        × (replayer_round lr (map image ks) ≡ some (none, l, g))
        × (l.next_free ≡ d.rpli.log.next_free)
        × (g (aligned_addr lr.log lr.next_free + 7) ≡ scot_msgtype_none)
        × ((j : ℕ)
            → j < sa.buffer_sz
            → g (aligned_addr lr.log lr.next_free + 8 + j) ≡ c.mem (sa.buffer + j))
        × IsTable nelem bucket d.rpli.heap
            (cells_after
              (sa.hashv % nelem)
              sa.hashv
              (get_slot_entry c.rpli_slot c.rpli.counters.next_free)
              cells)
            (get_slot_entry c.rpli_slot c.rpli.counters.next_free ∷ reg)
    unfolding propose
    propose-replayed =
        let (v, l, g, done, at, target, round, place, type, payload, table) =
          write_request-replayed nelem bucket c.rpli_slot cells reg (rpli_writer c) pure_args t u
            few fits inst apart (inl refl) fuel enough c.quorum i ctx peer lr region in_step remote
            image delivered clean no_canary ks looks in
        let own : (c.nid == c.nid) ≡ true = ground arith in
        (
          after_rpli c v,
          map post_for c.quorum,
          l,
          g,
          rw (owner, own, hasht, done) refl,
          at,
          target,
          round,
          place,
          type,
          payload,
          table,
        )
