-- ===== src/Core/Answer.antt =====
-- From a proposal on a node that does not own it, by the owner's receiver and replicator, back to the
-- replayer of the node.
use scot.Base.{
  ℕ, suc, ◌+◌, ◌^◌, ◌≡◌, ◌≢◌, ◌<◌, ◌≤◌, ◌⊎◌, refl, sym, ap, ◌∙◌, inr, some, List, map, length,
  get_elem?, arith, Option,
}
use scot.Entry.{SlotEntryArgs}
use scot.Memory.{Mem}
use scot.Lfmap.Chain.{Cell}
use scot.Lfmap.Find.{hash_table}
use scot.Log.{Log, aligned_addr, scot_logentry_canary}
use scot.Log.Write.{IsRequest}
use scot.Log.Deliver.{IsDelivery, Looks}
use scot.Slot.Entries.{get_slot_entry}
use scot.Replicator.Table.{IsTable}
use scot.Replicator.Add.{IsUnused}
use scot.Writer.{Writer, ConnContext, Post}
use scot.Writer.Replicate.{write_request}
use scot.Reader.{receiver_round, replayer_round}
use scot.Reader.Receive.{asked}
use scot.Reader.Replicate.{requested, sent, write_request-replayed}
use scot.Core.{Core, judge}
use scot.Core.Ask.{message, propose-received}

same_memory :
    {a b : Option SlotEntryArgs} {k l : Log} {g h : Mem}
    → ◌≡◌ {A = Option (Option SlotEntryArgs × Log × Mem)} (some (a, k, g)) (some (b, l, h))
    → g ≡ h
same_memory e = cc

-- Node `c` proposes what `owner` owns; `lr` is the owner's receiver, which has made its round.
module _ (c : Core) (sa : SlotEntryArgs) (owner : ℕ)
    (judged : judge c.uint_judge sa.hashv ≡ some owner) (other : owner ≢ c.nid)
    (few : c.chkr.writer.counters.next_free < 511) (hash_fits : sa.hashv < 2 ^ 32)
    (size_fits : sa.buffer_sz < 2 ^ 16) (inst : c.chkr.writer.log.instn < 2 ^ 8)
    (apart : (sa.buffer + sa.buffer_sz
        ≤ aligned_addr c.chkr.writer.log.log c.chkr.writer.log.next_free)
      ⊎ (aligned_addr c.chkr.writer.log.log c.chkr.writer.log.next_free + 9 + sa.buffer_sz
          ≤ sa.buffer))
    (i : ℕ) (ctx : ConnContext) (peer : get_elem? c.quorum i ≡ some ctx) (named : ctx.nid ≡ owner)
    (lr : Log) (region : ctx.rcvr_addr ≡ lr.log)
    (in_step : lr.next_free ≡ c.chkr.writer.log.next_free) (remote : Mem) (image : ℕ → Mem)
    (delivered : IsDelivery
      (message c sa owner judged other few)
      remote
      (aligned_addr c.chkr.writer.log.log c.chkr.writer.log.next_free)
      (aligned_addr lr.log lr.next_free)
      (9 + sa.buffer_sz)
      image)
    (clean : remote (aligned_addr lr.log lr.next_free + 7) ≡ 0)
    (no_canary : remote (aligned_addr lr.log lr.next_free + 8 + sa.buffer_sz)
      ≢ scot_logentry_canary)
    (ks : List ℕ) (looks : Looks (9 + sa.buffer_sz) ks) where
  abbrev at : ℕ
  at = aligned_addr lr.log lr.next_free

  abbrev pub to_replicate : SlotEntryArgs
  to_replicate = asked sa.hashv (at + 8) sa.buffer_sz

  -- The replicator of the owner, whose memory is the one that the receiver left.
  module _ (l : Log) (o : Writer)
      (round : receiver_round lr (map image ks) ≡ some (some to_replicate, l, o.mem))
      (nelem bucket slot : ℕ) (cells : ℕ → List Cell) (reg : List ℕ)
      (t : IsTable nelem bucket o.heap cells reg)
      (u : IsUnused nelem bucket reg (get_slot_entry slot o.counters.next_free))
      (few_o : o.counters.next_free < 511) (inst_o : o.log.instn < 2 ^ 8)
      (apart_o : (at + 8 + sa.buffer_sz ≤ aligned_addr o.log.log o.log.next_free)
        ⊎ (aligned_addr o.log.log o.log.next_free + 9 + sa.buffer_sz ≤ at + 8)) where
    abbrev pub answer : ConnContext → Post
    answer = sent nelem bucket slot cells reg o to_replicate t u few_o

    payload_kept : (j : ℕ) → j < sa.buffer_sz → o.mem (at + 8 + j) ≡ c.mem (sa.buffer + j)
    payload_kept j lt =
        let (d, posts, post, g, _, _, _, _, _, _, round', payload, _) =
          propose-received c sa owner judged other few hash_fits size_fits inst apart i ctx peer
            named lr region in_step remote image delivered clean no_canary ks looks 0 in
        let same = same_memory (sym round ∙ round') in
        ap (λ (m : Mem). m (at + 8 + j)) same ∙ payload j lt

    module _ (fuel : ℕ) (enough : length reg < fuel) (quorum : List ConnContext) (p : ℕ)
        (back : ConnContext) (peer_back : get_elem? quorum p ≡ some back) (lp : Log)
        (region_back : back.rply_addr ≡ lp.log) (in_step_back : lp.next_free ≡ o.log.next_free)
        (remote_back : Mem) (image_back : ℕ → Mem)
        (delivered_back : IsDelivery
          (answer back).local
          remote_back
          (answer back).header
          (answer back).target
          (answer back).size
          image_back)
        (clean_back : remote_back (aligned_addr lp.log lp.next_free + 7) ≡ 0)
        (no_canary_back : remote_back (aligned_addr lp.log lp.next_free + 8 + sa.buffer_sz)
          ≢ scot_logentry_canary)
        (seen : List ℕ) (looks_back : Looks (9 + sa.buffer_sz) seen) where
      -- Take a proposal under the conditions of `propose-received`, the round of the owner's receiver
      -- that it leads to, and the owner's replicator with the memory of that round, under the conditions
      -- of `write_request`. Then `write_request` on what the receiver asks for returns; its posts hold
      -- one for each peer, which goes to the very place where the peer's replayer for the owner polls if
      -- that reads the region that the owner writes for it and stands at the index of the owner's
      -- log. Once that is delivered, where no stale type or canary lies there, a round of the replayer
      -- returns; what it passes on to `release_wait` of the checker is the hash value of the proposal, and
      -- the bytes that it leaves in place are those of the proposal in the memory of the node that made it.
      pub propose-answered :
          (v : Writer) × (posts : List Post) × (m : Log) × (g : Mem) × (write_request slot
              (hash_table nelem bucket)
              (suc fuel)
              quorum
              o
              to_replicate
            ≡ some (v, posts))
          × (get_elem? posts p ≡ some (answer back))
          × ((answer back).target ≡ aligned_addr lp.log lp.next_free)
          × (replayer_round lp (map image_back seen) ≡ some (some sa.hashv, m, g))
          × (m.next_free ≡ v.log.next_free)
          × ((j : ℕ)
              → j < sa.buffer_sz
              → g (aligned_addr lp.log lp.next_free + 8 + j) ≡ c.mem (sa.buffer + j))
      propose-answered =
          let fits : IsRequest (requested nelem bucket slot cells reg o to_replicate t u few_o) =
            record { hashv = hash_fits; buffer_sz = size_fits; msg = omega arith } in
          let (v, m, g, done, there, target, released, place, _, payload, _) =
            write_request-replayed nelem bucket slot cells reg o to_replicate t u few_o fits inst_o
              apart_o (inr refl) fuel enough quorum p back peer_back lp region_back in_step_back
              remote_back image_back delivered_back clean_back no_canary_back seen looks_back in
          (
            v,
            map answer quorum,
            m,
            g,
            done,
            there,
            target,
            released,
            place,
            λ j lt. payload j lt ∙ payload_kept j lt,
          )
