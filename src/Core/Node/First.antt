-- ===== src/Core/Node/First.antt =====
-- The first proposal of a node of a cluster, from `propose` to the replayer of a peer.
use scot.Base.{
  ℕ, ◌+◌, ◌-◌, ◌%◌, ◌^◌, ◌≡◌, ◌≢◌, ◌<◌, ◌≤◌, ◌⊎◌, refl, sym, ap, ◌∙◌, none, some, List, [],
  All-get_elem?, map, get_elem?, arith, subst,
}
use scot.Entry.{SlotEntry, SlotEntryArgs}
use scot.Memory.{Mem}
use scot.Log.{scot_logentry_canary, Log, aligned_addr, write_local_log, scot_msgtype_pure}
use scot.Log.Write.{IsRequest}
use scot.Log.Deliver.{IsDelivery, Looks}
use scot.Slot.{Counters}
use scot.Slot.Entries.{get_slot_entry}
use scot.Replicator.Table.{head_of}
use scot.Replicator.Add.{IsUnused}
use scot.Writer.{Post}
use scot.Reader.{replayer_round}
use scot.Conn.Calls.{Hartebeest}
use scot.Core.{Core, Judge, judge, propose}
use scot.Core.Propose.{propose-replayed}
use scot.Core.Node.{Node, Space, scot_ht_size}
use scot.Core.Node.Linked.{Joined, Reaches}

IsDelivery-eq :
    {local remote : Mem} {src src' dst dst' n n' : ℕ} {image : ℕ → Mem}
    → src ≡ src'
    → dst ≡ dst'
    → n ≡ n'
    → IsDelivery local remote src dst n image
    → IsDelivery local remote src' dst' n' image
IsDelivery-eq e f g d = rw (← e, ← f, ← g) d

-- The request of a proposal as the log reads it.
abbrev pub first_request : SlotEntryArgs → SlotEntry
first_request sa = record {
  next = 0;
  hashv = sa.hashv;
  ready = 1;
  blocked = 1;
  buffer = sa.buffer;
  buffer_sz = sa.buffer_sz;
  key = sa.key;
  key_sz = sa.key_sz;
  msg = scot_msgtype_pure;
}

-- The memory of a node after the message of its first proposal.
abbrev pub first_message : Node → SlotEntryArgs → Mem
first_message n sa = (write_local_log n.core.rpli.log n.core.mem (first_request sa)).1

abbrev pub with_rule : Node → Judge → Core
with_rule n j = record n.core { uint_judge = j }

module _ {n : ℕ} {ha hb : Hartebeest} {spa spb : Space} {a b : ℕ} (ja : Joined n ha spa a)
    (jb : Joined n hb spb b) (r : Reaches ja.node jb.node a b) (j : Judge)
    (sa : SlotEntryArgs) where
  -- The conditions on the first proposal and on its way to the peer.
  pub record IsFirst (image : ℕ → Mem) (ks : List ℕ) : Type 0 where
    pub owner : judge j sa.hashv ≡ some a
    pub hashv : sa.hashv < 2 ^ 32
    pub buffer_sz : sa.buffer_sz < 2 ^ 16
    pub slot_aligned : spa.rpli_slot % 4 ≡ 0
    pub slot_apart : (i : ℕ) → i < scot_ht_size → spa.rpli_slot ≢ head_of scot_ht_size spa.bucket i
    pub apart :
        (sa.buffer + sa.buffer_sz ≤ aligned_addr ja.node.core.rpli.log.log 0)
        ⊎ (aligned_addr ja.node.core.rpli.log.log 0 + 9 + sa.buffer_sz ≤ sa.buffer)
    pub delivered :
        IsDelivery
          (first_message ja.node sa)
          jb.node.core.mem
          (aligned_addr ja.node.core.rpli.log.log 0)
          (aligned_addr r.rply.log.log 0)
          (9 + sa.buffer_sz)
          image
    pub looks : Looks (9 + sa.buffer_sz) ks

  module _ (image : ℕ → Mem) (ks : List ℕ) (first : IsFirst image ks) where
    abbrev la : Log
    la = ja.node.core.rpli.log

    abbrev lb : Log
    lb = r.rply.log

    abbrev dst : ℕ
    dst = aligned_addr lb.log 0

    peer_place : lb.next_free ≡ 0
    peer_place =
        (All-get_elem? _ jb.node.vec_rply r.rply_place r.rply jb.is_node.rply_ready r.rply_at).1

    peer_clear : (p : ℕ) → dst ≤ p → p < dst + 65552 → jb.node.core.mem p ≡ 0
    peer_clear p le lt =
        let ready =
          All-get_elem? _ jb.node.vec_rply r.rply_place r.rply jb.is_node.rply_ready r.rply_at in
        ready.2 p (omega arith) (omega arith)

    slot_unused : IsUnused scot_ht_size spa.bucket [] spa.rpli_slot
    slot_unused = record { aligned = first.slot_aligned; unused = refl; apart = first.slot_apart }

    slot_eq :
        get_slot_entry ja.node.core.rpli_slot ja.node.core.rpli.counters.next_free ≡ spa.rpli_slot
    slot_eq =
        let e = ap (λ (x : Counters). x.next_free) ja.is_node.rpli_counters in
        omega (arith, ja.is_node.rpli_slot)

    src_eq : aligned_addr la.log la.next_free ≡ aligned_addr la.log 0
    src_eq = ap (aligned_addr la.log) ja.is_node.rpli_place

    dst_eq : aligned_addr lb.log lb.next_free ≡ dst
    dst_eq = ap (aligned_addr lb.log) peer_place

    arrives :
        IsDelivery
          (first_message ja.node sa)
          jb.node.core.mem
          (aligned_addr la.log la.next_free)
          (r.ctx.rply_addr + (aligned_addr la.log la.next_free - la.log))
          (8 + sa.buffer_sz + 1)
          image
    arrives =
        IsDelivery-eq (sym src_eq) (omega (arith, r.rply_addr, ja.is_node.rpli_place)) (omega arith)
          first.delivered

    no_canary : jb.node.core.mem (dst + 8 + sa.buffer_sz) ≢ scot_logentry_canary
    no_canary e =
        let z =
          peer_clear (dst + 8 + sa.buffer_sz) (omega arith) (omega (arith, first.buffer_sz)) in
        omega arith

    abbrev first_post : Post
    first_post = record {
      nid = r.ctx.nid;
      header = aligned_addr la.log la.next_free;
      target = r.ctx.rply_addr + (aligned_addr la.log la.next_free - la.log);
      size = 8 + sa.buffer_sz + 1;
      local = first_message ja.node sa;
    }

    -- Take two different nodes of a cluster as both constructors leave them and link them, and a rule by
    -- which the one owns the hash value of a proposal that fits its types, whose buffer does not overlap
    -- the place of the message, with slots that are aligned and apart from the table. Then `propose`
    -- returns; its posts hold one for the other node, at the very place where that node's replayer
    -- for this one polls; and once it is delivered, however the looks of the replayer fall between the
    -- arrivals of its bytes, a round of the replayer returns, releases no checker, leaves the bytes
    -- of the proposal in its log, and stands at the index of the proposing node.
    pub first-replayed :
        (d : Core) × (posts : List Post) × (post : Post) × (l : Log) × (g : Mem) × (propose 2
            (with_rule ja.node j)
            sa
          ≡ some (d, posts))
        × (get_elem? posts r.at ≡ some post)
        × (post.nid ≡ b)
        × (post.target ≡ dst)
        × (replayer_round lb (map image ks) ≡ some (none, l, g))
        × (l.next_free ≡ d.rpli.log.next_free)
        × ((x : ℕ) → x < sa.buffer_sz → g (dst + 8 + x) ≡ ja.node.core.mem (sa.buffer + x))
    first-replayed =
        let c = with_rule ja.node j in
        let own : judge j sa.hashv ≡ some c.nid =
          first.owner ∙ ap (λ (x : ℕ). some x) (sym ja.is_node.own_nid) in
        let few : c.rpli.counters.next_free < 511 =
          (let e = ap (λ (x : Counters). x.next_free) ja.is_node.rpli_counters in omega arith) in
        let fits : IsRequest (first_request sa) = record {
          hashv = first.hashv;
          buffer_sz = first.buffer_sz;
          msg = omega arith;
        } in
        let inst : la.instn < 2 ^ 8 = omega (arith, ja.is_node.rpli_instn) in
        let (d, posts, l, g, done, at, target, round, place, _, payload, _) =
          propose-replayed scot_ht_size spa.bucket (λ i. []) [] c sa ja.is_node.hasht
            ja.is_node.table (rw slot_eq slot_unused) few own fits inst (rw src_eq first.apart) 1
            (omega arith) r.at r.ctx r.ctx_at lb r.rply_addr
            (peer_place ∙ sym ja.is_node.rpli_place) jb.node.core.mem image arrives
            (rw dst_eq (peer_clear (dst + 7) (omega arith) (omega arith))) (rw dst_eq no_canary) ks
            first.looks in
        (
          d,
          posts,
          first_post,
          l,
          g,
          done,
          at,
          r.ctx_nid,
          target ∙ dst_eq,
          round,
          place,
          λ x lt.
              subst (λ (y : ℕ). g (y + 8 + x) ≡ ja.node.core.mem (sa.buffer + x)) dst_eq
                (payload x lt),
        )
