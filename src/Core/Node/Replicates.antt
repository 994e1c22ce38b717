-- ===== src/Core/Node/Replicates.antt =====
-- Any number of proposals of a node's own, from `propose` to the replayer of a linked node.
use scot.Base.{
  ℕ, ◌≡◌, ◌==◌, true, ==_iff, refl, sym, ◌∙◌, some, List, All, All-get_elem?, [], ◌∷◌, map, map-map,
  length, arith,
}
use scot.Entry.{SlotEntry, SlotEntryArgs}
use scot.Memory.{Mem}
use scot.Log.{Log}
use scot.Writer.{Post}
use scot.Writer.Sequence.{IsLaidOut}
use scot.Conn.Calls.{Hartebeest}
use scot.Reader.Stream.{rounds, ack_hashes}
use scot.Reader.Succession.{
  Way, Succession, Replays, after_all, seen_of, IsClearFrom, replayer_worker-Succession,
}
use scot.Reader.Worker.{replayer_worker}
use scot.Core.{Core, after_rpli, Judge, Rule}
use scot.Core.Serving.{propose_all, pure_entry}
use scot.Core.Own.{Posted, propose_all-own, sent_posts-Posted}
use scot.Core.Node.{Space, scot_ht_size}
use scot.Core.Node.Linked.{Joined, Reaches}
use scot.Core.Node.First.{with_rule}
use scot.Core.Node.Serves.{node-IsServing}

-- The messages of some proposals, each with its way to the replayer.
abbrev pub messages : List (SlotEntryArgs × Way) → List (SlotEntry × Way)
messages = map (λ (x : SlotEntryArgs × Way). (pure_entry x.0, x.1))

abbrev pub proposals : List (SlotEntryArgs × Way) → List SlotEntryArgs
proposals = map (λ (x : SlotEntryArgs × Way). x.0)

no_acks : (sas : List (SlotEntryArgs × Way)) → ack_hashes (map seen_of (messages sas)) ≡ []
no_acks [] = refl
no_acks (x ∷ sas) = no_acks sas

requests_same :
    (sas : List (SlotEntryArgs × Way))
    → map pure_entry (proposals sas) ≡ map (λ (x : SlotEntry × Way). x.0) (messages sas)
requests_same sas = map-map _ _ sas ∙ sym (map-map _ _ sas)

module _ {n : ℕ} {ha hb : Hartebeest} {spa spb : Space} {a b : ℕ} (ja : Joined n ha spa a)
    (jb : Joined n hb spb b) (r : Reaches ja.node jb.node a b) (j : Judge) (rule : Rule)
    (active : j.active_rule ≡ some rule)
    (laid : IsLaidOut scot_ht_size spa.bucket spa.rpli_slot) where
  abbrev core : Core
  core = with_rule ja.node j

  abbrev la : Log
  la = core.rpli.log

  abbrev lb : Log
  lb = r.rply.log

  abbrev remote : Mem
  remote = jb.node.core.mem

  peer_clear : IsClearFrom remote lb
  peer_clear p le lt =
      let ready =
        All-get_elem? _ jb.node.vec_rply r.rply_place r.rply jb.is_node.rply_ready r.rply_at in
      ready.2 p (omega arith) lt

  in_step : lb.next_free ≡ la.next_free
  in_step =
      (All-get_elem? _ jb.node.vec_rply r.rply_place r.rply jb.is_node.rply_ready r.rply_at).1
      ∙ sym ja.is_node.rpli_place

  own-All :
      (sas : List (SlotEntryArgs × Way))
      → All (λ (x : SlotEntryArgs × Way). rule x.0.hashv ≡ a) sas
      → All (λ (sa : SlotEntryArgs). (rule sa.hashv == core.nid) ≡ true) (proposals sas)
  own-All [] own = tt
  own-All (x ∷ sas) (e, own) = ((==_iff _ _).1 (e ∙ sym ja.is_node.own_nid), own-All sas own)

  -- Take two nodes of a cluster as both constructors leave and link them, an active rule by which the
  -- one owns all of some proposals, and its slots apart from its table. Let each proposal fit its types,
  -- have less than 65532 bytes, in a buffer that does not overlap the place of its message, and leave
  -- room for the message behind it in the log, so that the index does not go back to 0. Let each message be
  -- delivered to the memory that the round before left, let a look of the replayer come after its last byte
  -- has arrived, and its signals let the replayer through. Then the proposals, one after another,
  -- return. Among their posts, in the order of the proposals, is one of each message to the other node,
  -- to the place where the replayer of that node for the one looks next. All rounds of that replayer
  -- return and call no `release_wait`, and in the end the log of the other node holds the payloads of all
  -- proposals.
  pub node-replicates :
      (sas : List (SlotEntryArgs × Way))
      → All (λ (x : SlotEntryArgs × Way). rule x.0.hashv ≡ a) sas
      → Succession la lb core.mem remote (messages sas)
      → (d : Core) × (posts : List Post) × (propose_all 513 core (proposals sas) ≡ some (d, posts))
        × Posted posts b r.at (length core.quorum) la lb core.mem (messages sas)
        × (replayer_worker lb (rounds (map seen_of (messages sas))) ≡ [])
        × Replays la lb core.mem (after_all lb remote (messages sas)) (messages sas)
  node-replicates sas own s =
      let (w, e) =
        propose_all-own scot_ht_size spa.bucket rule 512 (omega arith) core (proposals sas)
          (node-IsServing ja j rule active laid) (own-All sas own) in
      let (hashes, replays) =
        replayer_worker-Succession la lb core.mem remote (messages sas) in_step
          (omega (arith, ja.is_node.rpli_place)) (omega (arith, ja.is_node.rpli_instn)) peer_clear
          s in
      (
        after_rpli core w,
        _,
        e,
        sent_posts-Posted core.quorum r.at r.ctx b r.ctx_at r.ctx_nid la lb core.mem (messages sas)
            r.rply_addr in_step [] _ r.at (rw (requests_same sas) refl) (omega arith),
        hashes ∙ no_acks sas,
        replays,
      )
