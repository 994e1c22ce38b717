-- ===== src/Reader/Stream.antt =====
-- A stream of messages from a replicator to the replayer of a peer.
use scot.Base.{
  ℕ, ◌+◌, ◌^◌, ◌≡◌, ◌≢◌, ◌<◌, ◌≤◌, ◌⊎◌, refl, true, List, [], ◌∷◌, map, ◌==◌, if◌then◌else◌, arith,
  Bool-cases, inl, inr, ap,
}
use scot.Entry.{SlotEntry}
use scot.Memory.{Mem}
use scot.Log.{
  Log, aligned_addr, next_message, write_local_log, scot_logentry_canary, scot_msgtype_ack,
  scot_msgtype_pure,
}
use scot.Log.Write.{IsRequest}
use scot.Log.Deliver.{IsDelivery, Looks}
use scot.Reader.Replay.{replayer_round-next}
use scot.Reader.Worker.{replayer_worker, pause_loop}

-- One message on its way: the writer's log `lw` writes the request `r`, and `looks` is what the reader's
-- log `lr` sees of its delivery.
pub record Sent (lw lr : Log) (r : SlotEntry) (looks : List Mem) : Type 0 where
  pub mem : Mem
  pub fits : IsRequest r
  pub apart :
      (r.buffer + r.buffer_sz ≤ aligned_addr lw.log lw.next_free)
      ⊎ (aligned_addr lw.log lw.next_free + 9 + r.buffer_sz ≤ r.buffer)
  pub remote : Mem
  pub image : ℕ → Mem
  pub delivery :
      IsDelivery
        (write_local_log lw mem r).1
        remote
        (aligned_addr lw.log lw.next_free)
        (aligned_addr lr.log lr.next_free)
        (9 + r.buffer_sz)
        image
  pub clean : remote (aligned_addr lr.log lr.next_free + 7) ≡ 0
  pub no_canary : remote (aligned_addr lr.log lr.next_free + 8 + r.buffer_sz) ≢ scot_logentry_canary
  pub type : (r.msg ≡ scot_msgtype_pure) ⊎ (r.msg ≡ scot_msgtype_ack)
  pub ks : List ℕ
  pub seen : Looks (9 + r.buffer_sz) ks
  pub looked : looks ≡ map image ks

-- Requests written one after another, each with what the reader's round sees: its signals and its looks.
abbrev pub Stream : Log → Log → List (SlotEntry × List ℕ × List Mem) → Type 0
Stream lw lr [] = Unit
Stream lw lr ((r, signals, looks) ∷ ms) =
    Sent lw lr r looks
    × (pause_loop signals ≡ true)
    × Stream (next_message lw r.buffer_sz) (next_message lr r.buffer_sz) ms

abbrev pub rounds : List (SlotEntry × List ℕ × List Mem) → List (List ℕ × List Mem)
rounds [] = []
rounds ((r, signals, looks) ∷ ms) = (signals, looks) ∷ rounds ms

-- The hash values of the requests of type ACK, in order.
abbrev pub ack_hashes : List (SlotEntry × List ℕ × List Mem) → List ℕ
ack_hashes [] = []
ack_hashes ((r, signals, looks) ∷ ms) =
    if r.msg == scot_msgtype_ack then r.hashv ∷ ack_hashes ms else ack_hashes ms

pub next_inst : (l : Log) (sz : ℕ) → (next_message l sz).instn < 2 ^ 8
unfolding next_message
next_inst l sz = omega arith

pub same_place :
    (lw lr : Log) (sz : ℕ)
    → lr.next_free ≡ lw.next_free
    → (next_message lr sz).next_free ≡ (next_message lw sz).next_free
unfolding next_message
same_place lw lr sz place = rw place

-- A stream of requests reaches the checker: for any sequence of requests of type PURE or ACK that one log
-- writes one after another, each delivered to the replayer's log under the conditions of a single
-- delivery, the replayer's loop, started at the writer's index and let through by its signals, takes each
-- message from its place in turn and calls `release_wait` with the hash values of the ACKs, in order.
pub replayer_worker-Stream :
    (lw lr : Log)
    → lr.next_free ≡ lw.next_free
    → lw.instn < 2 ^ 8
    → (ms : List (SlotEntry × List ℕ × List Mem)) → Stream lw lr ms
    → replayer_worker lr (rounds ms) ≡ ack_hashes ms
unfolding replayer_worker
replayer_worker-Stream lw lr place inst [] s = refl
replayer_worker-Stream lw lr place inst ((r, signals, looks) ∷ ms) (sent, passes, s) =
    let (g, round, t, c, payload, next) =
      replayer_round-next lw lr sent.mem r sent.fits inst sent.apart place sent.remote sent.image
        sent.delivery sent.clean sent.no_canary sent.type sent.ks sent.seen in
    let after : (next_message lr r.buffer_sz).next_free ≡ (next_message lw r.buffer_sz).next_free =
      same_place lw lr r.buffer_sz place in
    let rest =
      replayer_worker-Stream (next_message lw r.buffer_sz) (next_message lr r.buffer_sz) after
        (next_inst lw r.buffer_sz) ms s in
    rw (passes, sent.looked, round)
      (elim (Bool-cases (r.msg == scot_msgtype_ack)) [
        | inl ack ↦ rw ack (ap (λ (hs : List ℕ). r.hashv ∷ hs) rest)
        | inr pure ↦ rw pure rest
      ])
