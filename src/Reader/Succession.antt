-- ===== src/Reader/Succession.antt =====
-- Messages of a replicator that follow one another in the region of a replayer, up to the end of the log:
-- what one round leaves is what the next message is delivered to.
use scot.Base.{
  ℕ, ◌+◌, ◌^◌, ◌≡◌, ◌≢◌, ◌<◌, ◌≤◌, ◌⊎◌, ◌∙◌, refl, ap, inl, inr, none, some, true, List, [], ◌∷◌,
  map, ◌==◌, if◌then◌else◌, arith, Bool-cases,
}
use scot.Entry.{SlotEntry}
use scot.Memory.{Mem, store8}
use scot.Memory.Laws.{store8_ne}
use scot.Log.{
  Log, aligned_addr, sizeof_aligned_log, next_message, write_local_log, scot_logentry_canary,
  scot_align_counts, scot_msgtype_ack, scot_msgtype_pure, scot_msgtype_none,
}
use scot.Log.Index.{next_message-place}
use scot.Log.Write.{IsRequest, write_local_log-IsMessage}
use scot.Log.Deliver.{IsDelivery, Looks}
use scot.Reader.{replayer_round}
use scot.Reader.Replay.{replayer_round-left_by}
use scot.Reader.Stream.{rounds, ack_hashes, next_inst, same_place}
use scot.Reader.Worker.{replayer_worker, pause_loop}

-- How a message comes to the replayer: the signals that its round reads, the numbers of bytes that had
-- arrived at its looks, and the memory by that number.
pub record Way : Type 0 where
  pub signals : List ℕ
  pub ks : List ℕ
  pub image : ℕ → Mem

abbrev pub place : Log → ℕ
place l = aligned_addr l.log l.next_free

-- What a round leaves: the whole message, with its type and its canary cleared.
abbrev pub leaves : Log → (sz : ℕ) → (ℕ → Mem) → Mem
leaves lr sz image =
    store8 (store8 (image (9 + sz)) (place lr + 8 + sz) 0) (place lr + 7) scot_msgtype_none

-- One message that the writer's log `lw` writes into `m`, and that is delivered to `remote`.
pub record Arrives (lw lr : Log) (m remote : Mem) (r : SlotEntry) (way : Way) : Type 0 where
  pub fits : IsRequest r
  pub small : r.buffer_sz < 65532
  pub apart : (r.buffer + r.buffer_sz ≤ place lw) ⊎ (place lw + 9 + r.buffer_sz ≤ r.buffer)
  pub type : (r.msg ≡ scot_msgtype_pure) ⊎ (r.msg ≡ scot_msgtype_ack)
  pub room : lw.next_free < (next_message lw r.buffer_sz).next_free
  pub delivery :
      IsDelivery (write_local_log lw m r).1 remote (place lw) (place lr) (9 + r.buffer_sz) way.image
  pub seen : Looks (9 + r.buffer_sz) way.ks
  pub passes : pause_loop way.signals ≡ true

abbrev pub Succession : (lw lr : Log) → (m remote : Mem) → List (SlotEntry × Way) → Type 0
Succession lw lr m remote [] = Unit
Succession lw lr m remote ((r, way) ∷ ms) =
    Arrives lw lr m remote r way
    × Succession (next_message lw r.buffer_sz) (next_message lr r.buffer_sz)
        (write_local_log lw m r).1 (leaves lr r.buffer_sz way.image) ms

-- The memory after all rounds.
abbrev pub after_all : Log → Mem → List (SlotEntry × Way) → Mem
after_all lr remote [] = remote
after_all lr remote ((r, way) ∷ ms) =
    after_all (next_message lr r.buffer_sz) (leaves lr r.buffer_sz way.image) ms

-- Each round returns with the memory that the next message comes to, and in the end the payload of each
-- message is in place: the bytes at `buffer` when it was written.
abbrev pub Replays : (lw lr : Log) → (m final : Mem) → List (SlotEntry × Way) → Type 0
Replays lw lr m final [] = Unit
Replays lw lr m final ((r, way) ∷ ms) =
    (replayer_round lr (map way.image way.ks)
      ≡ some (
        if r.msg == scot_msgtype_ack then some r.hashv else none,
        next_message lr r.buffer_sz,
        leaves lr r.buffer_sz way.image,
      ))
    × ((i : ℕ) → i < r.buffer_sz → final (place lr + 8 + i) ≡ m (r.buffer + i))
    × Replays (next_message lw r.buffer_sz) (next_message lr r.buffer_sz) (write_local_log lw m r).1
        final ms

abbrev pub seen_of : SlotEntry × Way → SlotEntry × List ℕ × List Mem
seen_of (r, way) = (r, way.signals, map way.image way.ks)

-- The region from a place on is clear.
abbrev pub IsClearFrom : Mem → Log → Type 0
IsClearFrom m l = (a : ℕ) → place l ≤ a → a < l.log + sizeof_aligned_log → m a ≡ 0

module _ (lw lr : Log) (m remote : Mem) (r : SlotEntry) (way : Way)
    (in_step : lr.next_free ≡ lw.next_free) (lt : lw.next_free < scot_align_counts)
    (a : Arrives lw lr m remote r way) where
  next_place :
      (place lr + 9 + r.buffer_sz ≤ place (next_message lr r.buffer_sz))
      × (place (next_message lr r.buffer_sz) < lr.log + sizeof_aligned_log)
      × ((next_message lw r.buffer_sz).next_free < scot_align_counts)
  next_place =
      let (behind, inside) = next_message-place lw r.buffer_sz lt a.small a.room in
      let same = same_place lw lr r.buffer_sz in_step in
      let base : (next_message lr r.buffer_sz).log ≡ lr.log = unfold next_message in refl in
      (omega arith, omega arith, inside)

  leaves_ne :
      (p : ℕ)
      → p ≢ place lr + 7
      → p ≢ place lr + 8 + r.buffer_sz
      → leaves lr r.buffer_sz way.image p ≡ way.image (9 + r.buffer_sz) p
  leaves_ne p type canary = store8_ne _ _ _ p type ∙ store8_ne _ _ _ p canary

  leaves_below : (p : ℕ) → p < place lr → leaves lr r.buffer_sz way.image p ≡ remote p
  leaves_below p below =
      leaves_ne p (λ e. omega arith) (λ e. omega arith)
      ∙ a.delivery.pending (9 + r.buffer_sz) p (omega arith) (inl below)

  leaves_behind :
      (p : ℕ)
      → place (next_message lr r.buffer_sz) ≤ p
      → leaves lr r.buffer_sz way.image p ≡ remote p
  leaves_behind p behind =
      let next = next_place.0 in
      leaves_ne p (λ e. omega arith) (λ e. omega arith)
      ∙ a.delivery.pending (9 + r.buffer_sz) p (omega arith) (inr (omega arith))

  leaves-IsClearFrom :
      IsClearFrom remote lr
      → IsClearFrom (leaves lr r.buffer_sz way.image) (next_message lr r.buffer_sz)
  leaves-IsClearFrom clear p le end =
      let next = next_place.0 in
      let base : (next_message lr r.buffer_sz).log ≡ lr.log = unfold next_message in refl in
      leaves_behind p le ∙ clear p (omega arith) (omega arith)

  leaves_payload :
      (inst : lw.instn < 2 ^ 8)
      → (i : ℕ) → i < r.buffer_sz
      → leaves lr r.buffer_sz way.image (place lr + 8 + i) ≡ m (r.buffer + i)
  leaves_payload inst i li =
      let e : place lr + 8 + i ≡ place lr + (8 + i) = omega arith in
      let f : place lw + (8 + i) ≡ place lw + 8 + i = omega arith in
      leaves_ne (place lr + 8 + i) (λ e. omega arith) (λ e. omega arith)
      ∙ ap (way.image (9 + r.buffer_sz)) e
      ∙ a.delivery.arrived (9 + r.buffer_sz) (8 + i) (omega arith) (omega arith)
      ∙ ap (write_local_log lw m r).1 f
      ∙ (write_local_log-IsMessage lw m r a.fits inst a.apart).payload i li

  round_lem :
      lw.instn < 2 ^ 8
      → IsClearFrom remote lr
      → replayer_round lr (map way.image way.ks)
        ≡ some (
          if r.msg == scot_msgtype_ack then some r.hashv else none,
          next_message lr r.buffer_sz,
          leaves lr r.buffer_sz way.image,
        )
  round_lem inst clear =
      let (next, end, inside) = next_place in
      let no_canary : remote (place lr + 8 + r.buffer_sz) ≢ scot_logentry_canary = λ e.
        (let z = clear (place lr + 8 + r.buffer_sz) (omega arith) (omega arith) in omega arith) in
      replayer_round-left_by lw lr m r a.fits inst a.apart in_step remote way.image a.delivery
        (clear (place lr + 7) (omega arith) (omega arith)) no_canary a.type way.ks a.seen

-- Later messages leave what lies below their place.
after_all_below :
    (lw lr : Log) (m remote : Mem) (ms : List (SlotEntry × Way))
    → lr.next_free ≡ lw.next_free
    → lw.next_free < scot_align_counts
    → Succession lw lr m remote ms
    → (p : ℕ) → p < place lr
    → after_all lr remote ms p ≡ remote p
after_all_below lw lr m remote [] in_step lt s p below = refl
after_all_below lw lr m remote ((r, way) ∷ ms) in_step lt (a, s) p below =
    let (next, end, inside) = next_place lw lr m remote r way in_step lt a in
    after_all_below (next_message lw r.buffer_sz) (next_message lr r.buffer_sz)
      (write_local_log lw m r).1 (leaves lr r.buffer_sz way.image) ms
      (same_place lw lr r.buffer_sz in_step) inside s p (omega arith)
    ∙ leaves_below lw lr m remote r way in_step lt a p below

pub Succession-Replays :
    (lw lr : Log) (m remote : Mem) (ms : List (SlotEntry × Way))
    → lr.next_free ≡ lw.next_free
    → lw.next_free < scot_align_counts
    → lw.instn < 2 ^ 8
    → IsClearFrom remote lr
    → Succession lw lr m remote ms
    → Replays lw lr m (after_all lr remote ms) ms
Succession-Replays lw lr m remote [] in_step lt inst clear s = tt
Succession-Replays lw lr m remote ((r, way) ∷ ms) in_step lt inst clear (a, s) =
    let (next, end, inside) = next_place lw lr m remote r way in_step lt a in
    let step' = same_place lw lr r.buffer_sz in_step in
    (
      round_lem lw lr m remote r way in_step lt a inst clear,
      λ i li.
          after_all_below (next_message lw r.buffer_sz) (next_message lr r.buffer_sz)
            (write_local_log lw m r).1 (leaves lr r.buffer_sz way.image) ms step' inside s
            (place lr + 8 + i) (omega arith)
          ∙ leaves_payload lw lr m remote r way in_step lt a inst i li,
      Succession-Replays (next_message lw r.buffer_sz) (next_message lr r.buffer_sz)
          (write_local_log lw m r).1 (leaves lr r.buffer_sz way.image) ms step' inside
          (next_inst lw r.buffer_sz) (leaves-IsClearFrom lw lr m remote r way in_step lt a clear) s,
    )

worker_lem :
    (lw lr : Log) (m remote final : Mem) (ms : List (SlotEntry × Way))
    → Succession lw lr m remote ms
    → Replays lw lr m final ms
    → replayer_worker lr (rounds (map seen_of ms)) ≡ ack_hashes (map seen_of ms)
unfolding replayer_worker
worker_lem lw lr m remote final [] s t = refl
worker_lem lw lr m remote final ((r, way) ∷ ms) (a, s) (round, _, t) =
    let rest =
      worker_lem (next_message lw r.buffer_sz) (next_message lr r.buffer_sz)
        (write_local_log lw m r).1 (leaves lr r.buffer_sz way.image) final ms s t in
    rw (a.passes, round)
      (elim (Bool-cases (r.msg == scot_msgtype_ack)) [
        | inl ack ↦ rw ack (ap (λ (hs : List ℕ). r.hashv ∷ hs) rest)
        | inr pure ↦ rw pure rest
      ])

-- Messages that follow one another. Let writer and reader stand at the same index in range, the instance
-- number of the writer fit a byte, and the region of the reader be clear from there on. Let each request be of type PURE or ACK and fit its types,
-- have less than 65532 bytes, in a buffer that does not overlap the place of its message, and leave
-- room for the message behind it in the log, so that the index does not go back to 0. Let each message be
-- delivered to the memory that the round before left, let a look of the reader come after its last byte has
-- arrived, and its signals let the loop of the replayer into the round. Then each round returns and leaves
-- that memory; the loop passes the hash values of the ACKs on to `release_wait`, in order; and in the end
-- the region holds the payloads of all messages.
pub replayer_worker-Succession :
    (lw lr : Log) (m remote : Mem) (ms : List (SlotEntry × Way))
    → lr.next_free ≡ lw.next_free
    → lw.next_free < scot_align_counts
    → lw.instn < 2 ^ 8
    → IsClearFrom remote lr
    → Succession lw lr m remote ms
    → (replayer_worker lr (rounds (map seen_of ms)) ≡ ack_hashes (map seen_of ms))
      × Replays lw lr m (after_all lr remote ms) ms
replayer_worker-Succession lw lr m remote ms in_step lt inst clear s =
    let replays = Succession-Replays lw lr m remote ms in_step lt inst clear s in
    (worker_lem lw lr m remote (after_all lr remote ms) ms s replays, replays)
