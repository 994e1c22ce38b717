-- ===== src/Log/Deliver.antt =====
-- A message written by `write_local_log`, carried by RDMA, and read by `poll_next_local_log`.
use Prim.Native.Nat.{bit_and}
use scot.Base.{
  ℕ, ◌+◌, ◌^◌, ◌≡◌, ◌≢◌, ◌<◌, ◌≤◌, ◌⊎◌, refl, sym, ap, ◌∙◌, inl, inr, true, false, some, List, [],
  ◌∷◌, map, Bool-cases, ==_iff, ne_of, false_of_not, ltb→lt, ltb→le, ◌==◌, ltb, arith,
}
use scot.Entry.{SlotEntry}
use scot.Memory.{Mem, load16, load32, store8}
use scot.Memory.Laws.{store8_ne, store8_self}
use scot.Log.{
  Log, scot_logentry_canary, scot_msgtype_hdronly, aligned_addr, write_local_log, next_message,
  detect_loop, canary_loop, poll_end, poll_detected, poll_next_local_log,
}
use scot.Log.Write.{IsRequest, IsMessage, write_local_log-IsMessage}

-- The end of a poll that finds a payload of `sz` bytes and its canary.
poll_detected-payload :
    (l : Log) (header sz : ℕ) (m g : Mem) (ms : List Mem)
    → load16 m (header + 4) ≡ sz
    → (m (header + 7) == scot_msgtype_hdronly) ≡ false
    → canary_loop (header + 8 + sz) (m ∷ ms) ≡ some g
    → load16 (store8 g (header + 8 + sz) 0) (header + 4) ≡ sz
    → poll_detected l header (m ∷ ms)
      ≡ some (next_message l sz, store8 g (header + 8 + sz) 0, header)
unfolding poll_detected poll_end
poll_detected-payload l header sz m g ms size payload canary size' =
    rw (size, payload, canary, size')

-- What is relied on of an RDMA write of `n` bytes from `src` to `dst`: `image k` is the remote memory
-- when `k` bytes have arrived, and they arrive in the order of their addresses.
pub record IsDelivery (local remote : Mem) (src dst n : ℕ) (image : ℕ → Mem) : Type 0 where
  pub arrived : (k i : ℕ) → k ≤ n → i < k → image k (dst + i) ≡ local (src + i)
  pub pending : (k a : ℕ) → k ≤ n → (a < dst) ⊎ (dst + k ≤ a) → image k a ≡ remote a

-- The numbers of bytes that had arrived when a reader looked: at the last look all `n`.
abbrev pub Looks : ℕ → List ℕ → Type 0
Looks n [] = ⊥
Looks n (k ∷ []) = k ≡ n
Looks n (k ∷ j ∷ ks) = (k ≤ n) × Looks n (j ∷ ks)

Looks-le : (n k : ℕ) (ks : List ℕ) → Looks n (k ∷ ks) → k ≤ n
Looks-le n k [] l = omega arith
Looks-le n k (j ∷ ks) l = l.0

pub load16_moved :
    (m g : Mem) (p q : ℕ) → m p ≡ g q → m (p + 1) ≡ g (q + 1) → load16 m p ≡ load16 g q
unfolding load16
load16_moved m g p q e f = omega arith

load32_moved :
    (m g : Mem) (p q : ℕ)
    → m p ≡ g q
    → m (p + 1) ≡ g (q + 1)
    → m (p + 2) ≡ g (q + 2)
    → m (p + 2 + 1) ≡ g (q + 2 + 1)
    → load32 m p ≡ load32 g q
unfolding load32 load16
load32_moved m g p q a b c d = omega arith

module _ (local remote : Mem) (src dst n : ℕ) (image : ℕ → Mem)
    (d : IsDelivery local remote src dst n image) where
  module _ (c : ℕ) (at_end : c + 1 ≡ n) (there : local (src + c) ≡ scot_logentry_canary)
      (no_stale : remote (dst + c) ≢ scot_logentry_canary) where
    canary_loop-Looks :
        (ks : List ℕ) → Looks n ks → canary_loop (dst + c) (map image ks) ≡ some (image n)
    unfolding canary_loop
    canary_loop-Looks [] l = absurd l
    canary_loop-Looks (k ∷ []) l =
        let seen : (image k (dst + c) == scot_logentry_canary) ≡ true =
          (==_iff _ _).1 (d.arrived k c (omega arith) (omega arith) ∙ there) in
        rw seen (ap (λ (x : ℕ). some (image x)) l)
    canary_loop-Looks (k ∷ j ∷ ks) l = elim (Bool-cases (k == n)) [
      | inl all ↦
          let e = (==_iff k n).0 all in
          let seen : (image k (dst + c) == scot_logentry_canary) ≡ true =
            (==_iff _ _).1 (d.arrived k c l.0 (omega arith) ∙ there) in
          rw seen (ap (λ (x : ℕ). some (image x)) e)
      | inr part ↦
          let ne = ne_of k n part in
          let same = d.pending k (dst + c) l.0 (inr (omega arith)) in
          let unseen : (image k (dst + c) == scot_logentry_canary) ≡ false = ground arith in
          rw unseen (canary_loop-Looks (j ∷ ks) l.1)
    ]

  module _ (detect : ℕ) (whole : 8 ≤ n) (no_stale : bit_and (remote (dst + 7)) detect ≡ 0)
      (wanted : bit_and (local (src + 7)) detect ≢ 0) where
    early : (k : ℕ) → k ≤ n → k < 8 → (bit_and (image k (dst + 7)) detect == 0) ≡ true
    early k le lt =
        (==_iff _ _).1 (
          ap (λ (x : ℕ). bit_and x detect) (d.pending k (dst + 7) le (inr (omega arith)))
          ∙ no_stale)

    late : (k : ℕ) → k ≤ n → 8 ≤ k → (bit_and (image k (dst + 7)) detect == 0) ≡ false
    late k le ge = false_of_not _ (λ e. wanted (
        ap (λ (x : ℕ). bit_and x detect) (sym (d.arrived k 7 le (omega arith))) ∙ (==_iff _ _).0 e))

    detect_loop-Looks :
        (ks : List ℕ)
        → Looks n ks
        → (k : ℕ) × (js : List ℕ) × (detect_loop dst detect (map image ks) ≡ map image (k ∷ js))
          × (8 ≤ k)
          × Looks n (k ∷ js)
    unfolding detect_loop
    detect_loop-Looks [] l = absurd l
    detect_loop-Looks (k ∷ []) l = (k, [], rw (late k (omega arith) (omega arith)), omega arith, l)
    detect_loop-Looks (k ∷ j ∷ ks) l = elim (Bool-cases (ltb k 8)) [
      | inl few ↦
          let (k', js, e, ge, l') = detect_loop-Looks (j ∷ ks) l.1 in
          (k', js, rw (early k l.0 (ltb→lt k 8 few)) e, ge, l')
      | inr most ↦ (k, j ∷ ks, rw (late k l.0 (ltb→le k 8 most)), ltb→le k 8 most, l)
    ]

module _ (lw lr : Log) (m : Mem) (r : SlotEntry) (fits : IsRequest r) (inst : lw.instn < 2 ^ 8)
    (apart : (r.buffer + r.buffer_sz ≤ aligned_addr lw.log lw.next_free)
      ⊎ (aligned_addr lw.log lw.next_free + 9 + r.buffer_sz ≤ r.buffer))
    (in_step : lr.next_free ≡ lw.next_free) (remote : Mem) (image : ℕ → Mem) (detect : ℕ) where
  abbrev local : Mem
  local = (write_local_log lw m r).1

  abbrev src : ℕ
  src = aligned_addr lw.log lw.next_free

  abbrev dst : ℕ
  dst = aligned_addr lr.log lr.next_free

  message : IsMessage local src r lw.instn m
  message = write_local_log-IsMessage lw m r fits inst apart

  next_same : (next_message lr r.buffer_sz).next_free ≡ (write_local_log lw m r).0.next_free
  unfolding next_message write_local_log
  next_same = rw in_step

  module _ (n : ℕ) (image_ok : IsDelivery local remote src dst n image) where
    byte : (k i a b : ℕ) → k ≤ n → i < k → a ≡ dst + i → b ≡ src + i → image k a ≡ local b
    byte k i a b le lt ea eb = ap (image k) ea ∙ image_ok.arrived k i le lt ∙ ap local (sym eb)

    size_seen : (k : ℕ) → k ≤ n → 8 ≤ k → load16 (image k) (dst + 4) ≡ r.buffer_sz
    size_seen k le ge =
        load16_moved (image k) local (dst + 4) (src + 4) (byte k 4 _ _ le (omega arith) refl refl)
          (byte k 5 _ _ le (omega arith) (omega arith) (omega arith))
        ∙ message.buf_sz

    type_seen : (k : ℕ) → k ≤ n → 8 ≤ k → image k (dst + 7) ≡ r.msg
    type_seen k le ge = byte k 7 _ _ le (omega arith) refl refl ∙ message.msg

    hash_seen : (k : ℕ) → k ≤ n → 8 ≤ k → load32 (image k) dst ≡ r.hashv
    hash_seen k le ge =
        load32_moved (image k) local dst src
          (byte k 0 _ _ le (omega arith) (omega arith) (omega arith))
          (byte k 1 _ _ le (omega arith) refl refl) (byte k 2 _ _ le (omega arith) refl refl)
          (byte k 3 _ _ le (omega arith) (omega arith) (omega arith))
        ∙ message.hashv

    -- Clearing a byte behind the header leaves what the header says.
    cleared_size :
        (c : ℕ) → dst + 8 ≤ c → load16 (store8 (image n) c 0) (dst + 4) ≡ load16 (image n) (dst + 4)
    cleared_size c h =
        load16_moved _ (image n) _ _ (store8_ne _ c 0 _ (omega arith))
          (store8_ne _ c 0 _ (omega arith))

    cleared_hash : (c : ℕ) → dst + 8 ≤ c → load32 (store8 (image n) c 0) dst ≡ load32 (image n) dst
    cleared_hash c h =
        load32_moved _ (image n) _ _ (store8_ne _ c 0 _ (omega arith))
          (store8_ne _ c 0 _ (omega arith)) (store8_ne _ c 0 _ (omega arith))
          (store8_ne _ c 0 _ (omega arith))

  -- What the poll leaves: the image of the whole message with its canary cleared.
  abbrev pub polled : Mem
  polled = store8 (image (9 + r.buffer_sz)) (dst + 8 + r.buffer_sz) 0

  pub poll_next_local_log-polled :
      IsDelivery local remote src dst (9 + r.buffer_sz) image
      → bit_and (remote (dst + 7)) detect ≡ 0
      → bit_and r.msg detect ≢ 0
      → r.msg ≢ scot_msgtype_hdronly
      → remote (dst + 8 + r.buffer_sz) ≢ scot_logentry_canary
      → (ks : List ℕ) → Looks (9 + r.buffer_sz) ks
      → poll_next_local_log lr detect (map image ks)
        ≡ some (next_message lr r.buffer_sz, polled, dst)
  unfolding poll_next_local_log
  poll_next_local_log-polled d stale_type wanted no_hdr stale_canary ks l =
      let n = 9 + r.buffer_sz in
      let local_type = message.msg in
      let wanted' : bit_and (local (src + 7)) detect ≢ 0 =
        λ e. wanted (ap (λ (x : ℕ). bit_and x detect) (sym local_type) ∙ e) in
      let (k, js, e, ge, l') =
        detect_loop-Looks local remote src dst n image d detect (omega arith) stale_type wanted' ks
          l in
      let le = Looks-le n k js l' in
      let c = dst + 8 + r.buffer_sz in
      let payload_type : (image k (dst + 7) == scot_msgtype_hdronly) ≡ false =
        false_of_not _ (λ t. no_hdr (sym (type_seen n d k le ge) ∙ (==_iff _ _).0 t)) in
      let canary_at : dst + 8 + r.buffer_sz ≡ dst + (8 + r.buffer_sz) = omega arith in
      let canary_there : local (src + (8 + r.buffer_sz)) ≡ scot_logentry_canary =
        ap local (omega arith) ∙ message.canary in
      let canary_stale : remote (dst + (8 + r.buffer_sz)) ≢ scot_logentry_canary =
        λ t. stale_canary (ap remote canary_at ∙ t) in
      let canary =
        canary_loop-Looks local remote src dst n image d (8 + r.buffer_sz) (omega arith)
          canary_there canary_stale (k ∷ js) l' in
      let size : load16 polled (dst + 4) ≡ r.buffer_sz =
        cleared_size n d c (omega arith) ∙ size_seen n d n (omega arith) (omega arith) in
      rw e (
        poll_detected-payload lr dst r.buffer_sz (image k) (image n) (map image js)
          (size_seen n d k le ge) payload_type
          (ap (λ (x : ℕ). canary_loop x (map image (k ∷ js))) canary_at ∙ canary) size)

  -- A message with a payload: however the reader's looks fall between the arrivals of its bytes, the
  -- poll returns, at the reader's next header, with header and payload of the request in memory and the
  -- canary cleared, and the reader's next index is the writer's. Writer and reader stand at the same
  -- index, the request fits its types and its buffer does not overlap the message, its type is awaited
  -- and not HDRONLY, and no stale type or canary lies where the new ones arrive.
  pub poll_next_local_log-delivered :
      IsDelivery local remote src dst (9 + r.buffer_sz) image
      → bit_and (remote (dst + 7)) detect ≡ 0
      → bit_and r.msg detect ≢ 0
      → r.msg ≢ scot_msgtype_hdronly
      → remote (dst + 8 + r.buffer_sz) ≢ scot_logentry_canary
      → (ks : List ℕ) → Looks (9 + r.buffer_sz) ks
      → (g : Mem) × (poll_next_local_log lr detect (map image ks)
          ≡ some (next_message lr r.buffer_sz, g, dst))
        × (load32 g dst ≡ r.hashv)
        × (load16 g (dst + 4) ≡ r.buffer_sz)
        × (g (dst + 7) ≡ r.msg)
        × ((i : ℕ) → i < r.buffer_sz → g (dst + 8 + i) ≡ m (r.buffer + i))
        × (g (dst + 8 + r.buffer_sz) ≡ 0)
        × ((next_message lr r.buffer_sz).next_free ≡ (write_local_log lw m r).0.next_free)
  poll_next_local_log-delivered d stale_type wanted no_hdr stale_canary ks l =
      let n = 9 + r.buffer_sz in
      let c = dst + 8 + r.buffer_sz in
      let g = store8 (image n) c 0 in
      let size : load16 g (dst + 4) ≡ r.buffer_sz =
        cleared_size n d c (omega arith) ∙ size_seen n d n (omega arith) (omega arith) in
      (
        g,
        poll_next_local_log-polled d stale_type wanted no_hdr stale_canary ks l,
        cleared_hash n d c (omega arith) ∙ hash_seen n d n (omega arith) (omega arith),
        size,
        store8_ne _ c 0 _ (omega arith) ∙ type_seen n d n (omega arith) (omega arith),
        λ i lt.
            store8_ne _ c 0 _ (omega arith)
            ∙ byte n d n (8 + i) _ (src + 8 + i) (omega arith) (omega arith) (omega arith)
                (omega arith)
            ∙ message.payload i lt,
        store8_self (image n) c 0,
        next_same,
      )
