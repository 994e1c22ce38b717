-- ===== src/Log.antt =====
-- src/scot-log.cc, src/includes/scot-log.hh and the log's constants in src/includes/scot-def.hh:
-- class ScotLog, a ring of messages in a memory region that a remote writer and a local reader share.
pub mod Index
pub mod Write
pub mod Deliver
pub mod Carry
mod Examples
use Prim.Native.Nat.{bit_and}
use scot.Base.{
  ℕ, zero, suc, ◌+◌, ◌-◌, ◌*◌, ◌/◌, ◌%◌, ◌^◌, Bool, Option, none, some, List, [], ◌∷◌, ◌==◌, ltb,
  u8, u16, u32, if◌then◌else◌, ◌>>=◌,
}
use scot.Entry.{SlotEntry}
use scot.Memory.{Mem, store8, store16, store32, load16, memcpy, memzero}

abbrev pub scot_buffer_sz : ℕ
scot_buffer_sz = 2147483647

abbrev pub scot_buffer_aligns : ℕ
scot_buffer_aligns = scot_buffer_sz / 2 ^ 5

abbrev pub scot_logheader_reserved : ℕ
scot_logheader_reserved = 4

abbrev pub scot_align_counts : ℕ
scot_align_counts = scot_buffer_aligns - scot_logheader_reserved

abbrev pub scot_logentry_canary : ℕ
scot_logentry_canary = 36

abbrev pub scot_msgtype_none : ℕ
scot_msgtype_none = 0

abbrev pub scot_msgtype_ack : ℕ
scot_msgtype_ack = 1

abbrev pub scot_msgtype_pure : ℕ
scot_msgtype_pure = 2

abbrev pub scot_msgtype_wait : ℕ
scot_msgtype_wait = 4

abbrev pub scot_msgtype_hdronly : ℕ
scot_msgtype_hdronly = 8

-- `log` is the address of the region.
pub record Log : Type 0 where
  pub next_free : ℕ
  pub log : ℕ
  pub instn : ℕ

-- struct ScotMessageHeader, packed: hashv, buf_sz, inst and msg at offsets 0, 4, 6 and 7.
abbrev pub sizeof_header : ℕ
sizeof_header = 8

-- sizeof(struct ScotAlignedLog)
abbrev pub sizeof_aligned_log : ℕ
sizeof_aligned_log = 4 * (scot_logheader_reserved + scot_align_counts)

-- The address of `aligned[idx]`.
abbrev pub aligned_addr : ℕ → ℕ → ℕ
aligned_addr log idx = log + 4 * (scot_logheader_reserved + idx)

-- The constructors.
unfoldable pub scot_log : ℕ → Mem → Log × Mem
scot_log addr m =
    (record { next_free = 0; log = addr; instn = 0 }, memzero m addr sizeof_aligned_log)

-- `__get_next_aligned_idx`: `buf_sz` is a uint16_t, so the addition wraps.
unfoldable pub get_next_aligned_idx : ℕ → ℕ → ℕ
get_next_aligned_idx cur_align buf_sz =
    let rounded = if buf_sz % 4 == 0 then buf_sz else u16 (buf_sz + 4) in
    let next_align = u32 (cur_align + rounded / 4) in
    if ltb (scot_align_counts - 1) next_align then 0 else next_align

-- The header of `write_local_log`.
unfoldable pub write_header : Mem → ℕ → SlotEntry → ℕ → Mem
write_header m header request instn =
    store8
      (store8 (store16 (store32 m header request.hashv) (header + 4) request.buffer_sz) (header + 6)
        instn)
      (header + 7) request.msg

-- The state of the log after a message of `buf_sz` bytes, in both `write_local_log` and
-- `poll_next_local_log`; the sum is passed as a uint16_t.
unfoldable pub next_message : Log → ℕ → Log
next_message l buf_sz = record l {
  next_free = get_next_aligned_idx (u32 (l.next_free + 2)) (u16 (buf_sz + 1));
  instn = u8 (l.instn + 1);
}

-- `write_local_log`, with the memory after it and the address of the header that it returns.
unfoldable pub write_local_log : Log → Mem → SlotEntry → Log × Mem × ℕ
write_local_log l m request =
    let header = aligned_addr l.log l.next_free in
    let payload = header + sizeof_header in
    let g =
      memcpy (write_header m header request l.instn) payload request.buffer request.buffer_sz in
    (
      next_message l request.buffer_sz,
      store8 g (payload + request.buffer_sz) scot_logentry_canary,
      header,
    )

-- The first wait of `poll_next_local_log`: each round reads the memory anew, and what the rounds see
-- is the list. The result begins with the memory in which the message was detected.
unfoldable pub detect_loop : ℕ → ℕ → List Mem → List Mem
detect_loop header msg_detect [] = []
detect_loop header msg_detect (m ∷ ms) =
    if bit_and (m (header + 7)) msg_detect == 0 then detect_loop header msg_detect ms else m ∷ ms

-- The second wait, for the canary.
unfoldable pub canary_loop : ℕ → List Mem → Option Mem
canary_loop cnry_pos [] = none
canary_loop cnry_pos (m ∷ ms) =
    if m cnry_pos == scot_logentry_canary then some m else canary_loop cnry_pos ms

-- What follows the waits.
unfoldable pub poll_end : Log → Mem → ℕ → Log × Mem × ℕ
poll_end l m header = (next_message l (load16 m (header + 4)), m, header)

-- The rest of `poll_next_local_log` once a message is detected.
unfoldable pub poll_detected : Log → ℕ → List Mem → Option (Log × Mem × ℕ)
poll_detected l header [] = none
poll_detected l header (m ∷ ms) =
    let cnry_pos = header + sizeof_header + load16 m (header + 4) in
    if m (header + 7) == scot_msgtype_hdronly
    then some (poll_end l m header)
    else canary_loop cnry_pos (m ∷ ms) >>= λ g. some (poll_end l (store8 g cnry_pos 0) header)

-- `poll_next_local_log`; `none` while it still waits after the last memory that the list shows.
unfoldable pub poll_next_local_log : Log → ℕ → List Mem → Option (Log × Mem × ℕ)
poll_next_local_log l msg_detect ms =
    let header = aligned_addr l.log l.next_free in
    poll_detected l header (detect_loop header msg_detect ms)

abbrev pub get_base : Log → ℕ
get_base l = l.log

abbrev pub get_next_aligned_addr : Log → ℕ
get_next_aligned_addr l = aligned_addr l.log l.next_free

abbrev pub get_instn : Log → ℕ
get_instn l = l.instn

abbrev pub get_next_free : Log → ℕ
get_next_free l = l.next_free
