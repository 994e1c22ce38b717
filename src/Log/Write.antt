-- ===== src/Log/Write.antt =====
-- `write_local_log`: the message that it leaves in memory, and the bytes that it may touch.
use scot.Base.{ℕ, ◌+◌, ◌-◌, ◌^◌, ◌≡◌, ◌<◌, ◌≤◌, ◌⊎◌, refl, ap, ◌∙◌, inl, arith}
use scot.Entry.{SlotEntry}
use scot.Memory.{Mem, store16, store32, load16, load32}
use scot.Memory.Laws.{
  store8_self, store8_ne, load16-store16, store16_out, load32-store32, store32_out, memcpy_in,
  memcpy_out,
}
use scot.Log.{
  Log, scot_buffer_sz, scot_align_counts, scot_logentry_canary, aligned_addr, write_header,
  write_local_log, next_message,
}
use scot.Log.Index.{get_next_aligned_idx-lt}

-- The values of a request fit their C types.
pub record IsRequest (r : SlotEntry) : Type 0 where
  pub hashv : r.hashv < 2 ^ 32
  pub buffer_sz : r.buffer_sz < 2 ^ 16
  pub msg : r.msg < 2 ^ 8

-- The memory holds a message: header, payload (the bytes that `source` holds at `buffer`) and canary.
pub record IsMessage (m : Mem) (header : ℕ) (r : SlotEntry) (instn : ℕ) (source : Mem)
    : Type 0 where
  pub hashv : load32 m header ≡ r.hashv
  pub buf_sz : load16 m (header + 4) ≡ r.buffer_sz
  pub inst : m (header + 6) ≡ instn
  pub msg : m (header + 7) ≡ r.msg
  pub payload : (i : ℕ) → i < r.buffer_sz → m (header + 8 + i) ≡ source (r.buffer + i)
  pub canary : m (header + 8 + r.buffer_sz) ≡ scot_logentry_canary

-- Two memories that agree on some bytes agree on what is loaded from them.
pub load16_same : (m g : Mem) (p : ℕ) → m p ≡ g p → m (p + 1) ≡ g (p + 1) → load16 m p ≡ load16 g p
unfolding load16
load16_same m g p e f = omega arith

pub load32_same :
    (m g : Mem) (p : ℕ) → ((a : ℕ) → p ≤ a → a < p + 4 → m a ≡ g a) → load32 m p ≡ load32 g p
unfolding load32
load32_same m g p e = omega (
  arith,
  load16_same m g p (e p (omega arith) (omega arith)) (e (p + 1) (omega arith) (omega arith)),
  load16_same m g (p + 2) (e (p + 2) (omega arith) (omega arith))
      (e (p + 2 + 1) (omega arith) (omega arith)),
)

module _ (m : Mem) (header : ℕ) (r : SlotEntry) (instn : ℕ) where
  header_out : (a : ℕ) → (a < header) ⊎ (header + 8 ≤ a) → write_header m header r instn a ≡ m a
  unfolding write_header
  header_out a h =
      store8_ne _ (header + 7) _ a (omega arith)
      ∙ store8_ne _ (header + 6) _ a (omega arith)
      ∙ store16_out _ (header + 4) _ a (omega arith)
      ∙ store32_out m header _ a (omega arith)

  module _ (fits : IsRequest r) (inst : instn < 2 ^ 8) where
    header_hashv : load32 (write_header m header r instn) header ≡ r.hashv
    unfolding write_header
    header_hashv =
        load32_same _ (store32 m header r.hashv) header (λ a p q.
          store8_ne _ (header + 7) _ a (omega arith)
          ∙ store8_ne _ (header + 6) _ a (omega arith)
          ∙ store16_out _ (header + 4) _ a (omega arith))
        ∙ load32-store32 m header r.hashv fits.hashv

    header_buf_sz : load16 (write_header m header r instn) (header + 4) ≡ r.buffer_sz
    unfolding write_header
    header_buf_sz =
        load16_same _ (store16 (store32 m header r.hashv) (header + 4) r.buffer_sz) (header + 4)
          (store8_ne _ (header + 7) _ _ (omega arith) ∙ store8_ne _ (header + 6) _ _ (omega arith))
          (store8_ne _ (header + 7) _ _ (omega arith) ∙ store8_ne _ (header + 6) _ _ (omega arith))
        ∙ load16-store16 _ (header + 4) r.buffer_sz fits.buffer_sz

    header_inst : write_header m header r instn (header + 6) ≡ instn
    unfolding write_header
    header_inst =
        store8_ne _ (header + 7) _ _ (omega arith) ∙ store8_self _ (header + 6) instn ∙ omega arith

    header_msg : write_header m header r instn (header + 7) ≡ r.msg
    unfolding write_header
    header_msg = store8_self _ (header + 7) r.msg ∙ omega (arith, fits.msg)

module _ (l : Log) (m : Mem) (r : SlotEntry) where
  abbrev header : ℕ
  header = aligned_addr l.log l.next_free

  abbrev after : Mem
  after = (write_local_log l m r).1

  -- A byte that lies neither in the payload nor at the canary is as the header leaves it.
  beside :
      (a : ℕ)
      → (a < header + 8) ⊎ (header + 9 + r.buffer_sz ≤ a)
      → after a ≡ write_header m header r l.instn a
  unfolding write_local_log
  beside a h = store8_ne _ _ _ a (omega arith) ∙ memcpy_out _ _ _ _ a (omega arith)

  -- From a position in range, for a 16-bit size, `write_local_log` changes only the bytes of its message, which end inside the region of
  -- SCOT_BUFFER_SZ bytes also where they run past the end of `aligned`; the header that it returns lies
  -- behind the reserved words, and the log's next index is in range again.
  pub write_local_log-bounds :
      l.next_free < scot_align_counts
      → r.buffer_sz < 2 ^ 16
      → ((a : ℕ) → (a < header) ⊎ (header + 9 + r.buffer_sz ≤ a) → after a ≡ m a)
        × ((write_local_log l m r).2 ≡ header)
        × (l.log + 16 ≤ header)
        × (header + 9 + r.buffer_sz ≤ l.log + scot_buffer_sz)
        × ((write_local_log l m r).0.next_free < scot_align_counts)
  write_local_log-bounds h sz = (
    λ a out. beside a (omega arith) ∙ header_out m header r l.instn a (omega arith),
    unfold write_local_log in refl,
    omega arith,
    omega arith,
    unfold write_local_log next_message in get_next_aligned_idx-lt _ _,
  )

  module _ (fits : IsRequest r) (inst : l.instn < 2 ^ 8)
      (apart : (r.buffer + r.buffer_sz ≤ header) ⊎ (header + 9 + r.buffer_sz ≤ r.buffer)) where
    header_byte : (a : ℕ) → a < header + 8 → after a ≡ write_header m header r l.instn a
    header_byte a h = beside a (inl h)

    abbrev wrote : Mem
    wrote = write_header m header r l.instn

    payload_byte : (i : ℕ) → i < r.buffer_sz → after (header + 8 + i) ≡ m (r.buffer + i)
    unfolding write_local_log
    payload_byte i lt =
        let offset : r.buffer + (header + 8 + i - (header + 8)) ≡ r.buffer + i = omega arith in
        store8_ne _ _ _ (header + 8 + i) (omega arith)
        ∙ memcpy_in wrote (header + 8) r.buffer r.buffer_sz (header + 8 + i) (omega arith)
            (omega arith)
        ∙ ap wrote offset
        ∙ header_out m header r l.instn (r.buffer + i) (omega arith)

    -- If the request's values fit their types, and the bytes at `buffer` do not overlap the message, then
    -- after `write_local_log` the memory holds the message of the request at the writer's position.
    pub write_local_log-IsMessage : IsMessage after header r l.instn m
    write_local_log-IsMessage = record {
      hashv =
          load32_same after wrote header (λ a p q. header_byte a (omega arith))
          ∙ header_hashv m header r l.instn fits inst;
      buf_sz =
          load16_same after wrote (header + 4) (header_byte _ (omega arith))
            (header_byte _ (omega arith))
          ∙ header_buf_sz m header r l.instn fits inst;
      inst = header_byte _ (omega arith) ∙ header_inst m header r l.instn fits inst;
      msg = header_byte _ (omega arith) ∙ header_msg m header r l.instn fits inst;
      payload = payload_byte;
      canary = unfold write_local_log in store8_self _ _ scot_logentry_canary;
    }
