-- ===== src/Log/Examples.antt =====
-- A writer whose region begins at 4096 and a reader whose region begins at 9000.
use scot.Base.{
  ℕ, ◌+◌, ◌-◌, ◌%◌, ◌&&◌, ◌≡◌, ◌<◌, ◌≤◌, ◌⊎◌, refl, inl, some, [], ◌∷◌, map, leb, ltb,
  if◌then◌else◌, arith,
}
use scot.Entry.{SlotEntry}
use scot.Memory.{Mem, load16, load32}
use scot.Log.{
  Log, scot_buffer_sz, scot_align_counts, get_next_aligned_idx, next_message, write_local_log,
  poll_next_local_log,
}
use scot.Log.Index.{next_message-wraps, get_next_aligned_idx-rounded, rounded_idx}
use scot.Log.Write.{IsRequest, write_local_log-bounds}
use scot.Log.Deliver.{IsDelivery, poll_next_local_log-delivered}

abbrev writer : Log
writer = record { next_free = 0; log = 4096; instn = 0 }

abbrev reader : Log
reader = record { next_free = 0; log = 9000; instn = 0 }

abbrev request : SlotEntry
request = record {
  next = 0;
  hashv = 7;
  ready = 1;
  blocked = 1;
  buffer = 100;
  buffer_sz = 5;
  key = 100;
  key_sz = 2;
  msg = 2;
}

abbrev bytes : Mem
bytes a = a % 251

abbrev zeros : Mem
zeros a = 0

abbrev sent : Mem
sent = (write_local_log writer bytes request).1

-- The reader's memory when `k` bytes have arrived.
abbrev image : ℕ → Mem
image k a = if leb 9016 a && ltb a (9016 + k) then sent (4112 + (a - 9016)) else 0

request-IsRequest : IsRequest request
request-IsRequest = record { hashv = omega arith; buffer_sz = omega arith; msg = omega arith }

image-IsDelivery : IsDelivery sent zeros 4112 9016 14 image
image-IsDelivery = record {
  arrived = λ k i le lt. ground arith;
  pending = λ k a le out. ground arith;
}

poll_next_local_log-delivered_example :
    (g : Mem) × (poll_next_local_log reader 2 (map image (3 ∷ 10 ∷ 14 ∷ []))
      ≡ some (next_message reader 5, g, 9016))
    × (load32 g 9016 ≡ 7)
    × (load16 g 9020 ≡ 5)
    × (g 9023 ≡ 2)
    × ((i : ℕ) → i < 5 → g (9024 + i) ≡ bytes (100 + i))
    × (g 9029 ≡ 0)
    × ((next_message reader 5).next_free ≡ (write_local_log writer bytes request).0.next_free)
poll_next_local_log-delivered_example =
    poll_next_local_log-delivered writer reader bytes request request-IsRequest (omega arith)
      (inl (omega arith)) refl zeros image 2 image-IsDelivery refl (λ e. omega arith)
      (λ e. omega arith) (λ e. omega arith) (3 ∷ 10 ∷ 14 ∷ []) (omega arith, (omega arith, refl))

write_local_log-bounds_example :
    ((a : ℕ) → (a < 4112) ⊎ (4126 ≤ a) → sent a ≡ bytes a)
    × ((write_local_log writer bytes request).2 ≡ 4112)
    × (4112 ≤ 4112)
    × (4126 ≤ 4096 + scot_buffer_sz)
    × ((write_local_log writer bytes request).0.next_free < scot_align_counts)
write_local_log-bounds_example =
    write_local_log-bounds writer bytes request (omega arith) (omega arith)

next_message-wraps_example :
    (next_message writer 65533).next_free ≡ (if ltb 2 scot_align_counts then 2 else 0)
next_message-wraps_example =
    next_message-wraps writer 65533 (omega arith) (omega arith) (omega arith)

get_next_aligned_idx-rounded_example : get_next_aligned_idx 10 6 ≡ rounded_idx 10 6
get_next_aligned_idx-rounded_example = get_next_aligned_idx-rounded 10 6 (omega arith) (omega arith)
