-- ===== src/Log/Index.antt =====
-- `__get_next_aligned_idx`: where the next message begins.
use scot.Base.{ℕ, ◌+◌, ◌*◌, ◌/◌, ◌^◌, ◌≡◌, ◌<◌, ◌≤◌, ltb, if◌then◌else◌, arith}
use scot.Log.{scot_align_counts, get_next_aligned_idx, Log, next_message}

-- Whatever the position and the size, the next index lies in `aligned`.
pub get_next_aligned_idx-lt : (cur sz : ℕ) → get_next_aligned_idx cur sz < scot_align_counts
unfolding get_next_aligned_idx
get_next_aligned_idx-lt cur sz = ground arith

-- The next index as it is meant: `sz` bytes rounded up to whole elements, and back to 0 at the end.
abbrev pub rounded_idx : ℕ → ℕ → ℕ
rounded_idx cur sz = if ltb (cur + (sz + 3) / 4) scot_align_counts then cur + (sz + 3) / 4 else 0

-- For positions below 2 ^ 31 and sizes up to 65532 `__get_next_aligned_idx` computes `rounded_idx`.
pub get_next_aligned_idx-rounded :
    (cur sz : ℕ) → cur < 2 ^ 31 → sz ≤ 65532 → get_next_aligned_idx cur sz ≡ rounded_idx cur sz
unfolding get_next_aligned_idx
get_next_aligned_idx-rounded cur sz hc hs = ground arith

-- From a position in range, for a payload of 65532 to 65535 bytes, the 16-bit sum wraps, and the next
-- message begins where the payload begins, or at 0 if that lies past the end of `aligned`.
pub next_message-wraps :
    (l : Log) (sz : ℕ)
    → l.next_free < scot_align_counts
    → 65532 ≤ sz
    → sz < 2 ^ 16
    → (next_message l sz).next_free
      ≡ (if ltb (l.next_free + 2) scot_align_counts then l.next_free + 2 else 0)
unfolding next_message get_next_aligned_idx
next_message-wraps l sz h lo hi = ground arith

-- Where the log does not turn back to its beginning, the next message begins behind the one before.
pub next_message-place :
    (l : Log) (sz : ℕ)
    → l.next_free < scot_align_counts
    → sz < 65532
    → l.next_free < (next_message l sz).next_free
    → (4 * l.next_free + 9 + sz ≤ 4 * (next_message l sz).next_free)
      × ((next_message l sz).next_free < scot_align_counts)
unfolding next_message get_next_aligned_idx
next_message-place l sz h small room = ground arith
