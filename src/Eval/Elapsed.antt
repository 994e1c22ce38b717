-- ===== src/Eval/Elapsed.antt =====
-- The time between two readings.
use scot.Base.{
  ℕ, ◌+◌, ◌*◌, ◌-◌, ◌^◌, ◌≡◌, ◌<◌, ◌≤◌, if◌then◌else◌, leb, ltb, true, false, arith, Bool-cases,
  inl, inr, ap,
}
use scot.Base.Int.{pos, negsuc}
use scot.Eval.{Timespec, elapsed_nsec, to_signed}

-- A reading in nanoseconds.
abbrev pub nsec : Timespec → ℕ
nsec t = t.tv_nsec + t.tv_sec * 1000000000

elapsed_forward :
    (s e : Timespec)
    → nsec s ≤ nsec e
    → nsec e < nsec s + 2 ^ 63
    → elapsed_nsec s e ≡ nsec e - nsec s
unfolding elapsed_nsec
elapsed_forward s e le lt = omega arith

elapsed_backward :
    (s e : Timespec)
    → nsec e < nsec s
    → nsec s ≤ nsec e + 2 ^ 63
    → elapsed_nsec s e ≡ 2 ^ 64 - (nsec s - nsec e)
unfolding elapsed_nsec
elapsed_backward s e lt le = omega arith

-- What `__ELAPSED_NSEC__` leaves in a `long long` is the signed difference of the two readings in
-- nanoseconds, wherever they lie and whatever wraps on the way, as long as they are
-- less than 2 ^ 63 apart, or 2 ^ 63 when the end is the earlier.
pub elapsed_nsec-difference :
    (s e : Timespec)
    → nsec e < nsec s + 2 ^ 63
    → nsec s ≤ nsec e + 2 ^ 63
    → to_signed (elapsed_nsec s e)
      ≡ (if leb (nsec s) (nsec e) then pos (nsec e - nsec s) else negsuc (nsec s - nsec e - 1))
unfolding to_signed
elapsed_nsec-difference s e near far = elim (Bool-cases (leb (nsec s) (nsec e))) [
  | inl le ↦
      let d = elapsed_forward s e (ground arith) near in
      let small = ltb_true (elapsed_nsec s e) (omega arith) in rw (small, le, d)
  | inr gt ↦
      let d = elapsed_backward s e (ground arith) far in
      let large = ltb_false (elapsed_nsec s e) (ground arith) in
      rw (large, gt, d) (ap negsuc (ground arith))
]
  where
    ltb_true : (n : ℕ) → n < 2 ^ 63 → ltb n (2 ^ 63) ≡ true
    ltb_true n h = ground arith

    ltb_false : (n : ℕ) → 2 ^ 63 ≤ n → ltb n (2 ^ 63) ≡ false
    ltb_false n h = ground arith
