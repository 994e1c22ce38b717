-- ===== src/Log/Carry.antt =====
-- An RDMA write whose bytes arrive one by one, in the order of their addresses.
use scot.Base.{ℕ, ◌+◌, ◌-◌, ◌≡◌, ◌&&◌, leb, ltb, if◌then◌else◌, refl, true, arith}
use scot.Memory.{Mem}
use scot.Log.Deliver.{IsDelivery}

-- `k` bytes of a write have arrived.
abbrev pub carry : (local remote : Mem) (from to : ℕ) → ℕ → Mem
carry local remote from to k a =
    if leb to a && ltb a (to + k) then local (from + (a - to)) else remote a

pub carry-IsDelivery :
    (local remote : Mem) (from to n : ℕ)
    → IsDelivery local remote from to n (carry local remote from to)
carry-IsDelivery local remote from to n = record {
  arrived = λ k i le lt.
      let t : (leb to (to + i) && ltb (to + i) (to + k)) ≡ true = ground arith in
      let e : from + (to + i - to) ≡ from + i = omega arith in rw (t, e) refl;
  pending = λ k a le out. ground arith;
}
