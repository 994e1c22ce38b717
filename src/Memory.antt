-- ===== src/Memory.antt =====
-- Bytes by address, and the loads, stores and block operations that the sources make on them; wider
-- values are little-endian.
pub mod Laws
use scot.Base.{ℕ, ◌+◌, ◌-◌, ◌*◌, ◌/◌, ◌%◌, ◌&&◌, ◌==◌, leb, ltb, if◌then◌else◌}

abbrev pub Mem : Type 0
Mem = ℕ → ℕ

unfoldable pub store8 : Mem → ℕ → ℕ → Mem
store8 m p v a = if a == p then v % 256 else m a

unfoldable pub store16 : Mem → ℕ → ℕ → Mem
unfolding store8
store16 m p v = store8 (store8 m p v) (p + 1) (v / 256)

unfoldable pub store32 : Mem → ℕ → ℕ → Mem
unfolding store16
store32 m p v = store16 (store16 m p v) (p + 2) (v / 65536)

unfoldable pub load16 : Mem → ℕ → ℕ
load16 m p = m p + 256 * m (p + 1)

unfoldable pub load32 : Mem → ℕ → ℕ
unfolding load16
load32 m p = load16 m p + 65536 * load16 m (p + 2)

-- memcpy(dst, src, n), for ranges that do not overlap.
unfoldable pub memcpy : Mem → (dst src n : ℕ) → Mem
memcpy m dst src n a = if leb dst a && ltb a (dst + n) then m (src + (a - dst)) else m a

-- memset(p, 0, n)
unfoldable pub memzero : Mem → (p n : ℕ) → Mem
memzero m p n a = if leb p a && ltb a (p + n) then 0 else m a
