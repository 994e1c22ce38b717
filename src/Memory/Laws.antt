-- ===== src/Memory/Laws.antt =====
-- What a load finds behind a store.
use scot.Base.{ℕ, ◌+◌, ◌-◌, ◌%◌, ◌^◌, ◌≡◌, ◌≢◌, ◌<◌, ◌≤◌, ◌⊎◌, arith}
use scot.Memory.{Mem, store8, store16, store32, load16, load32, memcpy}

module _ (m : Mem) (p v : ℕ) where
  pub store8_self : store8 m p v p ≡ v % 256
  unfolding store8
  store8_self = ground arith

  pub store8_ne : (a : ℕ) → a ≢ p → store8 m p v a ≡ m a
  unfolding store8
  store8_ne a ne = ground arith

  pub load16-store16 : v < 2 ^ 16 → load16 (store16 m p v) p ≡ v
  unfolding load16 store16
  load16-store16 h = ground arith

  pub store16_out : (a : ℕ) → (a < p) ⊎ (p + 2 ≤ a) → store16 m p v a ≡ m a
  unfolding store16
  store16_out a h = ground arith

  pub load32-store32 : v < 2 ^ 32 → load32 (store32 m p v) p ≡ v
  unfolding load32 store32
  load32-store32 h = ground arith

  pub store32_out : (a : ℕ) → (a < p) ⊎ (p + 4 ≤ a) → store32 m p v a ≡ m a
  unfolding store32
  store32_out a h = ground arith

module _ (m : Mem) (dst src n a : ℕ) where
  pub memcpy_in : dst ≤ a → a < dst + n → memcpy m dst src n a ≡ m (src + (a - dst))
  unfolding memcpy
  memcpy_in h k = ground arith

  pub memcpy_out : (a < dst) ⊎ (dst + n ≤ a) → memcpy m dst src n a ≡ m a
  unfolding memcpy
  memcpy_out h = ground arith
