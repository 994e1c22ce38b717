-- ===== src/Lfmap/Hash.antt =====
-- src/lfmap.cc, `__murmur_hash3` and `hash`. `data` is the address of the key; the blocks run from its
-- first four bytes to the last whole four.
mod Tests
use Prim.Native.Nat.{bit_xor, bit_or}
use scot.Base.{ℕ, zero, suc, ◌+◌, ◌-◌, ◌*◌, ◌/◌, ◌%◌, ◌^◌, ◌==◌, ltb, if◌then◌else◌, u32}
use scot.Memory.{Mem, load32}

-- ROTATE_LEFT_32, for values below 2 ^ 32.
abbrev pub rotate_left_32 : ℕ → ℕ → ℕ
rotate_left_32 x r = bit_or (u32 (x * 2 ^ r)) (x / 2 ^ (32 - r))

-- `k1 *= c1; k1 = ROTATE_LEFT_32(k1, 15); k1 *= c2;`
abbrev pub mix_block : ℕ → ℕ
mix_block k1 = u32 (rotate_left_32 (u32 (k1 * 3432918353)) 15 * 461845907)

-- The loop over the blocks: `n` are left, the first of them at `p`.
unfoldable pub hash_blocks : ℕ → Mem → (p h1 : ℕ) → ℕ
hash_blocks zero m p h1 = h1
hash_blocks (suc n) m p h1 =
    hash_blocks n m (p + 4)
      (u32 (rotate_left_32 (bit_xor h1 (mix_block (load32 m p))) 13 * 5 + 3864292196))

-- The `switch` on the last bytes, by its cases that fall through.
unfoldable pub hash_tail : Mem → (tail rest h1 : ℕ) → ℕ
hash_tail m tail rest h1 =
    let k3 = if rest == 3 then bit_xor 0 (m (tail + 2) * 2 ^ 16) else 0 in
    let k2 = if ltb 1 rest then bit_xor k3 (m (tail + 1) * 2 ^ 8) else k3 in
    let k1 = bit_xor k2 (m tail) in if rest == 0 then h1 else bit_xor h1 (mix_block k1)

-- What follows the switch.
unfoldable pub hash_final : ℕ → ℕ → ℕ
hash_final len h1 =
    let a = bit_xor h1 len in
    let b = u32 (bit_xor a (a / 2 ^ 16) * 2246822507) in
    let c = u32 (bit_xor b (b / 2 ^ 13) * 3266489909) in bit_xor c (c / 2 ^ 16)

unfoldable pub murmur_hash3 : Mem → (key len seed : ℕ) → ℕ
murmur_hash3 m key len seed =
    hash_final len (hash_tail m (key + len / 4 * 4) (len % 4) (hash_blocks (len / 4) m key seed))

unfoldable pub hash : Mem → (key len : ℕ) → ℕ
hash m key len = murmur_hash3 m key len 0
