-- ===== src/Lfmap/Hash/Tests.antt =====
-- The hash function at known keys.
use scot.Base.{◌≡◌, ◌==◌, if◌then◌else◌, refl}
use scot.Memory.{load32}
use scot.Lfmap.Hash.{hash, murmur_hash3, hash_final, hash_tail, hash_blocks}

-- The published values for the empty key and for "test".
empty_key : hash (λ a. 0) 0 0 ≡ 0
unfolding hash murmur_hash3 hash_final hash_tail hash_blocks
empty_key = refl

test_key :
    hash (λ a. if a == 0 then 116 else if a == 1 then 101 else if a == 2 then 115 else 116) 0 4
    ≡ 3127628307
unfolding hash murmur_hash3 hash_final hash_tail hash_blocks load32
test_key = refl
