-- ===== src/Util.antt =====
-- src/util/mod.rs: the hash behind every deterministic jitter.
use egressdns.Prelude.{List, [], reverse, suc, zero, ℕ, ◌%◌, ◌*◌, ◌/◌, ◌^◌, ◌∷◌}
use Prim.Native.Nat.{bit_xor}

-- `{integer}::to_le_bytes` and `to_be_bytes`, for a width in bytes.
unfoldable pub to_le_bytes : ℕ → ℕ → List ℕ
to_le_bytes zero n = []
to_le_bytes (suc w) n = n % 256 ∷ to_le_bytes w (n / 256)

unfoldable pub to_be_bytes : ℕ → ℕ → List ℕ
to_be_bytes w n = reverse (to_le_bytes w n)

fnv1a64_from : ℕ → List ℕ → ℕ
fnv1a64_from hash [] = hash
fnv1a64_from hash (b ∷ bs) = fnv1a64_from (bit_xor hash b * 0x100000001b3 % 2 ^ 64) bs

unfoldable pub fnv1a64 : List ℕ → ℕ
unfolding fnv1a64_from
fnv1a64 bytes = fnv1a64_from 0xcbf29ce484222325 bytes
