-- ===== src/Prefixes.antt =====
-- src/cloudflare/prefixes.rs: membership in a snapshot of Cloudflare's networks.
use egressdns.Prelude.{Bool, List, [], false, none, some, ℕ, ◌==◌, ◌||◌, ◌∷◌}
use Prim.Native.Nat.{bit_and}
use egressdns.Net.{IpAddr, v4, v6}
use egressdns.Acl.{to_ipv4_mapped}

pub record PrefixSnapshot : Type 0 where
  -- Networks and masks.
  pub v4_masks : List (ℕ × ℕ)
  pub v6_masks : List (ℕ × ℕ)

unfoldable pub in_masks : ℕ → List (ℕ × ℕ) → Bool
in_masks a [] = false
in_masks a ((net, mask) ∷ rest) = bit_and a mask == net || in_masks a rest

unfoldable pub contains : PrefixSnapshot → IpAddr → Bool
unfolding in_masks to_ipv4_mapped
contains s (v4 a) = in_masks a s.v4_masks
contains s (v6 a) = elim (to_ipv4_mapped a) [ some mapped ↦ false | none ↦ in_masks a s.v6_masks ]
