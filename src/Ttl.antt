-- ===== src/Ttl.antt =====
-- src/policy/ttl.rs: the TTL that a client is shown.
pub mod Bounds
mod Tests
-- The caps of `TtlConfig` that the policy reads.
use egressdns.Prelude.{Bool, Option, if◌then◌else◌, min, none, some, ℕ}

pub record TtlConfig : Type 0 where
  pub cap_serve_stale : ℕ
  pub cap_cloudflare_augment : ℕ
  pub cap_network_change : ℕ
  pub cap_cloudflare_preserve : ℕ
  pub cap_optimized_multi : ℕ
  pub cap_default : ℕ

pub data TtlReason : Type 0 where
  serve_stale network_change cloudflare_augment cloudflare_preserve optimized_multi default :
      TtlReason

pub record TtlInputs : Type 0 where
  pub remaining_authoritative : ℕ
  pub remaining_signature : Option ℕ
  pub is_stale : Bool
  pub recent_network_change : Bool
  pub cloudflare_augmented : Bool
  pub cloudflare_preserved : Bool
  pub optimized_multi : Bool

unfoldable pub choose_cap : TtlConfig → TtlInputs → ℕ × TtlReason
choose_cap cfg i =
    if i.is_stale
    then (cfg.cap_serve_stale, serve_stale)
    else if i.cloudflare_augmented
    then (cfg.cap_cloudflare_augment, cloudflare_augment)
    else if i.recent_network_change
    then (cfg.cap_network_change, network_change)
    else if i.cloudflare_preserved
    then (cfg.cap_cloudflare_preserve, cloudflare_preserve)
    else if i.optimized_multi
    then (cfg.cap_optimized_multi, optimized_multi)
    else (cfg.cap_default, default)

unfoldable pub effective_client_ttl : TtlConfig → TtlInputs → ℕ × TtlReason
effective_client_ttl cfg i =
    let (chosen, reason) = choose_cap cfg i in
    let cap = if i.recent_network_change then min chosen cfg.cap_network_change else chosen in
    let ttl = min i.remaining_authoritative cap in
    (elim i.remaining_signature [ none ↦ ttl | some sig ↦ min ttl sig ], reason)
