-- ===== src/Resolver/Remember.antt =====
-- What `resolve_miss` of src/dns/resolver.rs leaves in the failure cache, and what a lookup makes of it.
use egressdns.Prelude.{nanos_per_sec, none, ℕ, ◌≡◌, ◌≤◌, ◌⊎◌}
use egressdns.Cache.Entry.{CacheKey, FailureEntry}
use egressdns.Cache.Dns.{Backends, DnsCache}
use egressdns.Resolver.Misses.{failure_max_ttl_ceiling, FailureConfig, found_failure, look_up}

-- What the configuration's check leaves.
abbrev Bounded : FailureConfig → Type 0
Bounded cfg =
    (nanos_per_sec ≤ cfg.failure_min_ttl)
    × (cfg.failure_min_ttl ≤ cfg.failure_max_ttl)
    × (cfg.failure_max_ttl ≤ failure_max_ttl_ceiling)

module _ {Msg : Type 0} {b : Backends Msg} where
  -- The failure is found, or moka has given it up.
  abbrev pub Suppressed : DnsCache b → CacheKey → ℕ → FailureEntry → Type 0
  Suppressed c key later f =
      (b.failures.get c.failures key ≡ none) ⊎ (look_up c key later ≡ (c, found_failure f))
