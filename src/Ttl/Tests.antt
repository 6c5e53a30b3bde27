-- ===== src/Ttl/Tests.antt =====
-- A concrete TTL decision.
use egressdns.Prelude.{false, some, true}
use egressdns.Ttl.{TtlConfig, TtlInputs, effective_client_ttl}
use egressdns.Ttl.Bounds.{IsTightest, Applies, effective_client_ttl-IsTightest}

abbrev caps : TtlConfig
caps = record {
  cap_serve_stale = 30;
  cap_cloudflare_augment = 30;
  cap_network_change = 15;
  cap_cloudflare_preserve = 60;
  cap_optimized_multi = 60;
  cap_default = 300;
}

abbrev signed_and_stale : TtlInputs
signed_and_stale = record {
  remaining_authoritative = 3600;
  remaining_signature = some 7;
  is_stale = true;
  recent_network_change = true;
  cloudflare_augmented = false;
  cloudflare_preserved = false;
  optimized_multi = false;
}

effective_client_ttl-IsTightest_example :
    let (ttl, reason) = effective_client_ttl caps signed_and_stale in
    IsTightest caps signed_and_stale reason ttl × Applies signed_and_stale reason
effective_client_ttl-IsTightest_example = effective_client_ttl-IsTightest caps signed_and_stale
