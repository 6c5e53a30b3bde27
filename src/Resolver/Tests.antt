-- ===== src/Resolver/Tests.antt =====
-- Concrete runs of the model of src/dns/resolver.rs.
use egressdns.Prelude.{
  List, [], arith, false, nanos_per_sec, none, refl, some, true, ℕ, ◌*◌, ◌∷◌, ◌≡◌,
}
use egressdns.Cache.Entry.{CacheKey, plain}
use egressdns.Cache.Dns.{DnsCache}
use egressdns.Cache.Lossless.{backends}
use egressdns.Flight.{leader, follower}
use egressdns.SpecialUse.{bytes}
use egressdns.Resolver.{ResolveError, Result, ok, err, proof_incomplete}
use egressdns.Resolver.Stale.{stale_refresh_allowed}
use egressdns.Resolver.Misses.{FailureConfig, leader_value, miss_result}
use egressdns.Resolver.Refreshes.{Call, run, refresh_once, one_more, none_left}
use egressdns.Resolver.Waiters.{Agrees, miss_result-Agrees}

abbrev key_of : ℕ → CacheKey
key_of n = record {
  name = n ∷ [];
  qtype = 1;
  qclass = 1;
  view = plain [];
  mode = record { dnssec_ok = false; checking_disabled = false };
}

abbrev half_minute : ℕ
half_minute = 30 * nanos_per_sec

abbrev others : List Call
others =
    record { key = key_of 2; interval = half_minute; now = 5 }
    ∷ record { key = key_of 1; interval = half_minute; now = 7 }
    ∷ []

refresh_once_example :
    (stale_refresh_allowed
      (run (stale_refresh_allowed [] (key_of 1) half_minute 3).0 others)
      (key_of 1)
      half_minute
      nanos_per_sec).1
    ≡ false
unfolding egressdns.Resolver.Stale.retain_attempts egressdns.Resolver.Stale.stale_refresh_allowed
    egressdns.Resolver.Stale.tried_lately egressdns.Prelude.dict_get
refresh_once_example =
    refresh_once (key_of 1) 3 half_minute [] others nanos_per_sec (omega arith) refl
      (one_more (key_of 2) 5 _ (omega arith) (one_more (key_of 1) 7 _ (omega arith) none_left))
      (omega arith)

abbrev no_digits : ℕ → List ℕ
no_digits n = []

abbrev unfinished : Result ℕ ResolveError
unfinished = err (proof_incomplete (bytes "timeout"))

miss_result-Agrees_example :
    Agrees (miss_result {R = ℕ} no_digits (leader 0) unfinished none) (
      miss_result {R = ℕ} no_digits
        (follower 0 4)
        (ok 1)
        (some (leader_value no_digits unfinished)))
miss_result-Agrees_example = miss_result-Agrees no_digits 0 0 4 unfinished (ok 1) none

abbrev config : FailureConfig
config = record {
  extended_errors = true;
  failure_min_ttl = nanos_per_sec;
  failure_max_ttl = 300 * nanos_per_sec;
}

abbrev cache : DnsCache backends
cache = record {
  answers = λ k. none;
  failures = λ k. none;
  variants = λ k. none;
  serve_stale = record { enabled = true; max_stale = 3600 * nanos_per_sec };
  internal_max_ttl = 86400;
}
