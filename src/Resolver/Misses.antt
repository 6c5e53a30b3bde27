-- ===== src/Resolver/Misses.antt =====
-- The rest of a lookup in src/dns/resolver.rs: the caches that `handle_inner` asks, and `resolve_miss`. The
-- messages that are built from the results are left out.
use egressdns.Prelude.{
  Bool, List, Option, as_secs, if◌then◌else◌, ltb, min, nanos_per_sec, none, saturating_add32, some,
  ℕ, ◌*◌, ◌+◌, ◌-◌, ◌^◌,
}
use egressdns.Cache.Entry.{
  CacheEntry, CacheKey, EntryKind, FailureEntry, Lookup, fresh, stale, miss, remaining_ttl,
}
use egressdns.Cache.Dns.{Backends, DnsCache, failure, failure_streak, get, record_failure}
use egressdns.Flight.{FlightError, Join, Shared, leader, follower, saturated, is_cacheable}
use egressdns.SpecialUse.{bytes}
use egressdns.Resolver.{
  ExtendedError, FailureReport, ResolveError, Result, describe, flight_detail, from_error,
  is_transient, no_reachable_authority, upstream,
}

-- `Duration::MAX`.
abbrev pub duration_max : ℕ
duration_max = (2 ^ 64 - 1) * nanos_per_sec + 999999999

abbrev pub serv_fail : ℕ
serv_fail = 2

-- `AnswerOrigin`.
pub data AnswerOrigin : Type 0 where
  local cache_hit negative_hit failure_hit stale_entry from_upstream coalesced rejected :
      AnswerOrigin

unfoldable pub hit_origin : EntryKind → AnswerOrigin
hit_origin EntryKind.positive = cache_hit
hit_origin _ = negative_hit

module _ (Msg : Type 0) where
  -- What the caches have: a failure, a fresh answer with the seconds left, an expired one, or nothing.
  pub data Found : Type 0 where
    found_failure : FailureEntry → Found
    found_fresh : AnswerOrigin → CacheEntry Msg → ℕ → Found
    found_stale : CacheEntry Msg → Found
    not_found : Found

module _ {Msg : Type 0} where
  unfoldable pub found_by : Lookup Msg → Found Msg
  unfolding hit_origin
  found_by (fresh entry remaining) = found_fresh (hit_origin entry.kind) entry remaining
  found_by (stale entry age) = found_stale entry
  found_by miss = not_found

module _ {Msg : Type 0} {b : Backends Msg} where
  -- A remembered failure comes before any answer.
  unfoldable pub after_failure :
      CacheKey → ℕ → DnsCache b × Option FailureEntry → DnsCache b × Found Msg
  unfolding found_by
  after_failure key now (c, some f) = (c, found_failure f)
  after_failure key now (c, none) = (c, found_by (get c key now))

  unfoldable pub look_up : DnsCache b → CacheKey → ℕ → DnsCache b × Found Msg
  unfolding after_failure
  look_up c key now = after_failure key now (failure c key now)

-- What the leader publishes: `complete`, `fail_uncacheable` or `fail`.
unfoldable pub leader_value : {V : Type 0} → (ℕ → List ℕ) → Result V ResolveError → Shared V
leader_value digits (Result.ok entry) = Shared.ok entry
leader_value digits (Result.err e) =
    if is_transient e
    then Shared.err (FlightError.transient (describe digits e))
    else Shared.err (FlightError.failed (describe digits e))

module _ {V : Type 0} where
  unfoldable pub led : (ℕ → List ℕ) → Result V ResolveError → Result V FailureReport
  led digits (Result.ok entry) = Result.ok entry
  led digits (Result.err e) = Result.err (from_error digits e)

  -- `none` where the wait exceeds the budget.
  unfoldable pub followed : Option (Shared V) → Result V FailureReport
  unfolding flight_detail is_cacheable
  followed none = Result.err (upstream (bytes "coalesced request timed out"))
  followed (some (Shared.ok entry)) = Result.ok entry
  followed (some (Shared.err e)) =
      Result.err (record {
        detail = flight_detail e;
        remember = is_cacheable e;
        ede = no_reachable_authority;
      })

  -- `fetched` is what `fetch` returns to a leader, `waited` what a follower waits for.
  unfoldable pub miss_result :
      {R : Type 0}
      → (ℕ → List ℕ)
      → Join R
      → Result V ResolveError
      → Option (Shared V)
      → Result V FailureReport
  miss_result digits (leader i) fetched waited = led digits fetched
  miss_result digits (follower i rx) fetched waited = followed waited
  miss_result digits saturated fetched waited =
      Result.err (upstream (bytes "too many distinct queries in flight"))

-- `CacheConfig`, the two fields that are read here, and `dnssec.extended_errors`.
pub record FailureConfig : Type 0 where
  pub extended_errors : Bool
  pub failure_min_ttl : ℕ
  pub failure_max_ttl : ℕ

pub data FailureTtlError : Type 0 where
  below_one_second above_ceiling max_below_min : FailureTtlError

-- `FAILURE_MAX_TTL_CEILING` of src/config/validate.rs.
abbrev pub failure_max_ttl_ceiling : ℕ
failure_max_ttl_ceiling = 300 * nanos_per_sec

-- The checks of both TTLs in src/config/validate.rs: `none` where they pass.
unfoldable pub check_failure_ttls : FailureConfig → Option FailureTtlError
check_failure_ttls cfg =
    if ltb (as_secs cfg.failure_min_ttl) 1
    then some below_one_second
    else if ltb failure_max_ttl_ceiling cfg.failure_max_ttl
    then some above_ceiling
    else if ltb cfg.failure_max_ttl cfg.failure_min_ttl
    then some max_below_min
    else none

unfoldable pub failure_ttl : FailureConfig → ℕ → ℕ
failure_ttl cfg streak =
    min (min (cfg.failure_min_ttl * 2 ^ min streak 6) duration_max) cfg.failure_max_ttl

module _ (Msg : Type 0) where
  -- An entry with its remaining TTL, or SERVFAIL with the code and the text of an extended error.
  pub data MissAnswer : Type 0 where
    answered : CacheEntry Msg → ℕ → MissAnswer
    unresolved : Option (ExtendedError × List ℕ) → MissAnswer

module _ {Msg : Type 0} {b : Backends Msg} where
  -- The failure that follows those on record.
  unfoldable pub next_failure : FailureConfig → DnsCache b → CacheKey → ℕ → FailureEntry
  unfolding failure_ttl
  next_failure cfg c key now =
      let streak = saturating_add32 (failure_streak c key) 1 in
      record {
        recorded_at = now;
        ttl = failure_ttl cfg streak;
        rcode = serv_fail;
        reason = bytes "upstream resolution failed";
        consecutive = streak;
      }

  -- `resolve_miss` from its result on.
  unfoldable pub settle_miss :
      FailureConfig
      → DnsCache b
      → CacheKey
      → ℕ
      → Result (CacheEntry Msg) FailureReport
      → DnsCache b × MissAnswer Msg
  settle_miss cfg c key now (Result.ok entry) = (c, answered entry (remaining_ttl entry now))
  settle_miss cfg c key now (Result.err r) =
      let c' = if r.remember then record_failure c key (next_failure cfg c key now) else c in
      (c', unresolved (if cfg.extended_errors then some (r.ede, r.detail) else none))
