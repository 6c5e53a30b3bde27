-- ===== src/RateLimit.antt =====
-- src/dns/ratelimit.rs: the inbound rate limiter. The token buckets are the `governor` crate's and enter
-- as a parameter. An `Arc<DirectLimiter>` is an index into `buckets`, so that the two generations of
-- the client table can share one bucket.
pub mod Shape
pub mod Growth
pub mod Buckets
mod Tests
use egressdns.Prelude.{
  Bool, List, Option, [], dict_get, dict_insert, false, get_or, if◌then◌else◌, leb, length, max,
  none, not, set, some, true, ℕ, ◌++◌, ◌+◌, ◌==◌, ◌∷◌,
}
use mathlib.Core.Option
use egressdns.Net.{IpAddr, IpAddr-discrete}

-- `Quota::per_second(rate).allow_burst(burst)`.
pub record Quota : Type 0 where
  pub rate : ℕ
  pub burst : ℕ

-- The `governor` crate: a fresh bucket for a quota, and a check at a time, which changes the bucket and
-- says whether the query may proceed.
pub record Governor : Type 1 where
  pub Bucket : Type 0
  pub direct : Quota → Bucket
  pub check : Bucket → ℕ → Bucket × Bool

pub record RateLimitConfig : Type 0 where
  pub enabled : Bool
  pub per_client_qps : ℕ
  pub per_client_burst : ℕ
  pub global_qps : ℕ
  pub global_burst : ℕ
  pub client_table_size : ℕ

pub data RateDecision : Type 0 where
  allow client_limited global_limited : RateDecision

pub record ClientTable : Type 0 where
  pub quota : Quota
  pub capacity : ℕ
  pub current : List (IpAddr × ℕ)
  pub previous : List (IpAddr × ℕ)

pub record InboundLimiter (g : Governor) : Type 0 where
  pub enabled : Bool
  pub global : Option (Governor.Bucket g)
  pub per_client : Option ClientTable
  pub buckets : List (Governor.Bucket g)

-- `NonZeroU32::new(qps).map(..)`: no limit at rate 0, and a burst of at least the rate.
quota_of : ℕ → ℕ → Option Quota
quota_of qps burst = if qps == 0 then none else some (record { rate = qps; burst = max burst qps })

-- Rotates the generations when the current one is full.
unfoldable pub rotate : ClientTable → ClientTable
rotate t =
    if leb t.capacity (length t.current) then record t { previous = t.current; current = [] } else t

-- `limiter_for`, where `fresh` is the index that a new bucket gets: the table, the bucket's index, and
-- whether it is new.
unfoldable pub limiter_for : ClientTable → IpAddr → ℕ → ClientTable × ℕ × Bool
unfolding rotate
limiter_for t client fresh = elim (dict_get IpAddr-discrete client t.current) [
  | some l ↦ (t, l, false)
  | none ↦ elim (dict_get IpAddr-discrete client t.previous) [
    | some l ↦ (record t { current = dict_insert IpAddr-discrete client l t.current }, l, false)
    | none ↦
        let t' = rotate t in
        (record t' { current = dict_insert IpAddr-discrete client fresh t'.current }, fresh, true)
  ]
]

module _ {g : Governor} where
  unfoldable pub new : RateLimitConfig → InboundLimiter g
  unfolding quota_of
  new cfg =
      if not cfg.enabled
      then record { enabled = false; global = none; per_client = none; buckets = [] }
      else record {
        enabled = true;
        global = Option.map g.direct (quota_of cfg.global_qps cfg.global_burst);
        per_client =
            Option.map
              (λ quota. record {
                quota = quota;
                capacity = max cfg.client_table_size 1;
                current = [];
                previous = [];
              })
              (quota_of cfg.per_client_qps cfg.per_client_burst);
        buckets = [];
      }

  -- The global part of `check`.
  unfoldable pub check_global : InboundLimiter g → ℕ → InboundLimiter g × RateDecision
  check_global l now = elim l.global [
    | none ↦ (l, allow)
    | some bucket ↦
        let (bucket', passed) = g.check bucket now in
        (record l { global = some bucket' }, if passed then allow else global_limited)
  ]

  -- The per-client part of `check`. The bucket behind an index is always there.
  unfoldable pub check_client :
      InboundLimiter g → ClientTable → IpAddr → ℕ → InboundLimiter g × Bool
  check_client l t client now =
      let (t', i, is_new) = limiter_for t client (length l.buckets) in
      let buckets = if is_new then l.buckets ++ g.direct t.quota ∷ [] else l.buckets in
      let (bucket', passed) = g.check (get_or buckets i (g.direct t.quota)) now in
      (record l { per_client = some t'; buckets = set buckets i bucket' }, passed)

  unfoldable pub check : InboundLimiter g → IpAddr → ℕ → InboundLimiter g × RateDecision
  check l client now = if not l.enabled then (l, allow) else elim l.per_client [
    | none ↦ check_global l now
    | some t ↦
        let (l', passed) = check_client l t client now in
        if passed then check_global l' now else (l', client_limited)
  ]

  unfoldable pub tracked_clients : InboundLimiter g → ℕ
  tracked_clients l =
      Option.get_or
        (Option.map (λ (t : ClientTable). length t.current + length t.previous) l.per_client) 0
