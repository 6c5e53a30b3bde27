-- ===== src/Cache/Dns.antt =====
-- `DnsCache` of src/cache/mod.rs: three moka caches under one policy.
use egressdns.Prelude.{
  Bool, List, Option, as_secs, false, if◌then◌else◌, ite, ltb, nanos_per_sec, none, not, some, true,
  ℕ, ℕ_discrete, ◌*◌, ◌+◌, ◌==◌,
}
use egressdns.Cache.Name.{normalize_name, name_in_suffix, str_eq}
use egressdns.Cache.Moka.{MokaCache}
use egressdns.Cache.Variants.{has_fingerprint, updated_variants}
use mathlib.Core.Option
use egressdns.Cache.Entry.{
  DnssecStatus, bogus, DnssecStatus-discrete, CacheKey, CacheKey-discrete, CacheEntry, Lookup,
  fresh, stale, miss, VariantRecord, VariantSet, FailureEntry, is_active, remaining_ttl,
  staleness_secs, no_variants,
}

-- `ServeStaleConfig`, the two fields that the cache reads.
pub record ServeStaleConfig : Type 0 where
  pub enabled : Bool
  pub max_stale : ℕ

-- How long moka keeps an entry: its DNS life, and the stale life after it.
unfoldable pub retention : ServeStaleConfig → ℕ → ℕ
retention serve_stale internal_max_ttl =
    if serve_stale.enabled
    then serve_stale.max_stale + internal_max_ttl * nanos_per_sec
    else internal_max_ttl * nanos_per_sec

-- `MAX_VARIANTS_PER_KEY`.
abbrev pub max_variants_per_key : ℕ
max_variants_per_key = 4

-- The caches that `DnsCache::new` builds.
pub record Backends (Msg : Type 0) : Type 1 where
  pub answers : MokaCache CacheKey (CacheEntry Msg) CacheKey-discrete
  pub failures : MokaCache CacheKey FailureEntry CacheKey-discrete
  pub variants : MokaCache CacheKey (VariantSet Msg) CacheKey-discrete

pub record DnsCache {Msg : Type 0} (b : Backends Msg) : Type 0 where
  pub answers : MokaCache.Store b.answers
  pub failures : MokaCache.Store b.failures
  pub variants : MokaCache.Store b.variants
  pub serve_stale : ServeStaleConfig
  pub internal_max_ttl : ℕ

-- The tests of `get` on an entry that is there, in the order of the code.
unfoldable pub classify : {Msg : Type 0} → ServeStaleConfig → CacheEntry Msg → ℕ → Lookup Msg
classify config e now =
    if ltb 0 (remaining_ttl e now)
    then fresh e (remaining_ttl e now)
    else if not config.enabled
    then miss
    else if ltb (as_secs config.max_stale) (staleness_secs e now)
    then miss
    else ite (DnssecStatus-discrete e.dnssec bogus) miss (stale e (staleness_secs e now))

pub selected_discrete : Discrete (Option ℕ)
selected_discrete = hlevel ℕ_discrete

module _ {Msg : Type 0} {b : Backends Msg} where
  unfoldable pub new : ServeStaleConfig → ℕ → DnsCache b
  new serve_stale internal_max_ttl = record {
    answers = b.answers.build;
    failures = b.failures.build;
    variants = b.variants.build;
    serve_stale = serve_stale;
    internal_max_ttl = internal_max_ttl;
  }

  unfoldable pub get : DnsCache b → CacheKey → ℕ → Lookup Msg
  unfolding classify
  get c key now = elim (b.answers.get c.answers key) [
    | none ↦ miss
    | some e ↦ classify c.serve_stale e now
  ]

  unfoldable pub insert : DnsCache b → CacheKey → CacheEntry Msg → DnsCache b
  insert c key e =
      ite (DnssecStatus-discrete e.dnssec bogus) c
        (record c { answers = b.answers.insert key e c.answers })

  unfoldable pub record_failure : DnsCache b → CacheKey → FailureEntry → DnsCache b
  record_failure c key f = record c { failures = b.failures.insert key f c.failures }

  unfoldable pub clear_failure : DnsCache b → CacheKey → DnsCache b
  clear_failure c key = record c { failures = b.failures.invalidate key c.failures }

  -- A failure that has run out is taken off on the way.
  unfoldable pub failure : DnsCache b → CacheKey → ℕ → DnsCache b × Option FailureEntry
  unfolding clear_failure
  failure c key now = elim (b.failures.get c.failures key) [
    | none ↦ (c, none)
    | some f ↦ if is_active f now then (c, some f) else (clear_failure c key, none)
  ]

  unfoldable pub failure_streak : DnsCache b → CacheKey → ℕ
  failure_streak c key =
      Option.get_or
        (Option.map (λ (f : FailureEntry). f.consecutive) (b.failures.get c.failures key)) 0

  unfoldable pub record_variant : DnsCache b → CacheKey → VariantRecord Msg → ℕ → DnsCache b × Bool
  unfolding updated_variants
  record_variant c key v now =
      let known = Option.get_or (b.variants.get c.variants key) no_variants in
      let kept = updated_variants max_variants_per_key v now known.variants in
      (
        record c { variants = b.variants.insert key (record known { variants = kept }) c.variants },
        not (has_fingerprint v.fingerprint known.variants),
      )

  unfoldable pub set_selected_variant : DnsCache b → CacheKey → ℕ → ℕ → DnsCache b
  set_selected_variant c key fingerprint now = elim (b.variants.get c.variants key) [
    | none ↦ c
    | some known ↦ ite (selected_discrete known.selected (some fingerprint)) c (record c {
      variants =
          b.variants.insert key
            (record known { selected = some fingerprint; selected_at = some now }) c.variants;
    })
  ]

  unfoldable pub invalidate_where : (CacheKey → Bool) → DnsCache b → DnsCache b
  invalidate_where p c = record c {
    answers = b.answers.invalidate_entries_if p c.answers;
    failures = b.failures.invalidate_entries_if p c.failures;
    variants = b.variants.invalidate_entries_if p c.variants;
  }

  unfoldable pub flush_name : DnsCache b → List ℕ → DnsCache b
  unfolding invalidate_where
  flush_name c name =
      let target = normalize_name name in invalidate_where (λ k. str_eq k.name target) c

  unfoldable pub flush_suffix : DnsCache b → List ℕ → DnsCache b
  unfolding invalidate_where
  flush_suffix c suffix =
      let target = normalize_name suffix in invalidate_where (λ k. name_in_suffix k.name target) c

  unfoldable pub flush_all : DnsCache b → DnsCache b
  flush_all c = record c {
    answers = b.answers.invalidate_all c.answers;
    failures = b.failures.invalidate_all c.failures;
    variants = b.variants.invalidate_all c.variants;
  }

  unfoldable pub run_maintenance : DnsCache b → DnsCache b
  run_maintenance c = record c {
    answers = b.answers.run_pending_tasks c.answers;
    failures = b.failures.run_pending_tasks c.failures;
    variants = b.variants.run_pending_tasks c.variants;
  }

  unfoldable pub promote : DnsCache b → CacheKey → ℕ → DnssecStatus → DnsCache b × Bool
  promote c key fingerprint status = elim (b.answers.get c.answers key) [
    | none ↦ (c, false)
    | some e ↦
        if not (e.fingerprint == fingerprint)
        then (c, false)
        else ite (DnssecStatus-discrete e.dnssec status) (c, false)
            (
              record c { answers = b.answers.insert key (record e { dnssec = status }) c.answers },
              true,
            )
  ]

  unfoldable pub evict_variant : DnsCache b → CacheKey → ℕ → DnsCache b × Bool
  evict_variant c key fingerprint = elim (b.answers.get c.answers key) [
    | none ↦ (c, false)
    | some e ↦
        if not (e.fingerprint == fingerprint)
        then (c, false)
        else (record c { answers = b.answers.invalidate key c.answers }, true)
  ]
