-- ===== src/Cache/Reads.antt =====
-- What `DnsCache::get`, `failure`, `promote` and `evict_variant` of src/cache/mod.rs answer, on every
-- branch.
use egressdns.Prelude.{
  Bool-cases, ap, arith, as_secs, false, if_neg, if_pos, inl, inr, ltb, none, refl, some, true,
  u32_mod, ℕ, ◌+◌, ◌-◌, ◌<◌, ◌≡◌, ◌≢◌, ◌≤◌, ◌⊎◌,
}
use egressdns.Cache.Moka.{get-invalidate_self}
use egressdns.Cache.Entry.{
  bogus, DnssecStatus-discrete, CacheKey, CacheEntry, Lookup, fresh, stale, miss, FailureEntry,
  is_active, age_secs, remaining_ttl, staleness_secs,
}
use egressdns.Cache.Dns.{
  ServeStaleConfig, Backends, DnsCache, classify, get, failure, clear_failure,
}

-- The age in whole seconds, with no wrap.
abbrev pub age : {Msg : Type 0} → CacheEntry Msg → ℕ → ℕ
age e now = as_secs (now - e.received_at)

module _ {Msg : Type 0} where
  -- The independent account of a lookup that finds `e`.
  pub data Verdict (config : ServeStaleConfig) (e : CacheEntry Msg) (now : ℕ)
      : Lookup Msg → Type 0 where
    in_time : (r : ℕ) → 0 < r → age e now + r ≡ e.ttl → Verdict config e now (fresh e r)
    kept :
        (s : ℕ)
        → config.enabled ≡ true
        → age e now ≡ e.ttl + s
        → s ≤ as_secs config.max_stale
        → e.dnssec ≢ bogus
        → Verdict config e now (stale e s)
    refused :
        e.ttl ≤ age e now
        → (config.enabled ≡ false)
          ⊎ (e.ttl + as_secs config.max_stale < age e now)
          ⊎ (e.dnssec ≡ bogus)
        → Verdict config e now miss

  module _ (e : CacheEntry Msg) (now : ℕ) (h : age e now < u32_mod) where
    pub remaining_ttl-eq : remaining_ttl e now ≡ e.ttl - age e now
    unfolding remaining_ttl age_secs
    remaining_ttl-eq = omega arith

    pub staleness_secs-eq : staleness_secs e now ≡ age e now - e.ttl
    unfolding staleness_secs age_secs
    staleness_secs-eq = omega arith

  -- An entry that is there is served fresh, served stale or refused, by its age alone.
  pub classify-Verdict :
      (config : ServeStaleConfig) (e : CacheEntry Msg) (now : ℕ)
      → age e now < u32_mod
      → Verdict config e now (classify config e now)
  unfolding classify
  classify-Verdict config e now h =
      let r = remaining_ttl-eq e now h in
      let s = staleness_secs-eq e now h in
      elim (Bool-cases (ltb 0 (remaining_ttl e now))) [
        | inl p ↦ rw p (in_time (remaining_ttl e now) (ground arith) (ground arith))
        | inr p ↦ rw p (elim (Bool-cases config.enabled) [
          | inr q ↦ simp q (refused (ground arith) (inl q))
          | inl q ↦
              simp q (elim (Bool-cases (ltb (as_secs config.max_stale) (staleness_secs e now))) [
                | inl o ↦ rw o (refused (ground arith) (inr (inl (ground arith))))
                | inr o ↦ rw o (elim (DnssecStatus-discrete e.dnssec bogus) [
                  | yes b ↦ rw (if_pos _ b) (refused (ground arith) (inr (inr b)))
                  | no b ↦
                      rw (if_neg _ b)
                        (kept (staleness_secs e now) q (ground arith) (ground arith) b)
                ])
              ])
        ])
      ]

module _ {Msg : Type 0} {b : Backends Msg} (c : DnsCache b) (key : CacheKey) (now : ℕ) where
  -- While an entry's age fits 32 bits, a lookup that finds it is fresh for exactly the seconds left,
  -- stale for exactly the seconds past its TTL (only with serve-stale on, within its limit, and never
  -- Bogus), and otherwise a miss.
  pub get-Verdict :
      {e : CacheEntry Msg}
      → b.answers.get c.answers key ≡ some e
      → age e now < u32_mod
      → Verdict c.serve_stale e now (get c key now)
  unfolding get
  get-Verdict {e} found h = rw (found, get) (classify-Verdict c.serve_stale e now h)

  -- A recorded failure is reported exactly while it is younger than its TTL; past that it is also
  -- taken out of the cache, so that it is gone at every later time.
  pub failure-active :
      {f : FailureEntry}
      → b.failures.get c.failures key ≡ some f
      → let (c', reported) = failure c key now in
        ((now - f.recorded_at < f.ttl) × (reported ≡ some f) × (c' ≡ c))
        ⊎ ((f.ttl ≤ now - f.recorded_at)
            × (reported ≡ none)
            × ((later : ℕ) → (failure c' key later).1 ≡ none))
  unfolding failure is_active clear_failure
  failure-active {f} found = elim (Bool-cases (is_active f now)) [
    | inl p ↦
        let e : failure c key now ≡ (c, some f) = rw (found, failure) (rw p refl) in
        inl (ground arith, ap (λ r. r.1) e, ap (λ r. r.0) e)
    | inr p ↦
        let e : failure c key now ≡ (clear_failure c key, none) = rw (found, failure) (rw p refl) in
        inr (ground arith, ap (λ r. r.1) e, λ later. rw e (gone later))
  ]
    where
      gone : (later : ℕ) → (failure (clear_failure c key) key later).1 ≡ none
      gone later = rw (get-invalidate_self b.failures key c.failures, failure) refl
