-- ===== src/Resolver/Stale.antt =====
-- `stale_refresh_allowed` and `serve_stale` of src/dns/resolver.rs: an expired answer, and the refresh that
-- is tried before it is served.
use egressdns.Prelude.{
  Bool, List, Option, [], dict_get, dict_insert, false, if◌then◌else◌, leb, length, ltb, none, some,
  true, ℕ, ◌&&◌, ◌-◌, ◌==◌, ◌∷◌,
}
use egressdns.Cache.Entry.{CacheEntry, CacheKey, CacheKey-discrete, EntryKind, remaining_ttl}
use egressdns.Resolver.{ExtendedError, ResolveError, Result, ok, err, stale_answer, stale_nxdomain}

-- The `stale_refresh` map: the last attempt of each key.
abbrev pub Attempts : Type 0
Attempts = List (CacheKey × ℕ)

-- `MAX_TRACKED`.
abbrev pub max_tracked : ℕ
max_tracked = 8192

unfoldable pub retain_attempts : ℕ → ℕ → Attempts → Attempts
retain_attempts interval now [] = []
retain_attempts interval now ((key, last) ∷ table) =
    let rest = retain_attempts interval now table in
    if ltb (now - last) interval then (key, last) ∷ rest else rest

-- Whether the last attempt is younger than the interval.
unfoldable pub tried_lately : Attempts → CacheKey → ℕ → ℕ → Bool
tried_lately table key interval now = elim (dict_get CacheKey-discrete key table) [
  | none ↦ false
  | some last ↦ ltb (now - last) interval
]

-- The table after the sweep that a full one gets.
unfoldable pub swept : Attempts → ℕ → ℕ → Attempts
swept table interval now =
    if leb max_tracked (length table) then retain_attempts interval now table else table

-- A table that is still full is left alone.
unfoldable pub note_refresh : Attempts → CacheKey → ℕ → Attempts
note_refresh table key now =
    if leb max_tracked (length table) then table else dict_insert CacheKey-discrete key now table

unfoldable pub stale_refresh_allowed : Attempts → CacheKey → ℕ → ℕ → Attempts × Bool
stale_refresh_allowed table key interval now =
    if interval == 0
    then (table, true)
    else if tried_lately table key interval now
    then (table, false)
    else (note_refresh (swept table interval now) key now, true)

-- `ServeStaleConfig`, the fields that `serve_stale` reads, and `dnssec.extended_errors`.
pub record StaleConfig : Type 0 where
  pub retry_interval : ℕ
  pub include_ede : Bool
  pub extended_errors : Bool

module _ (Msg : Type 0) where
  -- An answer from a refresh with its remaining TTL, or the stale entry with the error it carries.
  pub data StaleAnswer : Type 0 where
    refreshed : CacheEntry Msg → ℕ → StaleAnswer
    served : CacheEntry Msg → Option ExtendedError → StaleAnswer

unfoldable pub stale_code : EntryKind → ExtendedError
stale_code EntryKind.nx_domain = stale_nxdomain
stale_code _ = stale_answer

module _ {Msg : Type 0} where
  unfoldable pub serve_expired : StaleConfig → CacheEntry Msg → StaleAnswer Msg
  unfolding stale_code
  serve_expired cfg entry =
      served entry
        (if cfg.include_ede && cfg.extended_errors then some (stale_code entry.kind) else none)

  -- `arrived` is what the refresh gives within the client's timeout, if anything, and `later` the time then.
  unfoldable pub serve_stale :
      StaleConfig
      → Attempts
      → CacheKey
      → CacheEntry Msg
      → ℕ
      → Option (Result (CacheEntry Msg) ResolveError)
      → ℕ
      → Attempts × StaleAnswer Msg
  serve_stale cfg table key entry now arrived later =
      let (table', allowed) = stale_refresh_allowed table key cfg.retry_interval now in
      (
        table',
        if allowed
            then elim arrived [
              | none ↦ serve_expired cfg entry
              | some (err e) ↦ serve_expired cfg entry
              | some (ok new) ↦ refreshed new (remaining_ttl new later)
            ]
            else serve_expired cfg entry,
      )
