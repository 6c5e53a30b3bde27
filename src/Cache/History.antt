-- ===== src/Cache/History.antt =====
-- Every history of calls on `DnsCache` (src/cache/mod.rs).
pub mod Effect
pub mod Provenance
pub mod Tidy
use egressdns.Prelude.{List, [], ℕ, ◌∷◌}
use egressdns.Cache.Entry.{DnssecStatus, CacheKey, CacheEntry, VariantRecord, FailureEntry}
use egressdns.Cache.Dns.{
  Backends, DnsCache, insert, record_failure, clear_failure, failure, record_variant,
  set_selected_variant, flush_name, flush_suffix, flush_all, run_maintenance, promote,
  evict_variant,
}

pub data Call (Msg : Type 0) : Type 0 where
  inserts : CacheKey → CacheEntry Msg → Call Msg
  records_failure : CacheKey → FailureEntry → Call Msg
  clears_failure : CacheKey → Call Msg
  asks_failure : CacheKey → ℕ → Call Msg
  records_variant : CacheKey → VariantRecord Msg → ℕ → Call Msg
  selects_variant : CacheKey → ℕ → ℕ → Call Msg
  promotes : CacheKey → ℕ → DnssecStatus → Call Msg
  evicts : CacheKey → ℕ → Call Msg
  flushes_name : List ℕ → Call Msg
  flushes_suffix : List ℕ → Call Msg
  flushes_all : Call Msg
  maintains : Call Msg

module _ {Msg : Type 0} {b : Backends Msg} where
  unfoldable pub step : DnsCache b → Call Msg → DnsCache b
  step c (inserts key e) = insert c key e
  step c (records_failure key f) = record_failure c key f
  step c (clears_failure key) = clear_failure c key
  step c (asks_failure key now) = (failure c key now).0
  step c (records_variant key v now) = (record_variant c key v now).0
  step c (selects_variant key f now) = set_selected_variant c key f now
  step c (promotes key f status) = (promote c key f status).0
  step c (evicts key f) = (evict_variant c key f).0
  step c (flushes_name name) = flush_name c name
  step c (flushes_suffix suffix) = flush_suffix c suffix
  step c flushes_all = flush_all c
  step c maintains = run_maintenance c

  -- The latest call stands first.
  unfoldable pub run : DnsCache b → List (Call Msg) → DnsCache b
  unfolding step
  run c [] = c
  run c (call ∷ h) = step (run c h) call
