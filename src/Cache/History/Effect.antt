-- ===== src/Cache/History/Effect.antt =====
-- What one call of a history (src/cache/mod.rs) makes of the stored answers.
use egressdns.Prelude.{Bool, ap, arith, inl, inr, some, subst, sym, ℕ, ◌∙◌, ◌≡◌, ◌≢◌}
use egressdns.Cache.Moka.{get-insert_some}
use egressdns.Cache.Verdicts.{promote-effect}
use egressdns.Cache.Entry.{DnssecStatus, bogus, DnssecStatus-discrete, CacheKey, CacheEntry}
use egressdns.Cache.Dns.{
  Backends, DnsCache, insert, record_failure, clear_failure, failure, record_variant,
  set_selected_variant, invalidate_where, flush_name, flush_suffix, flush_all, run_maintenance,
  promote, evict_variant,
}
use egressdns.Cache.History.{
  Call, inserts, records_failure, clears_failure, asks_failure, records_variant, selects_variant,
  promotes, evicts, flushes_name, flushes_suffix, flushes_all, maintains, step,
}

module _ {Msg : Type 0} {b : Backends Msg} where
  -- Where what is stored after one call was before it.
  pub data Effect (c : DnsCache b) (key : CacheKey) (e : CacheEntry Msg) : Call Msg → Type 0 where
    untouched : {call : Call Msg} → b.answers.get c.answers key ≡ some e → Effect c key e call
    written : {call : Call Msg} → call ≡ inserts key e → e.dnssec ≢ bogus → Effect c key e call
    restated :
        (old : CacheEntry Msg) {call : Call Msg}
        → call ≡ promotes key old.fingerprint e.dnssec
        → b.answers.get c.answers key ≡ some old
        → e ≡ record old { dnssec = e.dnssec }
        → Effect c key e call

  unfoldable pub Holds : DnsCache b → CacheKey → CacheEntry Msg → Type 0
  Holds c key e = b.answers.get c.answers key ≡ some e

  answers-failure :
      (c : DnsCache b) (k : CacheKey) (now : ℕ) → (failure c k now).0.answers ≡ c.answers
  unfolding failure clear_failure
  answers-failure c k now = ground arith

  answers-set_selected :
      (c : DnsCache b) (k : CacheKey) (f now : ℕ)
      → (set_selected_variant c k f now).answers ≡ c.answers
  unfolding set_selected_variant
  answers-set_selected c k f now = ground arith

  insert-Effect :
      (c : DnsCache b) (k key : CacheKey) (v e : CacheEntry Msg)
      → b.answers.get (insert c k v).answers key ≡ some e
      → Effect c key e (inserts k v)
  unfolding insert
  insert-Effect c k key v e h = elim (DnssecStatus-discrete v.dnssec bogus) [
    | yes p ↦ untouched (ground arith)
    | no p ↦
        elim (get-insert_some b.answers {k = key} {j = k} {v = v} {w = e} {s = c.answers}
          (ground arith)) [ inl (s, t) ↦ written (cc) (rw t p) | inr (_, old) ↦ untouched old ]
  ]

  promote-Effect :
      (c : DnsCache b) (k key : CacheKey) (f : ℕ) (status : DnssecStatus) (e : CacheEntry Msg)
      → b.answers.get (promote c k f status).0.answers key ≡ some e
      → Effect c key e (promotes k f status)
  unfolding Holds
  promote-Effect c k key f status e h = elim (promote-effect c k f status) [
    | inl (old, found, same, _, _, _, written') ↦ elim (written' key e h) [
      | inl (p, q) ↦
          let s : e.dnssec ≡ status = ap (λ (x : CacheEntry Msg). x.dnssec) q in
          restated old (cc) (rw p found) (q ∙ ap (λ x. record old { dnssec = x }) (sym s))
      | inr (_, before) ↦ untouched before
    ]
    | inr (_, _, unchanged) ↦ untouched (subst (λ (r : DnsCache b). Holds r key e) unchanged h)
  ]

  evict-Effect :
      (c : DnsCache b) (k key : CacheKey) (f : ℕ) (e : CacheEntry Msg)
      → Holds (evict_variant c k f).0 key e
      → Holds c key e
  unfolding evict_variant Holds
  evict-Effect c k key f e h = grind (arith, b.answers.get-invalidate key k c.answers)

  flush-Effect :
      (c : DnsCache b) (p : CacheKey → Bool) (key : CacheKey) (e : CacheEntry Msg)
      → Holds (invalidate_where p c) key e
      → Holds c key e
  unfolding invalidate_where Holds
  flush-Effect c p key e h = grind (arith, b.answers.get-invalidate_if key p c.answers)

  pub step-Effect :
      (c : DnsCache b) (call : Call Msg) (key : CacheKey) (e : CacheEntry Msg)
      → Holds (step c call) key e
      → Effect c key e call
  unfolding step Holds
  step-Effect c (inserts k v) key e h = insert-Effect c k key v e h
  step-Effect c (records_failure k f) key e h = untouched (unfold record_failure in h)
  step-Effect c (clears_failure k) key e h = untouched (unfold clear_failure in h)
  step-Effect c (asks_failure k now) key e h = untouched (rw answers-failure at h)
  step-Effect c (records_variant k v now) key e h = untouched (unfold record_variant in h)
  step-Effect c (selects_variant k f now) key e h = untouched (rw answers-set_selected at h)
  step-Effect c (promotes k f status) key e h = promote-Effect c k key f status e h
  step-Effect c (evicts k f) key e h = untouched (evict-Effect c k key f e h)
  step-Effect c (flushes_name name) key e h =
      untouched (unfold flush_name in flush-Effect c _ key e h)
  step-Effect c (flushes_suffix suffix) key e h =
      untouched (unfold flush_suffix in flush-Effect c _ key e h)
  step-Effect c flushes_all key e h =
      untouched (unfold flush_all in ground (arith, b.answers.get-invalidate_all key c.answers))
  step-Effect c maintains key e h =
      untouched
        (unfold run_maintenance in ground (arith, b.answers.get-run_pending_tasks key c.answers))
