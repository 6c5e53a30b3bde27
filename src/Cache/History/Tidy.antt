-- ===== src/Cache/History/Tidy.antt =====
-- The variant sets of `DnsCache` (src/cache/mod.rs) over any history of calls.
use egressdns.Prelude.{
  Bool, List, Option-cases, [], arith, inl, inr, length, none, refl, some, subst, sym, ℕ, ◌∙◌, ◌∷◌,
  ◌≡◌, ◌≤◌, ◌⊎◌,
}
use mathlib.Core.Option
use egressdns.Cache.Moka.{get-insert_some}
use egressdns.Cache.Variants.Bounds.{Distinct}
use egressdns.Cache.Variants.Distinct.{updated_variants-Distinct}
use egressdns.Cache.Variants.Oldest.{length-updated_variants-le}
use egressdns.Cache.Entry.{CacheKey, VariantRecord, VariantSet, no_variants}
use egressdns.Cache.Dns.{
  ServeStaleConfig, Backends, DnsCache, new, max_variants_per_key, insert, record_failure,
  clear_failure, failure, record_variant, set_selected_variant, selected_discrete, invalidate_where,
  flush_name, flush_suffix, flush_all, run_maintenance, promote, evict_variant,
}
use egressdns.Cache.History.{
  Call, inserts, records_failure, clears_failure, asks_failure, records_variant, selects_variant,
  promotes, evicts, flushes_name, flushes_suffix, flushes_all, maintains, step, run,
}

module _ {Msg : Type 0} where
  pub record IsTidy (s : VariantSet Msg) : Type 0 where
    pub bounded : length s.variants ≤ max_variants_per_key
    pub distinct : Distinct s.variants

module _ {Msg : Type 0} {b : Backends Msg} where
  AllTidy : DnsCache b → Type 0
  AllTidy c =
      (key : CacheKey) (s : VariantSet Msg) → b.variants.get c.variants key ≡ some s → IsTidy s

  insert-AllTidy :
      (c : DnsCache b) (k : CacheKey) (s : VariantSet Msg)
      → AllTidy c
      → IsTidy s
      → AllTidy (record c { variants = b.variants.insert k s c.variants })
  unfolding AllTidy
  insert-AllTidy c k s all tidy key s' h =
      elim (get-insert_some b.variants {k = key} {j = k} {v = s} {w = s'} {s = c.variants} h) [
        | inl (_, e) ↦ subst IsTidy (sym e) tidy
        | inr (_, old) ↦ all key s' old
      ]

  stored-IsTidy :
      (c : DnsCache b) (k : CacheKey)
      → AllTidy c
      → IsTidy (Option.get_or (b.variants.get c.variants k) no_variants)
  unfolding AllTidy
  stored-IsTidy c k all = elim (Option-cases (b.variants.get c.variants k)) [
    | inl e ↦ rw e (record { bounded = omega arith; distinct = tt })
    | inr (s, e) ↦ rw e (all k s e)
  ]

  record_variant-AllTidy :
      (c : DnsCache b) (k : CacheKey) (v : VariantRecord Msg) (now : ℕ)
      → AllTidy c
      → AllTidy (record_variant c k v now).0
  unfolding record_variant
  record_variant-AllTidy c k v now all =
      let vs = (Option.get_or (b.variants.get c.variants k) no_variants).variants in
      insert-AllTidy c k _ all (record {
        bounded = length-updated_variants-le max_variants_per_key v now vs;
        distinct =
            updated_variants-Distinct max_variants_per_key v now vs
              (stored-IsTidy c k all).distinct;
      })

  set_selected-AllTidy :
      (c : DnsCache b) (k : CacheKey) (f now : ℕ)
      → AllTidy c
      → AllTidy (set_selected_variant c k f now)
  unfolding set_selected_variant
  set_selected-AllTidy c k f now all = elim (Option-cases (b.variants.get c.variants k)) [
    | inl e ↦
        let same : set_selected_variant c k f now ≡ c = rw (e, set_selected_variant) refl in
        subst AllTidy (sym same) all
    | inr (s, e) ↦
        let w : DnsCache b = record c {
          variants =
              b.variants.insert k (record s { selected = some f; selected_at = some now })
                c.variants;
        } in
        let t : IsTidy s = unfold AllTidy in all k s e in
        let tidy : AllTidy w =
          insert-AllTidy c k _ all (record { bounded = t.bounded; distinct = t.distinct }) in
        elim (selected_discrete s.selected (some f)) [
          | yes p ↦
              let same : set_selected_variant c k f now ≡ c =
                rw (e, set_selected_variant) (ground arith) in
              subst AllTidy (sym same) all
          | no p ↦
              let moved : set_selected_variant c k f now ≡ w =
                rw (e, set_selected_variant) (ground arith) in
              subst AllTidy (sym moved) tidy
        ]
  ]

  -- A call that writes no variant set leaves what is stored, or gives some of it up.
  weaker-AllTidy :
      (c c' : DnsCache b)
      → ((key : CacheKey)
          → (b.variants.get c'.variants key ≡ none)
            ⊎ (b.variants.get c'.variants key ≡ b.variants.get c.variants key))
      → AllTidy c
      → AllTidy c'
  unfolding AllTidy
  weaker-AllTidy c c' fewer all key s h = elim (fewer key) [
    | inl gone ↦ cc
    | inr same ↦ all key s (sym same ∙ h)
  ]

  flush-AllTidy :
      (c : DnsCache b) (p : CacheKey → Bool) → AllTidy c → AllTidy (invalidate_where p c)
  unfolding invalidate_where
  flush-AllTidy c p = weaker-AllTidy c _ λ key.
      elim (b.variants.get-invalidate_if key p c.variants) [
        | inl gone ↦ inl gone
        | inr (same, _) ↦ inr same
      ]

  step-AllTidy : (c : DnsCache b) (call : Call Msg) → AllTidy c → AllTidy (step c call)
  unfolding step
  step-AllTidy c (records_variant k v now) = record_variant-AllTidy c k v now
  step-AllTidy c (selects_variant k f now) = set_selected-AllTidy c k f now
  step-AllTidy c (flushes_name name) = unfold flush_name in flush-AllTidy c _
  step-AllTidy c (flushes_suffix suffix) = unfold flush_suffix in flush-AllTidy c _
  step-AllTidy c flushes_all =
      unfold flush_all in
      weaker-AllTidy c _ λ key. inl (b.variants.get-invalidate_all key c.variants)
  step-AllTidy c maintains =
      unfold run_maintenance in
      weaker-AllTidy c _ λ key. b.variants.get-run_pending_tasks key c.variants
  step-AllTidy c (inserts k e) = weaker-AllTidy c _ λ key. inr (unfold insert in ground arith)
  step-AllTidy c (records_failure k f) =
      weaker-AllTidy c _ λ key. inr (unfold record_failure in refl)
  step-AllTidy c (clears_failure k) = weaker-AllTidy c _ λ key. inr (unfold clear_failure in refl)
  step-AllTidy c (asks_failure k now) =
      weaker-AllTidy c _ λ key. inr (unfold failure clear_failure in ground arith)
  step-AllTidy c (promotes k f s) = weaker-AllTidy c _ λ key. inr (unfold promote in ground arith)
  step-AllTidy c (evicts k f) = weaker-AllTidy c _ λ key. inr (unfold evict_variant in ground arith)

module _ {Msg : Type 0} (b : Backends Msg) (config : ServeStaleConfig) (max_ttl : ℕ) where
  run-AllTidy : (h : List (Call Msg)) → AllTidy (run (new {b = b} config max_ttl) h)
  unfolding run new AllTidy
  run-AllTidy [] = λ key s held. absurd (ground (arith, b.variants.get-build key))
  run-AllTidy (call ∷ h) =
      step-AllTidy {b = b} (run (new {b = b} config max_ttl) h) call (run-AllTidy h)

  -- After any history of calls on a new cache, a stored variant set holds at most four variants and
  -- no fingerprint twice.
  pub run-IsTidy :
      (h : List (Call Msg)) (key : CacheKey) (s : VariantSet Msg)
      → b.variants.get (run (new {b = b} config max_ttl) h).variants key ≡ some s
      → IsTidy s
  unfolding AllTidy
  run-IsTidy h key s held = run-AllTidy h key s held
