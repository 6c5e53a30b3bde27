-- ===== src/Cache/History/Provenance.antt =====
-- Where the answers that `DnsCache` (src/cache/mod.rs) serves come from.
use egressdns.Prelude.{
  List, Option, [], ap, arith, inl, inr, none, refl, some, subst, sym, ℕ, ◌∙◌, ◌∷◌, ◌≡◌, ◌≢◌, ◌⊎◌,
}
use egressdns.Cache.Entry.{DnssecStatus, bogus, CacheKey, CacheEntry, Lookup, fresh, stale, miss}
use egressdns.Cache.Dns.{ServeStaleConfig, Backends, DnsCache, new, classify, get}
use egressdns.Cache.History.{Call, inserts, promotes, run}
use egressdns.Cache.History.Effect.{Effect, untouched, written, restated, Holds, step-Effect}

module _ {Msg : Type 0} where
  -- `e` was handed to `insert` under `key`, and was not Bogus then.
  abbrev pub Inserted : CacheKey → CacheEntry Msg → List (Call Msg) → Type 0
  Inserted key e [] = ⊥
  Inserted key e (inserts k e' ∷ h) = ((k ≡ key) × (e' ≡ e) × (e.dnssec ≢ bogus)) ⊎ Inserted key e h
  Inserted key e (_ ∷ h) = Inserted key e h

  -- A verdict `status` was handed to `promote` for this key and this answer.
  abbrev pub Promoted : CacheKey → ℕ → DnssecStatus → List (Call Msg) → Type 0
  Promoted key fingerprint status [] = ⊥
  Promoted key fingerprint status (promotes k f s ∷ h) =
      ((k ≡ key) × (f ≡ fingerprint) × (s ≡ status)) ⊎ Promoted key fingerprint status h
  Promoted key fingerprint status (_ ∷ h) = Promoted key fingerprint status h

  -- Where a stored entry comes from: an insertion under the same key, changed at most in its DNSSEC
  -- state, and there by a verdict about this very answer.
  pub record Origin (key : CacheKey) (e : CacheEntry Msg) (h : List (Call Msg)) : Type 0 where
    pub received : CacheEntry Msg
    pub inserted : Inserted key received h
    pub same : e ≡ record received { dnssec = e.dnssec }
    pub status : (e.dnssec ≡ received.dnssec) ⊎ Promoted key e.fingerprint e.dnssec h

  Inserted-cons :
      (call : Call Msg) (h : List (Call Msg)) (key : CacheKey) (e : CacheEntry Msg)
      → Inserted key e h
      → Inserted key e (call ∷ h)
  Inserted-cons (inserts k v) h key e i = inr i
  Inserted-cons _ h key e i = i

  Promoted-cons :
      (call : Call Msg) (h : List (Call Msg)) (key : CacheKey) (f : ℕ) (s : DnssecStatus)
      → Promoted key f s h
      → Promoted key f s (call ∷ h)
  Promoted-cons (promotes k g r) h key f s i = inr i
  Promoted-cons _ h key f s i = i

  Inserted-clean :
      (h : List (Call Msg)) (key : CacheKey) (e : CacheEntry Msg)
      → Inserted key e h
      → e.dnssec ≢ bogus
  Inserted-clean [] key e i = absurd i
  Inserted-clean (inserts k v ∷ h) key e (inl (_, _, clean)) = clean
  Inserted-clean (inserts k v ∷ h) key e (inr i) = Inserted-clean h key e i
  Inserted-clean (_ ∷ h) key e i = Inserted-clean h key e i

  Origin-cons :
      (call : Call Msg) {h : List (Call Msg)} {key : CacheKey} {e : CacheEntry Msg}
      → Origin key e h
      → Origin key e (call ∷ h)
  Origin-cons call {h} {key} {e} o = record {
    received = o.received;
    inserted = Inserted-cons call h key o.received o.inserted;
    same = o.same;
    status = elim o.status [
      | inl s ↦ inl s
      | inr p ↦ inr (Promoted-cons call h key e.fingerprint e.dnssec p)
    ];
  }

  Origin-step :
      {b : Backends Msg} {c : DnsCache b} {key : CacheKey} {e : CacheEntry Msg} {call : Call Msg}
      (h : List (Call Msg))
      → Effect c key e call
      → ((old : CacheEntry Msg) → Holds c key old → Origin key old h)
      → Origin key e (call ∷ h)
  unfolding Holds
  Origin-step {call = call} h (untouched before) o = Origin-cons call (o _ before)
  Origin-step {key = key} {e = e} h (written p clean) o =
      subst (λ call. Origin key e (call ∷ h)) (sym p)
        (record {
          received = e;
          inserted = inl (refl, refl, clean);
          same = refl;
          status = inl refl;
        })
  Origin-step {key = key} {e = e} h (restated old p before q) o =
      let w = o old before in
      subst (λ call. Origin key e (call ∷ h)) (sym p)
        (record {
          received = w.received;
          inserted = w.inserted;
          same = q ∙ ap (λ (x : CacheEntry Msg). record x { dnssec = e.dnssec }) w.same;
          status = inr (inl (refl, ap (λ (x : CacheEntry Msg). x.fingerprint) (sym q), refl));
        })

-- The answer that a lookup hands out.
abbrev pub served : {Msg : Type 0} → Lookup Msg → Option (CacheEntry Msg)
served (fresh e r) = some e
served (stale e s) = some e
served miss = none

served-get :
    {Msg : Type 0} {b : Backends Msg} (c : DnsCache b) (key : CacheKey) (now : ℕ)
    {e : CacheEntry Msg}
    → served (get c key now) ≡ some e
    → b.answers.get c.answers key ≡ some e
unfolding get classify
served-get c key now h = ground arith

module _ {Msg : Type 0} (b : Backends Msg) (config : ServeStaleConfig) (max_ttl : ℕ) where
  -- After any history of calls on a new cache.
  run-Origin :
      (h : List (Call Msg)) (key : CacheKey) (e : CacheEntry Msg)
      → b.answers.get (run (new {b = b} config max_ttl) h).answers key ≡ some e
      → Origin key e h
  unfolding run new Holds
  run-Origin [] key e held = absurd (ground (arith, b.answers.get-build key))
  run-Origin (call ∷ h) key e held =
      Origin-step h (step-Effect {b = b} (run (new {b = b} config max_ttl) h) call key e held)
        (run-Origin h key)

  -- No Bogus answer is stored, unless `promote` was told so.
  stored_clean :
      (h : List (Call Msg)) (key : CacheKey) (e : CacheEntry Msg)
      → ((f : ℕ) → ¬ Promoted key f bogus h)
      → b.answers.get (run (new {b = b} config max_ttl) h).answers key ≡ some e
      → e.dnssec ≢ bogus
  stored_clean h key e none_told held wrong =
      let o = run-Origin h key e held in
      elim o.status [
        | inl kept ↦ Inserted-clean h key o.received o.inserted (sym kept ∙ wrong)
        | inr told ↦
            none_told e.fingerprint (subst (λ s. Promoted key e.fingerprint s h) wrong told)
      ]

  -- After any history of calls on a new cache, an answer that a lookup serves, fresh or stale, was
  -- inserted under that same key, not Bogus, and is unchanged since but for a DNSSEC state that a
  -- verdict about this key and this answer's fingerprint has written. If `promote` was never told
  -- Bogus about this key, the answer is not Bogus.
  pub served-Origin :
      (h : List (Call Msg)) (key : CacheKey) (now : ℕ) (e : CacheEntry Msg)
      → served (get (run (new {b = b} config max_ttl) h) key now) ≡ some e
      → Origin key e h × (((f : ℕ) → ¬ Promoted key f bogus h) → e.dnssec ≢ bogus)
  served-Origin h key now e found =
      let held = served-get (run (new {b = b} config max_ttl) h) key now found in
      (run-Origin h key e held, λ none_told. stored_clean h key e none_told held)
