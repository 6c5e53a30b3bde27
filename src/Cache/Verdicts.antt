-- ===== src/Cache/Verdicts.antt =====
-- The write path of background validation in src/cache/mod.rs: `promote` and `evict_variant`.
use egressdns.Prelude.{
  Option-cases, ap, arith, false, inl, inr, none, refl, some, true, ℕ, ℕ_discrete, ◌≡◌, ◌≢◌, ◌⊎◌,
}
use egressdns.Cache.Moka.{get-invalidate_self, get-insert_some}
use egressdns.Cache.Entry.{DnssecStatus, DnssecStatus-discrete, CacheKey, CacheEntry, miss}
use egressdns.Cache.Dns.{Backends, DnsCache, get, promote, evict_variant}

module _ {Msg : Type 0} {b : Backends Msg} (c : DnsCache b) (key : CacheKey) (fingerprint : ℕ) where
  -- A verdict about the cached answer that changes its DNSSEC state writes that state, and nothing else,
  -- into that entry: the failures and the variants stay, and no other entry is written (moka may give
  -- entries up). A verdict about another answer, one that changes nothing, and one that comes when no
  -- answer is cached leave the cache as it was. The result tells the two apart.
  pub promote-effect :
      (status : DnssecStatus)
      → let (c', done) = promote c key fingerprint status in
        ((e : CacheEntry Msg) × (b.answers.get c.answers key ≡ some e)
          × (e.fingerprint ≡ fingerprint)
          × (e.dnssec ≢ status)
          × (done ≡ true)
          × (c' ≡ record c {
            answers = b.answers.insert key (record e { dnssec = status }) c.answers;
          })
          × ((k : CacheKey) (e' : CacheEntry Msg)
              → b.answers.get c'.answers k ≡ some e'
              → ((k ≡ key) × (e' ≡ record e { dnssec = status }))
                ⊎ ((k ≢ key) × (b.answers.get c.answers k ≡ some e'))))
        ⊎ (((b.answers.get c.answers key ≡ none)
              ⊎ ((e : CacheEntry Msg) × (b.answers.get c.answers key ≡ some e)
                  × ((e.fingerprint ≢ fingerprint) ⊎ (e.dnssec ≡ status))))
            × (done ≡ false)
            × (c' ≡ c))
  unfolding promote
  promote-effect status = elim (Option-cases (b.answers.get c.answers key)) [
    | inl gone ↦
        let q : promote c key fingerprint status ≡ (c, false) = rw (gone, promote) refl in
        inr (inl gone, ap (λ r. r.1) q, ap (λ r. r.0) q)
    | inr (e, found) ↦ elim (ℕ_discrete e.fingerprint fingerprint) [
      | no p ↦
          let q : promote c key fingerprint status ≡ (c, false) =
            rw (found, promote) (ground arith) in
          inr (inr (e, found, inl p), ap (λ r. r.1) q, ap (λ r. r.0) q)
      | yes p ↦ elim (DnssecStatus-discrete e.dnssec status) [
        | yes same ↦
            let q : promote c key fingerprint status ≡ (c, false) =
              rw (found, promote) (ground arith) in
            inr (inr (e, found, inr same), ap (λ r. r.1) q, ap (λ r. r.0) q)
        | no changed ↦
            let w : DnsCache b = record c {
              answers = b.answers.insert key (record e { dnssec = status }) c.answers;
            } in
            let q : promote c key fingerprint status ≡ (w, true) =
              rw (found, promote) (ground arith) in
            inl (
              e,
              found,
              p,
              changed,
              ap (λ r. r.1) q,
              ap (λ r. r.0) q,
              λ k e'. rw q (get-insert_some b.answers),
            )
      ]
    ]
  ]

  -- A Bogus verdict takes the entry out only if it is still the answer that was examined; after that
  -- no time finds it. A late verdict leaves the cache as it was.
  pub evict_variant-effect :
      {e : CacheEntry Msg}
      → b.answers.get c.answers key ≡ some e
      → let (c', done) = evict_variant c key fingerprint in
        ((e.fingerprint ≡ fingerprint) × (done ≡ true) × ((later : ℕ) → get c' key later ≡ miss))
        ⊎ ((e.fingerprint ≢ fingerprint) × (done ≡ false) × (c' ≡ c))
  unfolding evict_variant
  evict_variant-effect {e} found = elim (ℕ_discrete e.fingerprint fingerprint) [
    | no p ↦
        let q : evict_variant c key fingerprint ≡ (c, false) =
          rw (found, evict_variant) (ground arith) in
        inr (p, ap (λ r. r.1) q, ap (λ r. r.0) q)
    | yes p ↦
        let w : DnsCache b = record c { answers = b.answers.invalidate key c.answers } in
        let q : evict_variant c key fingerprint ≡ (w, true) =
          rw (found, evict_variant) (ground arith) in
        inl (p, ap (λ r. r.1) q, λ later. rw q (gone later))
  ]
    where
      gone :
          (later : ℕ)
          → get (record c { answers = b.answers.invalidate key c.answers }) key later ≡ miss
      gone later = unfold get in rw (get-invalidate_self b.answers key c.answers, get) refl
