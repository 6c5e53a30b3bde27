-- ===== src/Cache/Flush.antt =====
-- `flush_name` and `flush_suffix` of src/cache/mod.rs.
use egressdns.Prelude.{
  Bool, Bool-cases, List, arith, false, inl, inr, none, refl, sym, true, ℕ, ◌++◌, ◌↔◌, ◌∙◌, ◌∷◌,
  ◌≡◌, ◌⊎◌,
}
use mathlib.Core.Bool.{false≢true}
use egressdns.Cache.Name.{normalize_name, name_in_suffix, str_eq}
use egressdns.Cache.Name.Laws.{dot, name_in_suffix_iff, str_eq_iff}
use egressdns.Cache.Entry.{CacheKey, miss}
use egressdns.Cache.Dns.{
  Backends, DnsCache, get, failure, invalidate_where, flush_name, flush_suffix,
}

-- `n` is `s`, or stands beneath it, or `s` is the root.
abbrev pub Beneath : List ℕ → List ℕ → Type 0
Beneath n s = (n ≡ s) ⊎ (s ≡ dot) ⊎ ((p : List ℕ) × (n ≡ p ++ b'.' ∷ s))

module _ {Msg : Type 0} {b : Backends Msg} where
  -- Nothing is found under the key in any of the three caches, at any time.
  abbrev pub Gone : DnsCache b → CacheKey → Type 0
  Gone c key =
      ((now : ℕ) → get c key now ≡ miss)
      × ((now : ℕ) → (failure c key now).1 ≡ none)
      × (b.variants.get c.variants key ≡ none)

  Gone-of_empty :
      (c : DnsCache b) (key : CacheKey)
      → b.answers.get c.answers key ≡ none
      → b.failures.get c.failures key ≡ none
      → b.variants.get c.variants key ≡ none
      → Gone c key
  unfolding get failure
  Gone-of_empty c key a f v = (λ now. rw (a, get) refl, λ now. rw (f, failure) refl, v)

  invalidate_where-Gone :
      (p : CacheKey → Bool) (c : DnsCache b) (key : CacheKey)
      → p key ≡ true
      → Gone (invalidate_where p c) key
  unfolding invalidate_where
  invalidate_where-Gone p c key h =
      Gone-of_empty _ key (grind (arith, b.answers.get-invalidate_if key p c.answers))
        (grind (arith, b.failures.get-invalidate_if key p c.failures))
        (grind (arith, b.variants.get-invalidate_if key p c.variants))

  get-invalidate_where :
      (p : CacheKey → Bool) (c : DnsCache b) (key : CacheKey) (now : ℕ)
      → (get (invalidate_where p c) key now ≡ miss)
        ⊎ ((get (invalidate_where p c) key now ≡ get c key now) × (p key ≡ false))
  unfolding get invalidate_where
  get-invalidate_where p c key now = elim (b.answers.get-invalidate_if key p c.answers) [
    | inl gone ↦ inl (rw (gone, get) refl)
    | inr (same, out) ↦ inr (rw (same, get) refl, out)
  ]

  -- Every key whose name is the flushed name, in whatever case it was given, is gone from all three
  -- caches.
  pub flush_name-Gone :
      (c : DnsCache b) (name : List ℕ) (key : CacheKey)
      → key.name ≡ normalize_name name
      → Gone (flush_name c name) key
  unfolding flush_name
  flush_name-Gone c name key e =
      invalidate_where-Gone (λ k. str_eq k.name (normalize_name name)) c key ((str_eq_iff _ _).1 e)

  -- What moka is asked for: in each of the three caches, to invalidate exactly the keys of `P`.
  pub record Asked (P : CacheKey → Type 0) (c c' : DnsCache b) : Type 0 where
    pub asked : CacheKey → Bool
    pub exactly : (k : CacheKey) → (asked k ≡ true) ↔ P k
    pub answers : c'.answers ≡ b.answers.invalidate_entries_if asked c.answers
    pub failures : c'.failures ≡ b.failures.invalidate_entries_if asked c.failures
    pub variants : c'.variants ≡ b.variants.invalidate_entries_if asked c.variants
    pub serve_stale : c'.serve_stale ≡ c.serve_stale
    pub internal_max_ttl : c'.internal_max_ttl ≡ c.internal_max_ttl

  -- A flush of a suffix asks moka to invalidate, in each of the three caches, exactly the keys whose name
  -- is the suffix or stands beneath it at a label boundary. Nothing is found under any of these keys
  -- afterwards, in any of the three; what an answer lookup finds under another key it found before.
  pub flush_suffix-effect :
      (c : DnsCache b) (suffix : List ℕ) (key : CacheKey)
      → Asked (λ k. Beneath k.name (normalize_name suffix)) c (flush_suffix c suffix)
        × ((Beneath key.name (normalize_name suffix) × Gone (flush_suffix c suffix) key)
            ⊎ ((¬ Beneath key.name (normalize_name suffix))
                × ((now : ℕ)
                    → (get (flush_suffix c suffix) key now ≡ miss)
                      ⊎ (get (flush_suffix c suffix) key now ≡ get c key now))))
  flush_suffix-effect c suffix key = (
    unfold flush_suffix invalidate_where in
        record {
          asked = in_suffix;
          exactly = λ k. name_in_suffix_iff k.name (normalize_name suffix);
          answers = refl;
          failures = refl;
          variants = refl;
          serve_stale = refl;
          internal_max_ttl = refl;
        },
    unfold flush_suffix in
        elim (Bool-cases (in_suffix key)) [
          | inl e ↦ inl ((name_in_suffix_iff _ _).0 e, invalidate_where-Gone in_suffix c key e)
          | inr e ↦ inr (
            (λ h. false≢true (sym e ∙ (name_in_suffix_iff _ _).1 h)),
            λ now. elim (get-invalidate_where in_suffix c key now) [
              | inl gone ↦ inl gone
              | inr (same, out) ↦ inr same
            ],
          )
        ],
  )
    where
      in_suffix : CacheKey → Bool
      in_suffix k = name_in_suffix k.name (normalize_name suffix)
