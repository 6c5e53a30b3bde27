-- ===== src/Cache/Lossless.antt =====
-- A moka that gives nothing up, to run the cache of src/cache/mod.rs on.
use egressdns.Prelude.{
  Bool, Bool-cases, Option, false, if_neg, if_pos, if◌then◌else◌, inl, inr, ite, none, refl, some,
  ℕ, ◌≡◌, ◌≢◌, ◌⊎◌,
}
use egressdns.Cache.Moka.{MokaCache}
use egressdns.Cache.Entry.{CacheKey-discrete}
use egressdns.Cache.Dns.{Backends}

module _ {K V : Type 0} (dec : Discrete K) where
  pub hit_or_other :
      (k j : K) (v : V) (s : K → Option V)
      → (ite (dec k j) (some v) (s k) ≡ none)
        ⊎ (ite (dec k j) (some v) (s k) ≡ ite (dec k j) (some v) (s k))
  hit_or_other k j v s = inr refl

  pub dropped_or_other :
      (k j : K) (s : K → Option V)
      → (ite (dec k j) none (s k) ≡ none) ⊎ ((ite (dec k j) none (s k) ≡ s k) × (k ≢ j))
  dropped_or_other k j s = elim (dec k j) [
    | yes p ↦ inl (if_pos (dec k j) p none (s k))
    | no p ↦ inr (if_neg (dec k j) p none (s k), p)
  ]

  pub swept_or_other :
      (k : K) (p : K → Bool) (s : K → Option V)
      → ((if p k then none else s k) ≡ none) ⊎ (((if p k then none else s k) ≡ s k) × (p k ≡ false))
  swept_or_other k p s = elim (Bool-cases (p k)) [
    | inl h ↦ inl (rw h refl)
    | inr h ↦ inr (rw h refl, h)
  ]

  abbrev pub lossless : MokaCache K V dec
  lossless = record {
    Store = K → Option V;
    build = λ k. none;
    get = λ s k. s k;
    insert = λ j v s k. ite (dec k j) (some v) (s k);
    invalidate = λ j s k. ite (dec k j) none (s k);
    invalidate_entries_if = λ p s k. if p k then none else s k;
    invalidate_all = λ s k. none;
    run_pending_tasks = λ s. s;
    get-build = λ k. refl;
    get-insert = hit_or_other;
    get-invalidate = dropped_or_other;
    get-invalidate_if = swept_or_other;
    get-invalidate_all = λ k s. refl;
    get-run_pending_tasks = λ k s. inr refl;
  }

abbrev pub backends : Backends ℕ
backends = record {
  answers = lossless CacheKey-discrete;
  failures = lossless CacheKey-discrete;
  variants = lossless CacheKey-discrete;
}
