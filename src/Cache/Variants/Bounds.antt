-- ===== src/Cache/Variants/Bounds.antt =====
-- What `DnsCache::record_variant` (src/cache/mod.rs) keeps: at most four variants, no fingerprint
-- twice, the oldest dropped first.
use egressdns.Prelude.{
  List, [], arith, drop, false, length, length-drop, min, refl, suc, zero, ℕ, ◌+◌, ◌-◌, ◌∷◌, ◌≡◌,
  ◌≤◌,
}
use egressdns.Cache.Entry.{VariantRecord}
use egressdns.Cache.Variants.{has_fingerprint, insert_by_age, sort_by_age, trim_variants}

module _ {Msg : Type 0} where
  -- No two variants have one fingerprint.
  abbrev pub Distinct : List (VariantRecord Msg) → Type 0
  Distinct [] = Unit {0}
  Distinct (v ∷ vs) = (has_fingerprint v.fingerprint vs ≡ false) × Distinct vs

  -- Everything in the list holds.
  abbrev pub All : (VariantRecord Msg → Type 0) → List (VariantRecord Msg) → Type 0
  All P [] = Unit {0}
  All P (v ∷ vs) = P v × All P vs

  length-insert_by_age :
      (v : VariantRecord Msg) (ws : List (VariantRecord Msg))
      → length (insert_by_age v ws) ≡ length ws + 1
  unfolding insert_by_age
  length-insert_by_age v [] = omega arith
  length-insert_by_age v (w ∷ ws) = ground (arith, length-insert_by_age v ws)

  length-sort_by_age : (vs : List (VariantRecord Msg)) → length (sort_by_age vs) ≡ length vs
  unfolding sort_by_age
  length-sort_by_age [] = refl
  length-sort_by_age (v ∷ vs) =
      omega (arith, length-insert_by_age v (sort_by_age vs), length-sort_by_age vs)

  pub length-trim_variants :
      (limit : ℕ) (vs : List (VariantRecord Msg))
      → length (trim_variants limit vs) ≡ min limit (length vs)
  unfolding trim_variants
  length-trim_variants limit vs =
      ground (
        arith,
        length-drop (length (sort_by_age vs) - limit) (sort_by_age vs),
        length-sort_by_age vs,
      )

  -- Sorted by age of observation.
  abbrev pub Ascending : List (VariantRecord Msg) → Type 0
  Ascending [] = Unit {0}
  Ascending (v ∷ vs) = All (λ w. v.observed_at ≤ w.observed_at) vs × Ascending vs

  pub All-insert_by_age :
      (P : VariantRecord Msg → Type 0) (v : VariantRecord Msg) (ws : List (VariantRecord Msg))
      → P v
      → All P ws
      → All P (insert_by_age v ws)
  unfolding insert_by_age
  All-insert_by_age P v [] p a = (p, tt)
  All-insert_by_age P v (w ∷ ws) p a = ground (arith, All-insert_by_age P v ws p a.1)

  All-sort_by_age :
      (P : VariantRecord Msg → Type 0) (vs : List (VariantRecord Msg))
      → All P vs
      → All P (sort_by_age vs)
  unfolding sort_by_age
  All-sort_by_age P [] a = tt
  All-sort_by_age P (v ∷ vs) a =
      All-insert_by_age P v (sort_by_age vs) a.0 (All-sort_by_age P vs a.1)

  pub All-drop :
      (P : VariantRecord Msg → Type 0) (n : ℕ) (vs : List (VariantRecord Msg))
      → All P vs
      → All P (drop n vs)
  All-drop P zero vs a = a
  All-drop P (suc n) [] a = tt
  All-drop P (suc n) (v ∷ vs) a = All-drop P n vs a.1
