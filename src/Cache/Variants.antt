-- ===== src/Cache/Variants.antt =====
-- The list work of `DnsCache::record_variant` in src/cache/mod.rs.
use egressdns.Prelude.{
  Bool, List, [], drop, false, if◌then◌else◌, leb, length, ltb, not, ℕ, ◌&&◌, ◌++◌, ◌-◌, ◌==◌, ◌||◌,
  ◌∷◌,
}
pub mod Bounds
pub mod Distinct
pub mod Oldest
use egressdns.Cache.Entry.{VariantRecord, is_valid}

module _ {Msg : Type 0} where
  -- `.iter().any(|v| v.fingerprint == fingerprint)`.
  unfoldable pub has_fingerprint : ℕ → List (VariantRecord Msg) → Bool
  has_fingerprint f [] = false
  has_fingerprint f (v ∷ vs) = v.fingerprint == f || has_fingerprint f vs

  -- `.retain(|v| v.fingerprint != fingerprint && v.is_valid(now))`.
  unfoldable pub retain_others : ℕ → ℕ → List (VariantRecord Msg) → List (VariantRecord Msg)
  retain_others f now [] = []
  retain_others f now (v ∷ vs) =
      let rest = retain_others f now vs in
      if not (v.fingerprint == f) && is_valid v now then v ∷ rest else rest

  pub insert_by_age : VariantRecord Msg → List (VariantRecord Msg) → List (VariantRecord Msg)
  insert_by_age v [] = v ∷ []
  insert_by_age v (w ∷ ws) =
      if leb v.observed_at w.observed_at then v ∷ w ∷ ws else w ∷ insert_by_age v ws

  -- `sort_by_key(|v| v.observed_at)`, which is stable.
  unfoldable pub sort_by_age : List (VariantRecord Msg) → List (VariantRecord Msg)
  unfolding insert_by_age
  sort_by_age [] = []
  sort_by_age (v ∷ vs) = insert_by_age v (sort_by_age vs)

  -- Above the limit the oldest observations go.
  unfoldable pub trim_variants : ℕ → List (VariantRecord Msg) → List (VariantRecord Msg)
  unfolding sort_by_age
  trim_variants limit vs =
      if ltb limit (length vs)
      then (let sorted = sort_by_age vs in drop (length sorted - limit) sorted)
      else vs

  unfoldable pub updated_variants :
      ℕ → VariantRecord Msg → ℕ → List (VariantRecord Msg) → List (VariantRecord Msg)
  unfolding retain_others trim_variants
  updated_variants limit record' now vs =
      trim_variants limit (retain_others record'.fingerprint now vs ++ record' ∷ [])
