-- ===== src/Cache/Variants/Distinct.antt =====
-- No fingerprint stands twice in what `DnsCache::record_variant` (src/cache/mod.rs) keeps.
use egressdns.Prelude.{
  List, [], arith, drop, false, length, refl, suc, zero, ℕ, ◌++◌, ◌-◌, ◌==◌, ◌||◌, ◌∙◌, ◌∷◌, ◌≡◌,
}
use egressdns.Cache.Entry.{VariantRecord}
use egressdns.Cache.Variants.{
  has_fingerprint, retain_others, insert_by_age, sort_by_age, trim_variants, updated_variants,
}
use egressdns.Cache.Variants.Bounds.{Distinct}

module _ {Msg : Type 0} where
  has_fingerprint-insert :
      (f : ℕ) (v : VariantRecord Msg) (ws : List (VariantRecord Msg))
      → has_fingerprint f (insert_by_age v ws) ≡ (v.fingerprint == f || has_fingerprint f ws)
  unfolding has_fingerprint insert_by_age
  has_fingerprint-insert f v [] = refl
  has_fingerprint-insert f v (w ∷ ws) = ground (arith, has_fingerprint-insert f v ws)

  has_fingerprint-sort :
      (f : ℕ) (vs : List (VariantRecord Msg))
      → has_fingerprint f (sort_by_age vs) ≡ has_fingerprint f vs
  unfolding sort_by_age has_fingerprint
  has_fingerprint-sort f [] = refl
  has_fingerprint-sort f (v ∷ vs) =
      ground (arith, has_fingerprint-insert f v (sort_by_age vs), has_fingerprint-sort f vs)

  has_fingerprint-retain :
      (g f now : ℕ) (vs : List (VariantRecord Msg))
      → has_fingerprint g vs ≡ false
      → has_fingerprint g (retain_others f now vs) ≡ false
  unfolding retain_others has_fingerprint
  has_fingerprint-retain g f now [] h = refl
  has_fingerprint-retain g f now (v ∷ vs) h = ground (arith, has_fingerprint-retain g f now vs)

  has_fingerprint-retain_self :
      (f now : ℕ) (vs : List (VariantRecord Msg))
      → has_fingerprint f (retain_others f now vs) ≡ false
  unfolding retain_others has_fingerprint
  has_fingerprint-retain_self f now [] = refl
  has_fingerprint-retain_self f now (v ∷ vs) = ground (arith, has_fingerprint-retain_self f now vs)

  has_fingerprint-append :
      (f : ℕ) (vs ws : List (VariantRecord Msg))
      → has_fingerprint f (vs ++ ws) ≡ (has_fingerprint f vs || has_fingerprint f ws)
  unfolding has_fingerprint
  has_fingerprint-append f [] ws = refl
  has_fingerprint-append f (v ∷ vs) ws = ground (arith, has_fingerprint-append f vs ws)

  Distinct-insert :
      (v : VariantRecord Msg) (ws : List (VariantRecord Msg))
      → has_fingerprint v.fingerprint ws ≡ false
      → Distinct ws
      → Distinct (insert_by_age v ws)
  unfolding insert_by_age has_fingerprint
  Distinct-insert v [] h d = (refl, tt)
  Distinct-insert v (w ∷ ws) h d =
      ground (arith, Distinct-insert v ws, has_fingerprint-insert w.fingerprint v ws)

  Distinct-sort : (vs : List (VariantRecord Msg)) → Distinct vs → Distinct (sort_by_age vs)
  unfolding sort_by_age
  Distinct-sort [] d = tt
  Distinct-sort (v ∷ vs) d =
      Distinct-insert v (sort_by_age vs) (has_fingerprint-sort v.fingerprint vs ∙ d.0)
        (Distinct-sort vs d.1)

  Distinct-drop : (n : ℕ) (vs : List (VariantRecord Msg)) → Distinct vs → Distinct (drop n vs)
  Distinct-drop zero vs d = d
  Distinct-drop (suc n) [] d = tt
  Distinct-drop (suc n) (v ∷ vs) d = Distinct-drop n vs d.1

  Distinct-retain :
      (f now : ℕ) (vs : List (VariantRecord Msg)) → Distinct vs → Distinct (retain_others f now vs)
  unfolding retain_others
  Distinct-retain f now [] d = tt
  Distinct-retain f now (v ∷ vs) d =
      ground
        (arith, Distinct-retain f now vs d.1, has_fingerprint-retain v.fingerprint f now vs d.0)

  Distinct-append_one :
      (vs : List (VariantRecord Msg)) (w : VariantRecord Msg)
      → has_fingerprint w.fingerprint vs ≡ false
      → Distinct vs
      → Distinct (vs ++ w ∷ [])
  unfolding has_fingerprint
  Distinct-append_one [] w h d = (refl, tt)
  Distinct-append_one (v ∷ vs) w h d =
      ground (arith, Distinct-append_one vs w, has_fingerprint-append v.fingerprint vs (w ∷ []))

  Distinct-trim :
      (limit : ℕ) (vs : List (VariantRecord Msg)) → Distinct vs → Distinct (trim_variants limit vs)
  unfolding trim_variants
  Distinct-trim limit vs d =
      ground (
        arith,
        Distinct-drop (length (sort_by_age vs) - limit) (sort_by_age vs) (Distinct-sort vs d),
      )

  pub updated_variants-Distinct :
      (limit : ℕ) (v : VariantRecord Msg) (now : ℕ) (vs : List (VariantRecord Msg))
      → Distinct vs
      → Distinct (updated_variants limit v now vs)
  unfolding updated_variants
  updated_variants-Distinct limit v now vs d = Distinct-trim limit _ (
      Distinct-append_one (retain_others v.fingerprint now vs) v
        (has_fingerprint-retain_self v.fingerprint now vs) (Distinct-retain v.fingerprint now vs d))
