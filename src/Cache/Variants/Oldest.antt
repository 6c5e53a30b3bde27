-- ===== src/Cache/Variants/Oldest.antt =====
-- `DnsCache::record_variant` (src/cache/mod.rs) drops the oldest observations, and only those.
use egressdns.Prelude.{
  Bool-cases, List, [], arith, drop, inl, inr, leb, length, ltb, min, suc, take, take-append-drop,
  zero, ℕ, ◌++◌, ◌-◌, ◌∷◌, ◌≡◌, ◌≤◌,
}
use mathlib.Core.List.{Perm}
use mathlib.Core.List.Perm
use egressdns.Cache.Entry.{VariantRecord}
use egressdns.Cache.Variants.{
  retain_others, insert_by_age, sort_by_age, trim_variants, updated_variants,
}
use egressdns.Cache.Variants.Bounds.{
  All, Ascending, All-insert_by_age, All-drop, length-trim_variants,
}

module _ {Msg : Type 0} where
  insert_by_age-perm :
      (v : VariantRecord Msg) (ws : List (VariantRecord Msg)) → Perm (insert_by_age v ws) (v ∷ ws)
  unfolding insert_by_age
  insert_by_age-perm v [] = Perm.refl _
  insert_by_age-perm v (w ∷ ws) =
      let swapped = Perm.trans (Perm.cons w (insert_by_age-perm v ws)) (Perm.swap v w ws) in
      elim (Bool-cases (leb v.observed_at w.observed_at)) [
        | inl first ↦ rw first (Perm.refl _)
        | inr later ↦ rw later swapped
      ]

  sort_by_age-perm : (vs : List (VariantRecord Msg)) → Perm (sort_by_age vs) vs
  unfolding sort_by_age
  sort_by_age-perm [] = Perm.refl _
  sort_by_age-perm (v ∷ vs) =
      Perm.trans (insert_by_age-perm v (sort_by_age vs)) (Perm.cons v (sort_by_age-perm vs))

  All-mono :
      (v w : VariantRecord Msg) (vs : List (VariantRecord Msg))
      → v.observed_at ≤ w.observed_at
      → All (λ x. w.observed_at ≤ x.observed_at) vs
      → All (λ x. v.observed_at ≤ x.observed_at) vs
  All-mono v w [] h a = tt
  All-mono v w (x ∷ vs) h a = (omega arith, All-mono v w vs h a.1)

  insert_by_age-Ascending :
      (v : VariantRecord Msg) (ws : List (VariantRecord Msg))
      → Ascending ws
      → Ascending (insert_by_age v ws)
  unfolding insert_by_age
  insert_by_age-Ascending v [] a = (tt, tt)
  insert_by_age-Ascending v (w ∷ ws) a = elim (Bool-cases (leb v.observed_at w.observed_at)) [
    | inl first ↦ rw first ((ground arith, All-mono v w ws (ground arith) a.0), a)
    | inr later ↦ rw later (
      All-insert_by_age (λ x. w.observed_at ≤ x.observed_at) v ws (ground arith) a.0,
      insert_by_age-Ascending v ws a.1,
    )
  ]

  sort_by_age-Ascending : (vs : List (VariantRecord Msg)) → Ascending (sort_by_age vs)
  unfolding sort_by_age
  sort_by_age-Ascending [] = tt
  sort_by_age-Ascending (v ∷ vs) =
      insert_by_age-Ascending v (sort_by_age vs) (sort_by_age-Ascending vs)

  -- Nothing in `gone` is younger than anything in `kept`.
  abbrev pub Older : List (VariantRecord Msg) → List (VariantRecord Msg) → Type 0
  Older gone kept = All (λ g. All (λ k. g.observed_at ≤ k.observed_at) kept) gone

  take-Older :
      (n : ℕ) (vs : List (VariantRecord Msg)) → Ascending vs → Older (take n vs) (drop n vs)
  take-Older zero vs a = tt
  take-Older (suc n) [] a = tt
  take-Older (suc n) (v ∷ vs) a =
      (All-drop (λ k. v.observed_at ≤ k.observed_at) n vs a.0, take-Older n vs a.1)

  trim_variants-Older :
      (limit : ℕ) (vs : List (VariantRecord Msg))
      → (gone : List (VariantRecord Msg)) × Perm (gone ++ trim_variants limit vs) vs
        × Older gone (trim_variants limit vs)
  unfolding trim_variants
  trim_variants-Older limit vs =
      let s = sort_by_age vs in
      let n = length s - limit in
      elim (Bool-cases (ltb limit (length vs))) [
        | inl over ↦ rw over (
          take n s,
          rw (take-append-drop n s) (sort_by_age-perm vs),
          take-Older n s (sort_by_age-Ascending vs),
        )
        | inr fits ↦ rw fits ([], Perm.refl vs, tt)
      ]

  -- Recording an observation keeps at most `limit` variants. What was stored, still valid and of
  -- another fingerprint, and the new observation, are kept but for some that are no younger than
  -- anything kept, and none is dropped while there is room.
  pub updated_variants-Older :
      (limit : ℕ) (v : VariantRecord Msg) (now : ℕ) (vs : List (VariantRecord Msg))
      → let offered = retain_others v.fingerprint now vs ++ v ∷ [] in
        let kept = updated_variants limit v now vs in
        (length kept ≡ min limit (length offered))
        × ((gone : List (VariantRecord Msg)) × Perm (gone ++ kept) offered × Older gone kept)
  unfolding updated_variants
  updated_variants-Older limit v now vs =
      let offered = retain_others v.fingerprint now vs ++ v ∷ [] in
      (length-trim_variants limit offered, trim_variants-Older limit offered)

  pub length-updated_variants-le :
      (limit : ℕ) (v : VariantRecord Msg) (now : ℕ) (vs : List (VariantRecord Msg))
      → length (updated_variants limit v now vs) ≤ limit
  length-updated_variants-le limit v now vs =
      omega (arith, (updated_variants-Older limit v now vs).0)
