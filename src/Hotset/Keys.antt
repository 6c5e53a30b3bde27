-- ===== src/Hotset/Keys.antt =====
-- How often a key stands in a map of src/cache/hotset.rs, and what is left after an eviction.
use egressdns.Prelude.{
  Bool, List, [], ap, arith, dict_get, dict_insert, ite, length, max, refl, suc, sym, true, zero, ℕ,
  ◌+◌, ◌-◌, ◌∷◌, ◌≡◌, ◌≢◌, ◌≤◌,
}
use egressdns.Cache.Entry.{CacheKey, CacheKey-discrete}
use egressdns.Hotset.{drop_others, is_key, map_values, retain}

unfoldable pub one_if : CacheKey → CacheKey → ℕ
one_if k j = ite (CacheKey-discrete k j) 1 0

module _ {V : Type 0} where
  unfoldable pub count : CacheKey → List (CacheKey × V) → ℕ
  unfolding one_if
  count k [] = 0
  count k ((j, v) ∷ m) = one_if k j + count k m

  -- Each key is there once at most.
  abbrev pub Distinct : List (CacheKey × V) → Type 0
  Distinct m = (k : CacheKey) → count k m ≤ 1

  pub count-retain :
      (keep : CacheKey → V → Bool) (k : CacheKey) (m : List (CacheKey × V))
      → count k (retain keep m) ≤ count k m
  unfolding count retain
  count-retain keep k [] = omega arith
  count-retain keep k ((j, v) ∷ m) = ground (arith, count-retain keep k m)

  pub length-retain :
      (keep : CacheKey → V → Bool) (m : List (CacheKey × V)) → length (retain keep m) ≤ length m
  unfolding retain
  length-retain keep [] = omega arith
  length-retain keep ((j, v) ∷ m) = ground (arith, length-retain keep m)

  pub count-map_values :
      (f : V → V) (k : CacheKey) (m : List (CacheKey × V)) → count k (map_values f m) ≡ count k m
  unfolding count map_values
  count-map_values f k [] = refl
  count-map_values f k ((j, v) ∷ m) = ap (λ n. one_if k j + n) (count-map_values f k m)

  pub length-map_values : (f : V → V) (m : List (CacheKey × V)) → length (map_values f m) ≡ length m
  unfolding map_values
  length-map_values f [] = refl
  length-map_values f ((j, v) ∷ m) = ap suc (length-map_values f m)

  count-insert_ne :
      (k j : CacheKey) (v : V) (m : List (CacheKey × V))
      → k ≢ j
      → count k (dict_insert CacheKey-discrete j v m) ≡ count k m
  unfolding count dict_insert one_if
  count-insert_ne k j v [] h = ground arith
  count-insert_ne k j v ((i, w) ∷ m) h = ground (arith, count-insert_ne k j v m h)

  count-insert_self :
      (k : CacheKey) (v : V) (m : List (CacheKey × V))
      → count k (dict_insert CacheKey-discrete k v m) ≤ max 1 (count k m)
  unfolding count dict_insert one_if
  count-insert_self k v [] = ground arith
  count-insert_self k v ((i, w) ∷ m) = ground (arith, count-insert_self k v m)

  pub count-insert :
      (j : CacheKey) (v : V) (m : List (CacheKey × V))
      → Distinct m
      → Distinct (dict_insert CacheKey-discrete j v m)
  count-insert j v m d k = elim (CacheKey-discrete k j) [
    | no p ↦ rw (count-insert_ne k j v m p) (d k)
    | yes p ↦
        let c = count-insert_self k v m in
        let e = ap (λ x. count k (dict_insert CacheKey-discrete x v m)) p in
        let dk = d k in omega arith
  ]

  pub count-drop_others :
      (n : ℕ) (protect k : CacheKey) (m : List (CacheKey × V))
      → count k (drop_others n protect m) ≤ count k m
  unfolding count drop_others
  count-drop_others zero protect k m = omega arith
  count-drop_others (suc n) protect k [] = omega arith
  count-drop_others (suc n) protect k ((j, v) ∷ m) =
      ground (arith, count-drop_others n protect k m, count-drop_others (suc n) protect k m)

  -- The protected key apart, as many go as are asked for, where there are as many.
  pub length-drop_others :
      (n : ℕ) (protect : CacheKey) (m : List (CacheKey × V))
      → length (drop_others n protect m) ≤ max (length m - n) (count protect m)
  unfolding count drop_others is_key one_if
  length-drop_others zero protect m = omega arith
  length-drop_others (suc n) protect [] = omega arith
  length-drop_others (suc n) protect ((j, v) ∷ m) =
      ground (arith, length-drop_others n protect m, length-drop_others (suc n) protect m)

  pub get-drop_others :
      (n : ℕ) (protect : CacheKey) (m : List (CacheKey × V))
      → dict_get CacheKey-discrete protect (drop_others n protect m)
        ≡ dict_get CacheKey-discrete protect m
  unfolding drop_others is_key dict_get
  get-drop_others zero protect m = refl
  get-drop_others (suc n) protect [] = refl
  get-drop_others (suc n) protect ((j, v) ∷ m) =
      ground (arith, get-drop_others n protect m, get-drop_others (suc n) protect m)

  pub get-retain_self :
      (keep : CacheKey → V → Bool) (k : CacheKey) (m : List (CacheKey × V))
      → ((v : V) → keep k v ≡ true)
      → dict_get CacheKey-discrete k (retain keep m) ≡ dict_get CacheKey-discrete k m
  unfolding retain dict_get
  get-retain_self keep k [] h = refl
  get-retain_self keep k ((j, v) ∷ m) h = elim (CacheKey-discrete k j) [
    | yes p ↦ let kept : keep j v ≡ true = rw (sym p) (h v) in ground arith
    | no p ↦ let below = get-retain_self keep k m h in ground arith
  ]
