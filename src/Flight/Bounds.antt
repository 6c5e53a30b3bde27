-- ===== src/Flight/Bounds.antt =====
-- How many flights a shard of src/cache/singleflight.rs has.
use egressdns.Prelude.{
  Bool-cases, List, Option-cases, [], arith, get_elem?, inl, inr, length, length-dict_insert-le,
  length-dict_remove-le, max, refl, ℕ, ◌∷◌, ◌≡◌, ◌≤◌,
}
use egressdns.Flight.{
  Broadcast, Shared, Shard, Step, joins, claims, delivers, new, join, claim, deliver, step, run,
}

module _ {V : Type 0} {b : Broadcast V} {K : Type 0} (dec : Discrete K) where
  -- Within the limit, which stays.
  abbrev Fits : ℕ → Shard b K → Type 0
  Fits limit s = (s.max_inflight ≡ limit) × (length s.map ≤ limit)

  join-Fits : (limit : ℕ) (s : Shard b K) (key : K) → Fits limit s → Fits limit (join dec s key).0
  unfolding join
  join-Fits limit s key h = ground (arith, length-dict_insert-le dec key (length s.leaders) s.map)

  claim-Fits :
      (limit : ℕ) (s : Shard b K) (i : ℕ) (value : Shared V)
      → Fits limit s
      → Fits limit (claim dec s i value)
  unfolding claim
  claim-Fits limit s i value h = elim (Option-cases (get_elem? s.leaders i)) [
    | inl e ↦ rw (e, claim) h
    | inr (l, e) ↦ elim (Bool-cases l.published) [
      | inl p ↦ rw (e, claim) (simp p h)
      | inr p ↦ elim (Option-cases l.key) [
        | inl n ↦ rw (e, claim) (simp (p, n) h)
        | inr (key, k) ↦
            let fewer = length-dict_remove-le dec key s.map in
            rw (e, claim) (simp (p, k) (h.0, omega arith))
      ]
    ]
  ]

  deliver-Fits : (limit : ℕ) (s : Shard b K) (i : ℕ) → Fits limit s → Fits limit (deliver dec s i)
  unfolding deliver
  deliver-Fits limit s i h = ground arith

module _ {V : Type 0} (b : Broadcast V) {K : Type 0} (dec : Discrete K) where
  run-Fits : (limit : ℕ) (es : List (Step V K)) → Fits dec (max limit 1) (run {b = b} dec limit es)
  unfolding run step new
  run-Fits limit [] = (refl, omega arith)
  run-Fits limit (joins key ∷ es) =
      join-Fits dec (max limit 1) (run dec limit es) key (run-Fits limit es)
  run-Fits limit (claims i v ∷ es) =
      claim-Fits dec (max limit 1) (run dec limit es) i v (run-Fits limit es)
  run-Fits limit (delivers i ∷ es) =
      deliver-Fits dec (max limit 1) (run dec limit es) i (run-Fits limit es)

  -- A shard never has more flights in progress than its ceiling, in any order of joins, publications
  -- and drops.
  pub inflight_le :
      (limit : ℕ) (es : List (Step V K)) → length (run {b = b} dec limit es).map ≤ max limit 1
  inflight_le limit es = (run-Fits limit es).1
