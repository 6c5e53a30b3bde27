-- ===== src/Upstream/Opinions.antt =====
-- `resolve_pair` and `corroborate` of src/upstream/scheduler.rs: a second opinion from another resolver.
use egressdns.Prelude.{
  Bool, List, Option, [], false, get_elem?, if◌then◌else◌, none, not, some, ℕ, ◌&&◌, ◌==◌, ◌∷◌,
}
use egressdns.Cache.Name.{str_eq}
use egressdns.Float.{Floats}
use egressdns.Message.{Hickory, Message}
use egressdns.Health.{SchedulerConfig}
use egressdns.Upstream.{Route, is_independent}
use egressdns.Upstream.Rank.{NetworkState, rank}
use egressdns.Upstream.Attempt.{Trial, UpstreamAnswer, attempt, shed_at_once}
use egressdns.Upstream.Resolve.{answered, note}

-- `Some((a?, b?))`.
unfoldable pub both : {A B : Type 0} → Option A → Option B → Option (A × B)
both none b = none
both (some x) none = none
both (some x) (some y) = some (x, y)

module _ {fl : Floats} where
  -- The first route of the ranking that is another authority's and an opinion of its own.
  unfoldable pub other_opinion : List (Route fl) → List ℕ → List ℕ → Option ℕ
  other_opinion routes authority [] = none
  other_opinion routes authority (i ∷ is) =
      let later = other_opinion routes authority is in
      elim (get_elem? routes i) [
        | none ↦ later
        | some r ↦
            if not (str_eq r.key.authority authority) && is_independent r.key.role
            then some i
            else later
      ]

module _ {fl : Floats} {k : Hickory} (cfg : SchedulerConfig fl) (request : Message k) where
  -- One attempt at a route, which is recorded.
  unfoldable pub ask : List (Route fl) → ℕ → Trial k → List (Route fl) × Option (UpstreamAnswer k)
  ask routes i t =
      let (tried, result) = attempt cfg routes i request shed_at_once t in
      let noted = note cfg request tried i result t.now in
      (noted, answered cfg request noted i result false)

  -- Both attempts, of which each is over its own route.
  unfoldable pub ask_both :
      List (Route fl)
      → ℕ
      → ℕ
      → Trial k
      → Trial k
      → List (Route fl) × Option (UpstreamAnswer k × UpstreamAnswer k)
  ask_both routes first second ta tb =
      let (routes_a, a) = ask routes first ta in
      let (routes_b, b) = ask routes_a second tb in (routes_b, both a b)

  unfoldable pub resolve_pair :
      NetworkState
      → Bool
      → ℕ
      → List (Route fl)
      → ℕ
      → ℕ
      → Trial k
      → Trial k
      → List (Route fl) × Option (UpstreamAnswer k × UpstreamAnswer k)
  resolve_pair net relearning seed routes budget now ta tb =
      let (ticked, ranked) = rank routes cfg net relearning now seed in
      if budget == 0 then (routes, none) else elim ranked [
        | [] ↦ (ticked, none)
        | first ∷ rest ↦ elim (get_elem? ticked first) [
          | none ↦ (ticked, none)
          | some r ↦ elim (other_opinion ticked r.key.authority (first ∷ rest)) [
            | none ↦ (ticked, none)
            | some second ↦ ask_both ticked first second ta tb
          ]
        ]
      ]

  unfoldable pub corroborate :
      NetworkState
      → Bool
      → ℕ
      → List (Route fl)
      → ℕ
      → ℕ
      → List ℕ
      → Trial k
      → List (Route fl) × Option (UpstreamAnswer k)
  corroborate net relearning seed routes budget now exclude t =
      let (ticked, ranked) = rank routes cfg net relearning now seed in
      if budget == 0 then (routes, none) else elim (other_opinion ticked exclude ranked) [
        | none ↦ (ticked, none)
        | some i ↦ ask ticked i t
      ]
