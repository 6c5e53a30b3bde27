-- ===== src/Upstream/Rank.antt =====
-- `rank_inner` of src/upstream/scheduler.rs: the order in which the routes of a group are tried.
use egressdns.Prelude.{
  Bool, List, [], false, get_or, if◌then◌else◌, leb, length, map, not, sort, true, ℕ, ◌&&◌, ◌+◌,
  ◌/◌, ◌||◌, ◌∷◌,
}
use Prim.Native.Nat.{bit_xor}
use egressdns.Net.{IpAddr}
use egressdns.Float.{Floats, lt, unit_from_seed}
use egressdns.Health.{SchedulerConfig, tick, is_usable}
use egressdns.Health.Score.{score, is_measured, weight_bias}
use egressdns.Upstream.{Route, EgressPath}

-- `FamilyState` of src/network/mod.rs, and the state of both families.
pub data FamilyState : Type 0 where
  unknown usable unusable : FamilyState

pub record NetworkState : Type 0 where
  pub v4 : FamilyState
  pub v6 : FamilyState

unfoldable pub is_unusable : FamilyState → Bool
is_unusable FamilyState.unusable = true
is_unusable _ = false

unfoldable pub family_ok : NetworkState → IpAddr → Bool
unfolding is_unusable
family_ok net (IpAddr.v4 a) = not (is_unusable net.v4)
family_ok net (IpAddr.v6 a) = not (is_unusable net.v6)

pub data Bucket : Type 0 where
  ready degraded family_excluded : Bucket

unfoldable pub bucket_of : Bool → Bool → Bucket
bucket_of family works = if not family then family_excluded else if works then ready else degraded

unfoldable pub same_bucket : Bucket → Bucket → Bool
same_bucket ready ready = true
same_bucket degraded degraded = true
same_bucket family_excluded family_excluded = true
same_bucket _ _ = false

module _ (fl : Floats) where
  pub record Candidate : Type 0 where
    pub score : fl.F
    pub idx : ℕ
    pub weight : ℕ
    pub measured : Bool
    pub bucket : Bucket

-- `proxy_penalty`, with `PROXY_PATH_PENALTY_MS`.
unfoldable pub proxy_penalty : (fl : Floats) → EgressPath → fl.F
proxy_penalty fl EgressPath.direct = fl.lit 0 1
proxy_penalty fl EgressPath.proxy = fl.lit 120 1

-- `swap(0, 1)`, where there are two.
unfoldable pub swap_first : List ℕ → List ℕ
swap_first (a ∷ b ∷ rest) = b ∷ a ∷ rest
swap_first ranked = ranked

module _ {fl : Floats} where
  -- A companion is a candidate only for the retry of a truncated answer.
  unfoldable pub offered : Bool → Route fl → Bool
  offered include_companions r = not (r.stream_companion && not include_companions)

  -- `h.tick`, for each offered route.
  unfoldable pub tick_from :
      SchedulerConfig fl → ℕ → ℕ → Bool → ℕ → List (Route fl) → List (Route fl)
  tick_from cfg now seed companions i [] = []
  tick_from cfg now seed companions i (r ∷ rest) =
      (if offered companions r
        then record r { health = tick r.health now cfg (bit_xor seed i) }
        else r)
      ∷ tick_from cfg now seed companions (i + 1) rest

  unfoldable pub candidate : NetworkState → ℕ → Route fl → Candidate fl
  candidate net i r = record {
    score = fl.add (score r.health r.weight) (proxy_penalty fl r.egress);
    idx = i;
    weight = r.weight;
    measured = is_measured r.health;
    bucket = bucket_of (family_ok net r.key.addr) (is_usable r.health);
  }

  -- The candidates among ticked routes.
  unfoldable pub candidates_from : NetworkState → Bool → ℕ → List (Route fl) → List (Candidate fl)
  unfolding candidate
  candidates_from net companions i [] = []
  candidates_from net companions i (r ∷ rest) =
      let more = candidates_from net companions (i + 1) rest in
      if offered companions r then candidate net i r ∷ more else more

  unfoldable pub measured_scores : List (Candidate fl) → List fl.F
  measured_scores [] = []
  measured_scores (c ∷ cs) =
      let rest = measured_scores cs in if c.measured then c.score ∷ rest else rest

  -- A route without measurements costs the median of those that have some.
  unfoldable pub neutral : fl.F → Candidate fl → Candidate fl
  neutral median c =
      if c.measured then c else record c { score = fl.add median (weight_bias fl c.weight) }

  unfoldable pub reprice : List (Candidate fl) → List (Candidate fl)
  unfolding neutral measured_scores
  reprice cs = elim (sort fl.total_le (measured_scores cs)) [
    | [] ↦ cs
    | s ∷ ss ↦ map (neutral (get_or (s ∷ ss) (length (s ∷ ss) / 2) s)) cs
  ]

  unfoldable pub of_bucket : Bucket → List (Candidate fl) → List (Candidate fl)
  of_bucket b [] = []
  of_bucket b (c ∷ cs) =
      let rest = of_bucket b cs in if same_bucket c.bucket b then c ∷ rest else rest

  -- The first that is not empty, or the last.
  unfoldable pub prefer :
      List (Candidate fl) → List (Candidate fl) → List (Candidate fl) → List (Candidate fl)
  prefer (a ∷ as') bs cs = a ∷ as'
  prefer [] (b ∷ bs) cs = b ∷ bs
  prefer [] [] cs = cs

  -- The routes that work, else those with an open circuit, else those of an unusable family.
  unfoldable pub fall_back : List (Candidate fl) → List (Candidate fl)
  unfolding of_bucket prefer
  fall_back cs = prefer (of_bucket ready cs) (of_bucket degraded cs) (of_bucket family_excluded cs)

  -- Score first, then the configuration's order.
  unfoldable pub cheaper : Candidate fl → Candidate fl → Bool
  cheaper x y =
      fl.total_le x.score y.score && (not (fl.total_le y.score x.score) || leb x.idx y.idx)

  -- `RELEARN_EXPLORE_MULTIPLIER` and `MAX_EXPLORE_RATE` after a change of the network.
  unfoldable pub explore_rate : SchedulerConfig fl → Bool → fl.F
  explore_rate cfg relearning =
      if relearning
      then fl.fmin (fl.mul cfg.explore_rate (fl.lit 5 1)) (fl.lit 2 10)
      else cfg.explore_rate

  unfoldable pub explores : SchedulerConfig fl → Bool → ℕ → Bool
  unfolding explore_rate lt
  explores cfg relearning seed =
      let rate = explore_rate cfg relearning in
      lt fl (fl.lit 0 1) rate && lt fl (unit_from_seed fl seed) rate

  -- The ranking of ticked routes.
  unfoldable pub order_routes :
      SchedulerConfig fl → NetworkState → Bool → ℕ → Bool → List (Route fl) → List ℕ
  unfolding candidates_from reprice fall_back cheaper explores swap_first
  order_routes cfg net relearning seed companions routes =
      let scored = fall_back (reprice (candidates_from net companions 0 routes)) in
      let ranked = map (λ (c : Candidate fl). c.idx) (sort cheaper scored) in
      if explores cfg relearning seed then swap_first ranked else ranked

  unfoldable pub rank_inner :
      List (Route fl)
      → SchedulerConfig fl
      → NetworkState
      → Bool
      → ℕ
      → ℕ
      → Bool
      → List (Route fl) × List ℕ
  unfolding tick_from order_routes
  rank_inner routes cfg net relearning now seed companions =
      let ticked = tick_from cfg now seed companions 0 routes in
      (ticked, order_routes cfg net relearning seed companions ticked)

  unfoldable pub rank :
      List (Route fl) → SchedulerConfig fl → NetworkState → Bool → ℕ → ℕ → List (Route fl) × List ℕ
  unfolding rank_inner
  rank routes cfg net relearning now seed = rank_inner routes cfg net relearning now seed false
