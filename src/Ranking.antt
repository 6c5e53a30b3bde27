-- ===== src/Ranking.antt =====
-- src/ranking/mod.rs: the order in which the addresses of one RRset are answered. The statistics of an
-- address enter by what the code asks of them, which `Ranking.Model` computes.
pub mod Permutes
pub mod Model
pub mod Evidence
mod Tests
use egressdns.Prelude.{
  Bool, List, Option, [], dict_get, false, if◌then◌else◌, ite, leb, length, ltb, map, none, not,
  some, sort, true, ℕ, ◌&&◌, ◌+◌, ◌==◌, ◌||◌, ◌∷◌,
}
use egressdns.Net.{IpAddr, IpAddr-discrete}
use egressdns.Float.{Floats, lt, unit_from_seed}
use mathlib.Core.Option

pub data OrderDecision : Type 0 where
  disabled no_evidence below_hysteresis exploration reordered unchanged : OrderDecision

pub data Confidence : Type 0 where
  unknown low medium high : Confidence

module _ (fl : Floats) where
  -- What `order_addresses` asks of the `QualityStats` of an address.
  pub record Quality : Type 0 where
    pub has_applicable_evidence : Bool
    pub expected_cost : fl.F
    pub confidence : Confidence
    pub success_count : ℕ

  pub record RankingConfig : Type 0 where
    pub enabled : Bool
    pub neutral_cost_ms : fl.F
    pub hysteresis : fl.F
    pub min_successes_to_lead : ℕ
    pub exploration_rate : fl.F
    pub failure_penalty_ms : fl.F
    pub tail_weight : fl.F
    pub jitter_weight : fl.F
    pub uncertainty_penalty_ms : fl.F
    pub stale_sample_penalty_ms : fl.F
    pub sample_max_age : ℕ
    pub evidence_half_life : ℕ
    pub consecutive_failure_base : fl.F

  pub record Scored : Type 0 where
    pub idx : ℕ
    pub addr : IpAddr
    pub cost : fl.F
    pub confidence : Confidence

pub record Ordering : Type 0 where
  pub addresses : List IpAddr
  pub decision : OrderDecision
  pub confidence : Confidence

-- Equality of address lists.
unfoldable pub addresses_eq : List IpAddr → List IpAddr → Bool
addresses_eq [] [] = true
addresses_eq (a ∷ as') (b ∷ bs) = ite (IpAddr-discrete a b) (addresses_eq as' bs) false
addresses_eq _ _ = false

module _ {fl : Floats} (cfg : RankingConfig fl) (stats : List (IpAddr × Quality fl)) where
  unfoldable pub evidence : IpAddr → Option (Quality fl)
  evidence addr = elim (dict_get IpAddr-discrete addr stats) [
    | none ↦ none
    | some q ↦ if q.has_applicable_evidence then some q else none
  ]

  -- The loop that scores the addresses, from an index on.
  unfoldable pub score_from : ℕ → List IpAddr → List (Scored fl)
  unfolding evidence
  score_from i [] = []
  score_from i (addr ∷ rest) =
      elim (evidence addr) [
        | none ↦ record { idx = i; addr = addr; cost = cfg.neutral_cost_ms; confidence = unknown }
        | some q ↦ record {
          idx = i;
          addr = addr;
          cost = q.expected_cost;
          confidence = q.confidence;
        }
      ]
      ∷ score_from (i + 1) rest

  unfoldable pub any_evidence : List IpAddr → Bool
  unfolding evidence
  any_evidence [] = false
  any_evidence (addr ∷ rest) = elim (evidence addr) [ some q ↦ true | none ↦ any_evidence rest ]

  -- Cost first, then the upstream's order.
  unfoldable pub cheaper : Scored fl → Scored fl → Bool
  cheaper x y = fl.total_le x.cost y.cost && (not (fl.total_le y.cost x.cost) || leb x.idx y.idx)

  -- The exploration rule keeps the upstream's order.
  unfoldable pub explores : ℕ → Bool
  unfolding lt
  explores seed =
      lt fl (fl.lit 0 1) cfg.exploration_rate && lt fl (unit_from_seed fl seed) cfg.exploration_rate

  unfoldable pub may_lead : Scored fl → Scored fl → Bool
  unfolding lt
  may_lead incumbent challenger =
      let advantage =
        fl.div (fl.sub incumbent.cost challenger.cost) (fl.fmax incumbent.cost (fl.lit 1 1)) in
      let successes =
        Option.get_or
          (Option.map (λ (q : Quality fl). q.success_count)
            (dict_get IpAddr-discrete challenger.addr stats))
          0 in
      not (lt fl advantage cfg.hysteresis || ltb successes cfg.min_successes_to_lead)

  -- The end of `order_addresses`, with the scored and the sorted addresses at hand.
  unfoldable pub settle : List IpAddr → List (Scored fl) → List (Scored fl) → Ordering
  settle original (incumbent ∷ _) (challenger ∷ sorted) =
      if not (challenger.idx == 0) && not (may_lead incumbent challenger)
      then record {
        addresses = original;
        decision = below_hysteresis;
        confidence = challenger.confidence;
      }
      else let addresses = map (λ (s : Scored fl). s.addr) (challenger ∷ sorted) in
        record {
          addresses = addresses;
          decision = if addresses_eq addresses original then unchanged else reordered;
          confidence = challenger.confidence;
        }
  settle original _ _ = record { addresses = original; decision = disabled; confidence = unknown }

  unfoldable pub order_addresses : List IpAddr → ℕ → Ordering
  unfolding score_from any_evidence cheaper explores settle
  order_addresses original explore_seed =
      if not cfg.enabled || ltb (length original) 2
      then record { addresses = original; decision = disabled; confidence = unknown }
      else if not (any_evidence original)
      then record { addresses = original; decision = no_evidence; confidence = unknown }
      else if explores explore_seed
      then record { addresses = original; decision = exploration; confidence = unknown }
      else let scored = score_from 0 original in settle original scored (sort cheaper scored)
