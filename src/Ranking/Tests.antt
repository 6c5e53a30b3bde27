-- ===== src/Ranking/Tests.antt =====
-- A concrete ordering of src/ranking/mod.rs, over floats that are whole numbers.
use egressdns.Ranking.Model.{ObservationClass, has_applicable_evidence}
use egressdns.Ranking.Evidence.{Event, observes}
use egressdns.Prelude.{
  List, [], dict_get, nanos_per_sec, none, refl, sort, true, ℕ_discrete, ◌*◌, ◌∷◌, ◌≡◌,
}
use egressdns.Net.{IpAddr, v4, IpAddr-discrete}
use egressdns.Float.Whole.{whole}
use egressdns.Ranking.{Confidence, Quality, RankingConfig, order_addresses, may_lead}
use egressdns.Ranking.Permutes.{order_addresses-Perm}
use mathlib.Core.List.{Perm}

abbrev ranking : RankingConfig whole
ranking = record {
  enabled = true;
  neutral_cost_ms = 50;
  hysteresis = 0;
  min_successes_to_lead = 1;
  exploration_rate = 0;
  failure_penalty_ms = 400;
  tail_weight = 0;
  jitter_weight = 0;
  uncertainty_penalty_ms = 40;
  stale_sample_penalty_ms = 20;
  sample_max_age = 900 * nanos_per_sec;
  evidence_half_life = 600 * nanos_per_sec;
  consecutive_failure_base = 2;
}

abbrev measured : List (IpAddr × Quality whole)
measured =
    (
      v4 2,
      record {
        has_applicable_evidence = true;
        expected_cost = 9;
        confidence = Confidence.high;
        success_count = 5;
      },
    )
    ∷ []

abbrev three : List IpAddr
three = v4 1 ∷ v4 2 ∷ v4 3 ∷ []

order_addresses-Perm_example : Perm (order_addresses ranking measured three 4).addresses three
order_addresses-Perm_example = order_addresses-Perm ranking measured three 4

leads : (order_addresses ranking measured three 4).addresses ≡ v4 2 ∷ v4 1 ∷ v4 3 ∷ []
unfolding order_addresses dict_get IpAddr-discrete ℕ_discrete sort may_lead
leads = refl

abbrev observed : List (Event whole)
observed =
    observes ObservationClass.policy_blocked none 5
    ∷ observes ObservationClass.ambiguous_failure none 9
    ∷ []
