-- ===== src/Ranking/Model.antt =====
-- src/ranking/model.rs: the quality statistics of an address, over abstract floats. A stored `f32` is what a
-- later read of it gives.
use egressdns.Prelude.{
  Bool, List, Option, false, get_or, if◌then◌else◌, leb, length, ltb, max, min, none, not,
  replicate, saturating_add32, set, some, sort, take, true, ℕ, ◌%◌, ◌&&◌, ◌+◌, ◌-◌, ◌==◌, ◌||◌,
}
use egressdns.Float.{Floats}
use egressdns.Ranking.{Confidence, Quality, RankingConfig}

abbrev pub window_size : ℕ
window_size = 16

pub data ObservationClass : Type 0 where
  success applicable_failure ambiguous_failure unsupported timeout policy_blocked : ObservationClass

unfoldable pub is_penalising : ObservationClass → Bool
is_penalising ObservationClass.applicable_failure = true
is_penalising ObservationClass.timeout = true
is_penalising _ = false

module _ (fl : Floats) where
  pub record QualityStats : Type 0 where
    pub alpha : fl.F
    pub beta : fl.F
    pub ewma_ms : fl.F
    pub jitter_ms : fl.F
    pub window : List fl.F
    pub window_len : ℕ
    pub window_pos : ℕ
    pub consecutive_failures : ℕ
    pub samples : ℕ
    pub successes : ℕ
    pub last_update : Option ℕ
    pub last_success : Option ℕ
    pub generation : ℕ

  -- `PRIOR_ALPHA` and `PRIOR_BETA`, and `EWMA_WEIGHT`.
  abbrev pub prior : fl.F
  prior = fl.lit 1 1

  abbrev pub ewma_weight : fl.F
  ewma_weight = fl.lit 1 4

  unfoldable pub new : ℕ → QualityStats
  new generation = record {
    alpha = prior;
    beta = prior;
    ewma_ms = fl.lit 0 1;
    jitter_ms = fl.lit 0 1;
    window = replicate window_size (fl.lit 0 1);
    window_len = 0;
    window_pos = 0;
    consecutive_failures = 0;
    samples = 0;
    successes = 0;
    last_update = none;
    last_success = none;
    generation = generation;
  }

-- A part of the posterior, moved towards the prior.
unfoldable pub towards_prior : (fl : Floats) → fl.F → fl.F → fl.F
towards_prior fl x factor = fl.add (prior fl) (fl.mul (fl.sub x (prior fl)) factor)

module _ {fl : Floats} where
  unfoldable pub has_applicable_evidence : QualityStats fl → Bool
  has_applicable_evidence q = ltb 0 q.samples && (ltb 0 q.successes || ltb 0 q.consecutive_failures)

  unfoldable pub percentile : QualityStats fl → fl.F → fl.F
  unfolding sort
  percentile q share =
      if q.window_len == 0
      then fl.lit 0 1
      else let v = sort fl.total_le (take q.window_len q.window) in
        let rank = fl.ceil_usize (fl.mul share (fl.of_ℕ (length v))) in
        get_or v (max 1 (min rank (length v)) - 1) (fl.lit 0 1)

  unfoldable pub decay : QualityStats fl → ℕ → RankingConfig fl → QualityStats fl
  unfolding towards_prior
  decay q now cfg = elim q.last_update [
    | none ↦ q
    | some last ↦
        let elapsed = fl.as_secs_f64 (now - last) in
        let half_life = fl.fmax (fl.as_secs_f64 cfg.evidence_half_life) (fl.lit 1 1) in
        let factor = fl.pow (fl.lit 1 2) (fl.div elapsed half_life) in
        if fl.le elapsed (fl.lit 0 1) then q else record q {
          alpha = towards_prior fl q.alpha factor;
          beta = towards_prior fl q.beta factor;
        }
  ]

  -- The latency of a success in the averages and in the ring.
  unfoldable pub note_latency : QualityStats fl → fl.F → QualityStats fl
  note_latency q ms =
      let keep = fl.sub (fl.lit 1 1) (ewma_weight fl) in
      let first = q.window_len == 0 in
      record q {
        jitter_ms =
            if first
            then q.jitter_ms
            else fl.add (fl.mul keep q.jitter_ms)
                (fl.mul (ewma_weight fl) (fl.abs (fl.sub ms q.ewma_ms)));
        ewma_ms = if first then ms else fl.add (fl.mul keep q.ewma_ms) (fl.mul (ewma_weight fl) ms);
        window = set q.window q.window_pos (fl.as_f32 ms);
        window_pos = (q.window_pos + 1) % window_size;
        window_len = min (q.window_len + 1) window_size;
      }

  unfoldable pub record_success : QualityStats fl → ℕ → ℕ → RankingConfig fl → QualityStats fl
  unfolding decay note_latency
  record_success q latency now cfg =
      let noted =
        note_latency (decay q now cfg) (fl.mul (fl.as_secs_f64 latency) (fl.lit 1000 1)) in
      record noted {
        alpha = fl.add noted.alpha (fl.lit 1 1);
        samples = saturating_add32 noted.samples 1;
        successes = saturating_add32 noted.successes 1;
        consecutive_failures = 0;
        last_update = some now;
        last_success = some now;
      }

  unfoldable pub record_failure :
      QualityStats fl → ObservationClass → ℕ → RankingConfig fl → QualityStats fl
  unfolding is_penalising decay
  record_failure q class now cfg =
      let decayed = decay q now cfg in
      let counted = record decayed {
        samples = saturating_add32 decayed.samples 1;
        last_update = some now;
      } in
      if is_penalising class
      then record counted {
        beta = fl.add counted.beta (fl.lit 1 1);
        consecutive_failures = saturating_add32 counted.consecutive_failures 1;
      }
      else counted

  unfoldable pub record_observation :
      QualityStats fl → ObservationClass → Option ℕ → ℕ → RankingConfig fl → QualityStats fl
  unfolding record_success record_failure
  record_observation q ObservationClass.success (some d) now cfg = record_success q d now cfg
  record_observation q ObservationClass.success none now cfg = record_success q 0 now cfg
  record_observation q class latency now cfg = record_failure q class now cfg

  unfoldable pub success_probability : QualityStats fl → fl.F
  success_probability q = fl.div q.alpha (fl.add q.alpha q.beta)

  -- The standard deviation of the Beta posterior.
  unfoldable pub deviation : QualityStats fl → fl.F
  deviation q =
      let n = fl.add q.alpha q.beta in
      fl.sqrt (fl.div (fl.mul q.alpha q.beta) (fl.mul (fl.mul n n) (fl.add n (fl.lit 1 1))))

  unfoldable pub success_probability_lower_bound : QualityStats fl → fl.F
  unfolding deviation
  success_probability_lower_bound q =
      fl.clamp (fl.sub (fl.div q.alpha (fl.add q.alpha q.beta)) (deviation q)) (fl.lit 0 1)
        (fl.lit 1 1)

  unfoldable pub uncertainty : QualityStats fl → fl.F
  unfolding deviation
  uncertainty q = fl.clamp (deviation q) (fl.lit 0 1) (fl.lit 1 1)

  unfoldable pub confidence : QualityStats fl → RankingConfig fl → ℕ → Confidence
  confidence q cfg now =
      let fresh : Bool = elim q.last_update [
        | none ↦ false
        | some t ↦ leb (now - t) cfg.sample_max_age
      ] in
      if q.samples == 0
      then Confidence.unknown
      else if not fresh || leb q.samples 2
      then Confidence.low
      else if leb q.samples 9
      then Confidence.medium
      else Confidence.high

  unfoldable pub expected_cost : QualityStats fl → RankingConfig fl → ℕ → fl.F
  unfolding percentile success_probability_lower_bound uncertainty
  expected_cost q cfg now =
      let base = if q.successes == 0 then cfg.neutral_cost_ms else q.ewma_ms in
      let tail = fl.mul cfg.tail_weight (percentile q (fl.lit 95 100)) in
      let jitter = fl.mul cfg.jitter_weight q.jitter_ms in
      let failure =
        fl.mul (fl.sub (fl.lit 1 1) (success_probability_lower_bound q)) cfg.failure_penalty_ms in
      let streak =
        if q.consecutive_failures == 0
        then fl.lit 0 1
        else fl.div
            (fl.mul cfg.failure_penalty_ms
              (fl.powi cfg.consecutive_failure_base (min q.consecutive_failures 8)))
            (fl.lit 8 1) in
      let unsure = fl.mul (uncertainty q) cfg.uncertainty_penalty_ms in
      let stale : fl.F = elim q.last_update [
        | none ↦ fl.lit 0 1
        | some t ↦
            if ltb cfg.sample_max_age (now - t) then cfg.stale_sample_penalty_ms else fl.lit 0 1
      ] in
      if q.samples == 0
      then cfg.neutral_cost_ms
      else fl.add
          (fl.add (fl.add (fl.add (fl.add (fl.add base tail) jitter) failure) streak) unsure) stale

  unfoldable pub demote_to_prior : QualityStats fl → ℕ → fl.F → QualityStats fl
  unfolding towards_prior
  demote_to_prior q new_generation factor =
      let f = fl.clamp factor (fl.lit 0 1) (fl.lit 1 1) in
      record q {
        alpha = towards_prior fl q.alpha f;
        beta = towards_prior fl q.beta f;
        consecutive_failures = 0;
        samples = fl.as_u32 (fl.mul (fl.of_ℕ q.samples) f);
        successes = fl.as_u32 (fl.mul (fl.of_ℕ q.successes) f);
        generation = new_generation;
      }

  -- What `order_addresses` asks of the statistics.
  unfoldable pub quality : QualityStats fl → RankingConfig fl → ℕ → Quality fl
  unfolding has_applicable_evidence expected_cost confidence
  quality q cfg now = record {
    has_applicable_evidence = has_applicable_evidence q;
    expected_cost = expected_cost q cfg now;
    confidence = confidence q cfg now;
    success_count = q.successes;
  }
