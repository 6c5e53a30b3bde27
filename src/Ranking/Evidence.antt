-- ===== src/Ranking/Evidence.antt =====
-- What observations do to the statistics of src/ranking/model.rs.
use egressdns.Prelude.{
  Bool-cases, List, Option, Option-cases, [], ap, arith, inl, inr, length, length-set, none, refl,
  some, ℕ, ◌-◌, ◌<◌, ◌∙◌, ◌∷◌, ◌≡◌, ◌≤◌,
}
use egressdns.Float.{Floats}
use egressdns.Ranking.{RankingConfig}
use egressdns.Ranking.Model.{
  ObservationClass, QualityStats, decay, demote_to_prior, is_penalising, new, note_latency,
  record_failure, record_observation, record_success, window_size,
}

-- An observation or a change of the network.
pub data Event (fl : Floats) : Type 0 where
  observes : ObservationClass → Option ℕ → ℕ → Event fl
  demotes : ℕ → fl.F → Event fl

-- The classes that say something about the probe, not about the address.
pub data IsNeutral : ObservationClass → Type 0 where
  ambiguous : IsNeutral ObservationClass.ambiguous_failure
  incapable : IsNeutral ObservationClass.unsupported
  blocked : IsNeutral ObservationClass.policy_blocked

-- The same successes, failures in a row and latencies.
abbrev pub Unmoved : {fl : Floats} → QualityStats fl → QualityStats fl → Type 0
Unmoved q q' =
    (q'.successes ≡ q.successes)
    × (q'.consecutive_failures ≡ q.consecutive_failures)
    × (q'.window ≡ q.window)

module _ {fl : Floats} (cfg : RankingConfig fl) where
  unfoldable pub step : QualityStats fl → Event fl → QualityStats fl
  step q (observes class latency now) = record_observation q class latency now cfg
  step q (demotes generation factor) = demote_to_prior q generation factor

  unfoldable pub run : QualityStats fl → List (Event fl) → QualityStats fl
  unfolding step
  run q [] = q
  run q (e ∷ es) = run (step q e) es

  -- The ring is whole, and its counters stay inside it.
  abbrev pub Fits : QualityStats fl → Type 0
  Fits q =
      (length q.window ≡ window_size) × (q.window_len ≤ window_size) × (q.window_pos < window_size)

  decay-ring :
      (q : QualityStats fl) (now : ℕ)
      → ((decay q now cfg).window ≡ q.window)
        × ((decay q now cfg).window_len ≡ q.window_len)
        × ((decay q now cfg).window_pos ≡ q.window_pos)
        × ((decay q now cfg).successes ≡ q.successes)
        × ((decay q now cfg).consecutive_failures ≡ q.consecutive_failures)
  unfolding decay
  decay-ring q now = elim (Option-cases q.last_update) [
    | inl e ↦ rw e (refl, refl, refl, refl, refl)
    | inr (last, e) ↦ elim (Bool-cases (fl.le (fl.as_secs_f64 (now - last)) (fl.lit 0 1))) [
      | inl e2 ↦ rw (e, e2) (refl, refl, refl, refl, refl)
      | inr e2 ↦ rw (e, e2) (refl, refl, refl, refl, refl)
    ]
  ]

  decay-Fits : (q : QualityStats fl) (now : ℕ) → Fits q → Fits (decay q now cfg)
  decay-Fits q now (size, len, pos) =
      let (ring, len', pos', _, _) = decay-ring q now in
      (ap length ring ∙ size, omega (arith, len, len'), omega (arith, pos, pos'))

  record_success-Fits :
      (q : QualityStats fl) (latency now : ℕ) → Fits q → Fits (record_success q latency now cfg)
  unfolding record_success note_latency
  record_success-Fits q latency now fits =
      let d = decay q now cfg in
      let (size, len, pos) = decay-Fits q now fits in
      (length-set d.window d.window_pos _ ∙ size, omega arith, omega arith)

  record_failure-Fits :
      (q : QualityStats fl) (class : ObservationClass) (now : ℕ)
      → Fits q
      → Fits (record_failure q class now cfg)
  unfolding record_failure
  record_failure-Fits q class now fits = elim (Bool-cases (is_penalising class)) [
    | inl e ↦ rw e (decay-Fits q now fits)
    | inr e ↦ rw e (decay-Fits q now fits)
  ]

  record_observation-Fits :
      (q : QualityStats fl) (class : ObservationClass) (latency : Option ℕ) (now : ℕ)
      → Fits q
      → Fits (record_observation q class latency now cfg)
  unfolding record_observation
  record_observation-Fits q ObservationClass.success (some d) now fits =
      record_success-Fits q d now fits
  record_observation-Fits q ObservationClass.success none now fits =
      record_success-Fits q 0 now fits
  record_observation-Fits q ObservationClass.applicable_failure latency now fits =
      record_failure-Fits q ObservationClass.applicable_failure now fits
  record_observation-Fits q ObservationClass.ambiguous_failure latency now fits =
      record_failure-Fits q ObservationClass.ambiguous_failure now fits
  record_observation-Fits q ObservationClass.unsupported latency now fits =
      record_failure-Fits q ObservationClass.unsupported now fits
  record_observation-Fits q ObservationClass.timeout latency now fits =
      record_failure-Fits q ObservationClass.timeout now fits
  record_observation-Fits q ObservationClass.policy_blocked latency now fits =
      record_failure-Fits q ObservationClass.policy_blocked now fits

  step-Fits : (q : QualityStats fl) (e : Event fl) → Fits q → Fits (step q e)
  unfolding step demote_to_prior
  step-Fits q (observes class latency now) fits = record_observation-Fits q class latency now fits
  step-Fits q (demotes generation factor) fits = fits

  run_from-Fits : (q : QualityStats fl) (es : List (Event fl)) → Fits q → Fits (run q es)
  unfolding run
  run_from-Fits q [] fits = fits
  run_from-Fits q (e ∷ es) fits = run_from-Fits (step q e) es (step-Fits q e fits)

  -- After any observations and network changes, whatever the floats do, the ring of latencies has its
  -- sixteen slots, and the position that is written next and the length that is read stay inside it.
  pub run-Fits : (generation : ℕ) (es : List (Event fl)) → Fits (run (new fl generation) es)
  unfolding new
  run-Fits generation es = run_from-Fits (new fl generation) es (refl, omega arith, omega arith)

  abbrev pub AllNeutral : List (Event fl) → Type 0
  AllNeutral [] = Unit
  AllNeutral (demotes generation factor ∷ es) = ⊥
  AllNeutral (observes class latency now ∷ es) = IsNeutral class × AllNeutral es
