-- ===== src/Health/Circuit.antt =====
-- The circuit breaker of src/upstream/health.rs over every sequence of events.
use egressdns.Prelude.{
  List, Option, [], arith, if◌then◌else◌, min, none, saturating_add32, some, ℕ, ◌+◌, ◌-◌, ◌<◌, ◌^◌,
  ◌∷◌, ◌≡◌, ◌≢◌,
}
use egressdns.Float.{Floats}
use egressdns.Health.{
  closed, suspect, open_circuit, half_open, AttemptOutcome, success, timeout, server_failure,
  malformed, transport_error, is_failure, SchedulerConfig, RouteHealth, new, decay, count_outcome,
  update_circuit, record_attempt, tick, begin_attempt, release_attempt,
}

-- What can happen to a route: an attempt is recorded, time passes with a seed, a half-open slot is
-- taken or given back.
pub data Event : Type 0 where
  records : AttemptOutcome → Option ℕ → ℕ → Event
  ticks : ℕ → ℕ → Event
  begins : Event
  releases : Event

module _ {fl : Floats} where
  -- What the breaker keeps: a closed circuit has no failures behind it, a suspect one fewer than the
  -- threshold, an open one knows when it opened, and a half-open one still lacks successes.
  pub record IsCoherent (cfg : SchedulerConfig fl) (h : RouteHealth fl) : Type 0 where
    pub when_closed : h.circuit ≡ closed → h.consecutive_failures ≡ 0
    pub when_suspect :
        h.circuit ≡ suspect
        → (0 < h.consecutive_failures) × (h.consecutive_failures < cfg.circuit_failure_threshold)
    pub when_open : h.circuit ≡ open_circuit → h.circuit_changed_at ≢ none
    pub when_half_open :
        h.circuit ≡ half_open → h.half_open_successes < cfg.circuit_half_open_successes

  unfoldable pub step : SchedulerConfig fl → RouteHealth fl → Event → RouteHealth fl
  step cfg h (records outcome latency now) = record_attempt h outcome latency now cfg
  step cfg h (ticks now seed) = tick h now cfg seed
  step cfg h begins = (begin_attempt h).0
  step cfg h releases = release_attempt h

  unfoldable pub run : SchedulerConfig fl → RouteHealth fl → List Event → RouteHealth fl
  unfolding step
  run cfg h [] = h
  run cfg h (e ∷ es) = step cfg (run cfg h es) e

  -- `record` up to `update_circuit`.
  abbrev pub prepared : RouteHealth fl → AttemptOutcome → Option ℕ → ℕ → RouteHealth fl
  prepared h outcome latency now =
      let decayed = decay h now in
      let sampled = record decayed { samples = min (decayed.samples + 1) (2 ^ 64 - 1) } in
      record (count_outcome sampled outcome latency now) { last_update = some now }

  -- Up to there the breaker's own fields stay, and the run of failures grows or ends.
  pub record Prepared (h r : RouteHealth fl) (outcome : AttemptOutcome) : Type 0 where
    pub circuit : r.circuit ≡ h.circuit
    pub changed_at : r.circuit_changed_at ≡ h.circuit_changed_at
    pub successes : r.half_open_successes ≡ h.half_open_successes
    pub inflight : r.half_open_inflight ≡ h.half_open_inflight
    pub streak :
        r.consecutive_failures
        ≡ (if is_failure outcome then saturating_add32 h.consecutive_failures 1 else 0)

  decay-same :
      (h : RouteHealth fl) (now : ℕ)
      → ((decay h now).circuit ≡ h.circuit)
        × ((decay h now).circuit_changed_at ≡ h.circuit_changed_at)
        × ((decay h now).half_open_successes ≡ h.half_open_successes)
        × ((decay h now).half_open_inflight ≡ h.half_open_inflight)
        × ((decay h now).consecutive_failures ≡ h.consecutive_failures)
  unfolding decay
  decay-same h now = ground arith

  pub prepared-Prepared :
      (h : RouteHealth fl) (outcome : AttemptOutcome) (latency : Option ℕ) (now : ℕ)
      → Prepared h (prepared h outcome latency now) outcome
  unfolding count_outcome is_failure
  prepared-Prepared h success latency now = ground (arith, decay-same h now)
  prepared-Prepared h timeout latency now = ground (arith, decay-same h now)
  prepared-Prepared h server_failure latency now = ground (arith, decay-same h now)
  prepared-Prepared h malformed latency now = ground (arith, decay-same h now)
  prepared-Prepared h transport_error latency now = ground (arith, decay-same h now)

  update_circuit-IsCoherent :
      (cfg : SchedulerConfig fl) (h r : RouteHealth fl) (outcome : AttemptOutcome) (now : ℕ)
      → Prepared h r outcome
      → 0 < cfg.circuit_failure_threshold
      → IsCoherent cfg h
      → IsCoherent cfg (update_circuit r outcome now cfg)
  unfolding update_circuit
  update_circuit-IsCoherent cfg h r outcome now p positive v = ground arith

  tick-IsCoherent :
      (cfg : SchedulerConfig fl) (h : RouteHealth fl) (now seed : ℕ)
      → 0 < cfg.circuit_half_open_successes
      → IsCoherent cfg h
      → IsCoherent cfg (tick h now cfg seed)
  unfolding tick
  tick-IsCoherent cfg h now seed positive v = ground arith

  step-IsCoherent :
      (cfg : SchedulerConfig fl) (h : RouteHealth fl) (e : Event)
      → 0 < cfg.circuit_failure_threshold
      → 0 < cfg.circuit_half_open_successes
      → IsCoherent cfg h
      → IsCoherent cfg (step cfg h e)
  unfolding step record_attempt
  step-IsCoherent cfg h (records outcome latency now) p q v =
      update_circuit-IsCoherent cfg h (prepared h outcome latency now) outcome now
        (prepared-Prepared h outcome latency now) p v
  step-IsCoherent cfg h (ticks now seed) p q v = tick-IsCoherent cfg h now seed q v
  step-IsCoherent cfg h begins p q v = unfold begin_attempt in ground arith
  step-IsCoherent cfg h releases p q v = unfold release_attempt in ground arith

  -- Over any sequence of attempts, ticks and half-open reservations on a new route, with positive
  -- thresholds, the circuit and its counters agree: closed means no failure behind it, suspect at
  -- least one and fewer than the threshold, open that the instant of opening is known, half-open that
  -- successes are still missing.
  pub run-IsCoherent :
      (cfg : SchedulerConfig fl) (es : List Event)
      → 0 < cfg.circuit_failure_threshold
      → 0 < cfg.circuit_half_open_successes
      → IsCoherent cfg (run cfg new es)
  unfolding run new
  run-IsCoherent cfg [] p q = ground arith
  run-IsCoherent cfg (e ∷ es) p q =
      step-IsCoherent cfg (run cfg new es) e p q (run-IsCoherent cfg es p q)
