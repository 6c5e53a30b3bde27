-- ===== src/Health.antt =====
-- src/upstream/health.rs: the health of one upstream route and its circuit breaker. A method that takes
-- `&mut self` returns the new record.
pub mod Circuit
pub mod Trips
pub mod Score
mod Tests
use egressdns.Prelude.{
  Bool, List, Option, false, if◌then◌else◌, leb, ltb, max, min, nanos_per_sec, none, replicate,
  saturating_add32, set, some, true, ℕ, ◌%◌, ◌*◌, ◌+◌, ◌-◌, ◌==◌, ◌^◌,
}
use egressdns.Float.{Floats, unit_from_seed}

-- `WINDOW` and `HALF_LIFE`.
abbrev pub window_size : ℕ
window_size = 32

abbrev pub half_life : ℕ
half_life = 120 * nanos_per_sec

abbrev pub millis : ℕ → ℕ
millis n = n * 1000000

pub data CircuitState : Type 0 where
  closed suspect open_circuit half_open : CircuitState

pub data AttemptOutcome : Type 0 where
  success timeout server_failure malformed transport_error : AttemptOutcome

unfoldable pub is_failure : AttemptOutcome → Bool
is_failure success = false
is_failure _ = true

module _ (fl : Floats) where
  pub record SchedulerConfig : Type 0 where
    pub circuit_failure_threshold : ℕ
    pub circuit_open_duration : ℕ
    pub circuit_half_open_successes : ℕ
    pub hedge_min_delay : ℕ
    pub hedge_max_delay : ℕ
    pub hedge_percentile : fl.F
    pub hedge_enabled : Bool
    pub hedge_max_fraction : fl.F
    pub query_timeout : ℕ
    pub explore_rate : fl.F
    pub emergency_fanout : Bool
    pub emergency_fanout_max : ℕ

  pub record RouteHealth : Type 0 where
    pub successes : fl.F
    pub timeouts : fl.F
    pub server_failures : fl.F
    pub malformeds : fl.F
    pub transport_errors : fl.F
    pub ewma_ms : fl.F
    pub jitter_ms : fl.F
    pub window : List fl.F
    pub window_len : ℕ
    pub window_pos : ℕ
    pub connect_cost_ms : fl.F
    pub consecutive_failures : ℕ
    pub samples : ℕ
    pub last_update : Option ℕ
    pub last_success : Option ℕ
    pub circuit : CircuitState
    pub circuit_changed_at : Option ℕ
    pub half_open_successes : ℕ
    pub half_open_inflight : ℕ

-- A duration in milliseconds.
abbrev pub as_ms : (fl : Floats) → ℕ → fl.F
as_ms fl d = fl.mul (fl.as_secs_f64 d) (fl.lit 1000 1)

module _ {fl : Floats} where
  open fl use {lit, add, sub, mul}

  unfoldable pub new : RouteHealth fl
  new = record {
    successes = lit 0 1;
    timeouts = lit 0 1;
    server_failures = lit 0 1;
    malformeds = lit 0 1;
    transport_errors = lit 0 1;
    ewma_ms = lit 0 1;
    jitter_ms = lit 0 1;
    window = replicate window_size (lit 0 1);
    window_len = 0;
    window_pos = 0;
    connect_cost_ms = lit 0 1;
    consecutive_failures = 0;
    samples = 0;
    last_update = none;
    last_success = none;
    circuit = closed;
    circuit_changed_at = none;
    half_open_successes = 0;
    half_open_inflight = 0;
  }

  decay_by : RouteHealth fl → fl.F → RouteHealth fl
  decay_by h factor = record h {
    successes = mul h.successes factor;
    timeouts = mul h.timeouts factor;
    server_failures = mul h.server_failures factor;
    malformeds = mul h.malformeds factor;
    transport_errors = mul h.transport_errors factor;
  }

  unfoldable pub decay : RouteHealth fl → ℕ → RouteHealth fl
  unfolding decay_by
  decay h now = elim h.last_update [
    | none ↦ h
    | some last ↦
        let elapsed = fl.as_secs_f64 (now - last) in
        if fl.le elapsed (lit 0 1)
        then h
        else decay_by h (fl.pow (lit 1 2) (fl.div elapsed (fl.as_secs_f64 half_life)))
  ]

  unfoldable pub record_connect : RouteHealth fl → ℕ → RouteHealth fl
  record_connect h cost = record h {
    connect_cost_ms =
        if fl.eq h.connect_cost_ms (lit 0 1)
        then as_ms fl cost
        else add (mul (lit 7 10) h.connect_cost_ms) (mul (lit 3 10) (as_ms fl cost));
  }

  -- The latency of a success goes into the averages and the window.
  unfoldable pub note_latency : RouteHealth fl → ℕ → RouteHealth fl
  note_latency h d =
      let ms = as_ms fl d in
      record h {
        jitter_ms =
            if h.window_len == 0
            then h.jitter_ms
            else add (mul (lit 75 100) h.jitter_ms) (mul (lit 25 100) (fl.abs (sub ms h.ewma_ms)));
        ewma_ms =
            if h.window_len == 0
            then ms
            else add (mul (lit 75 100) h.ewma_ms) (mul (lit 25 100) ms);
        window = set h.window h.window_pos (fl.as_f32 ms);
        window_pos = (h.window_pos + 1) % window_size;
        window_len = min (h.window_len + 1) window_size;
      }

  -- The `match` of `record` on the outcome.
  unfoldable pub count_outcome : RouteHealth fl → AttemptOutcome → Option ℕ → ℕ → RouteHealth fl
  unfolding note_latency
  count_outcome h success latency now =
      let h' = record h {
        successes = add h.successes (lit 1 1);
        consecutive_failures = 0;
        last_success = some now;
      } in
      elim latency [ none ↦ h' | some d ↦ note_latency h' d ]
  count_outcome h timeout latency now = record h {
    timeouts = add h.timeouts (lit 1 1);
    consecutive_failures = saturating_add32 h.consecutive_failures 1;
  }
  count_outcome h server_failure latency now = record h {
    server_failures = add h.server_failures (lit 1 1);
    consecutive_failures = saturating_add32 h.consecutive_failures 1;
  }
  count_outcome h malformed latency now = record h {
    malformeds = add h.malformeds (lit 1 1);
    consecutive_failures = saturating_add32 h.consecutive_failures 1;
  }
  count_outcome h transport_error latency now = record h {
    transport_errors = add h.transport_errors (lit 1 1);
    consecutive_failures = saturating_add32 h.consecutive_failures 1;
  }

  -- The branch of `update_circuit` for a closed or suspect circuit.
  unfoldable pub update_in_use :
      RouteHealth fl → AttemptOutcome → ℕ → SchedulerConfig fl → RouteHealth fl
  update_in_use h outcome now cfg =
      if is_failure outcome
      then if leb cfg.circuit_failure_threshold h.consecutive_failures
        then record h {
          circuit = open_circuit;
          circuit_changed_at = some now;
          half_open_successes = 0;
          half_open_inflight = 0;
        }
        else if ltb 0 h.consecutive_failures
        then record h { circuit = suspect }
        else h
      else record h { circuit = closed }

  -- The branch for a half-open circuit. The reservation is released by the caller's guard.
  unfoldable pub update_half_open :
      RouteHealth fl → AttemptOutcome → ℕ → SchedulerConfig fl → RouteHealth fl
  update_half_open h outcome now cfg =
      if is_failure outcome
      then record h {
        circuit = open_circuit;
        circuit_changed_at = some now;
        half_open_successes = 0;
      }
      else let n = saturating_add32 h.half_open_successes 1 in
        if leb cfg.circuit_half_open_successes n
        then record h {
          half_open_successes = n;
          circuit = closed;
          circuit_changed_at = some now;
          consecutive_failures = 0;
        }
        else record h { half_open_successes = n }

  unfoldable pub update_circuit :
      RouteHealth fl → AttemptOutcome → ℕ → SchedulerConfig fl → RouteHealth fl
  unfolding update_in_use update_half_open
  update_circuit h outcome now cfg = elim h.circuit [
    | closed ↦ update_in_use h outcome now cfg
    | suspect ↦ update_in_use h outcome now cfg
    | open_circuit ↦ h
    | half_open ↦ update_half_open h outcome now cfg
  ]

  -- `samples` is a `u64` that saturates.
  unfoldable pub record_attempt :
      RouteHealth fl → AttemptOutcome → Option ℕ → ℕ → SchedulerConfig fl → RouteHealth fl
  record_attempt h outcome latency now cfg =
      let decayed = decay h now in
      let sampled = record decayed { samples = min (decayed.samples + 1) (2 ^ 64 - 1) } in
      let counted = count_outcome sampled outcome latency now in
      update_circuit (record counted { last_update = some now }) outcome now cfg

  -- How long an open circuit waits, with the jitter of the seed.
  unfoldable pub open_wait : SchedulerConfig fl → ℕ → ℕ
  open_wait cfg seed =
      let jitter = mul (unit_from_seed fl seed) (lit 1 2) in
      max (fl.mul_f64 cfg.circuit_open_duration (add (lit 1 1) jitter)) (millis 100)

  unfoldable pub tick_open : RouteHealth fl → ℕ → SchedulerConfig fl → ℕ → RouteHealth fl
  tick_open h now cfg seed = elim h.circuit_changed_at [
    | none ↦ record h { circuit_changed_at = some now }
    | some changed ↦
        if leb (open_wait cfg seed) (now - changed)
        then record h {
          circuit = half_open;
          circuit_changed_at = some now;
          half_open_successes = 0;
          half_open_inflight = 0;
        }
        else h
  ]

  unfoldable pub tick : RouteHealth fl → ℕ → SchedulerConfig fl → ℕ → RouteHealth fl
  unfolding tick_open
  tick h now cfg seed = elim h.circuit [ open_circuit ↦ tick_open h now cfg seed | _ ↦ h ]

  unfoldable pub is_usable : RouteHealth fl → Bool
  is_usable h = elim h.circuit [
    | closed ↦ true
    | suspect ↦ true
    | half_open ↦ h.half_open_inflight == 0
    | open_circuit ↦ false
  ]

  unfoldable pub begin_attempt : RouteHealth fl → RouteHealth fl × Bool
  begin_attempt h = elim h.circuit [
    | half_open ↦ (record h { half_open_inflight = saturating_add32 h.half_open_inflight 1 }, true)
    | _ ↦ (h, false)
  ]

  unfoldable pub release_attempt : RouteHealth fl → RouteHealth fl
  release_attempt h = record h { half_open_inflight = h.half_open_inflight - 1 }
