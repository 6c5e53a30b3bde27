-- ===== src/Health/Tests.antt =====
-- Concrete runs of the circuit breaker, over floats that are whole numbers.
use egressdns.Prelude.{
  List, [], arith, false, nanos_per_sec, none, refl, some, true, ℕ, ◌*◌, ◌-◌, ◌∷◌, ◌≡◌, ◌≤◌, ◌⊎◌,
}
use egressdns.Float.Whole.{whole}
use egressdns.Health.{
  open_circuit, half_open, timeout, SchedulerConfig, RouteHealth, new, open_wait, is_usable, millis,
}
use egressdns.Health.Circuit.{Event, records, ticks, begins, IsCoherent, step, run, run-IsCoherent}
use egressdns.Health.Trips.{step_open, Early}

abbrev config : SchedulerConfig whole
config = record {
  circuit_failure_threshold = 2;
  circuit_open_duration = 5 * nanos_per_sec;
  circuit_half_open_successes = 2;
  hedge_min_delay = millis 5;
  hedge_max_delay = millis 500;
  hedge_percentile = 1;
  hedge_enabled = true;
  hedge_max_fraction = 1;
  query_timeout = 2 * nanos_per_sec;
  explore_rate = 0;
  emergency_fanout = true;
  emergency_fanout_max = 2;
}

abbrev events : List Event
events = begins ∷ ticks (9 * nanos_per_sec) 3 ∷ records timeout none 1 ∷ records timeout none 0 ∷ []

run-IsCoherent_example : IsCoherent config (run config new events)
run-IsCoherent_example = run-IsCoherent config events (omega arith) (omega arith)

abbrev tripped : RouteHealth whole
tripped = record {
  successes = 0;
  timeouts = 2;
  server_failures = 0;
  malformeds = 0;
  transport_errors = 0;
  ewma_ms = 0;
  jitter_ms = 0;
  window = [];
  window_len = 0;
  window_pos = 0;
  connect_cost_ms = 0;
  consecutive_failures = 2;
  samples = 2;
  last_update = some 7;
  last_success = none;
  circuit = open_circuit;
  circuit_changed_at = some 7;
  half_open_successes = 0;
  half_open_inflight = 0;
}

step_open_example :
    let h' = step config tripped (ticks (20 * nanos_per_sec) 3) in
    (Early config 7 (ticks (20 * nanos_per_sec) 3)
      × (h'.circuit ≡ open_circuit)
      × (h'.circuit_changed_at ≡ some 7)
      × (is_usable h' ≡ false))
    ⊎ ((now : ℕ) × (seed : ℕ) × (ticks (20 * nanos_per_sec) 3 ≡ ticks now seed)
        × (open_wait config seed ≤ now - 7)
        × (millis 100 ≤ now - 7)
        × (h'.circuit ≡ half_open)
        × (h'.circuit_changed_at ≡ some now)
        × (h'.half_open_inflight ≡ 0)
        × (is_usable h' ≡ true))
step_open_example = step_open config tripped (ticks (20 * nanos_per_sec) 3) 7 refl refl

-- Three latencies in the window.
abbrev measured : RouteHealth whole
measured = record (new {fl = whole}) { window = 7 ∷ 3 ∷ 5 ∷ 0 ∷ []; window_len = 3; window_pos = 3 }
