-- ===== src/Health/Trips.antt =====
-- When the circuit of src/upstream/health.rs opens, and when it lets traffic through again.
use egressdns.Prelude.{
  Bool-cases, List, [], ap, arith, false, if◌then◌else◌, inl, inr, leb, length, ltb, none, refl,
  some, suc, true, u32_max, ℕ, ◌-◌, ◌<◌, ◌==◌, ◌∷◌, ◌≡◌, ◌≤◌, ◌⊎◌,
}
use egressdns.Float.{Floats}
use egressdns.Health.{
  closed, suspect, open_circuit, half_open, AttemptOutcome, is_failure, SchedulerConfig,
  RouteHealth, new, update_circuit, record_attempt, open_wait, tick, is_usable, begin_attempt,
  release_attempt, millis,
}
use egressdns.Health.Circuit.{
  Event, records, ticks, begins, releases, step, Prepared, prepared, prepared-Prepared,
}

abbrev pub AllFail : List (AttemptOutcome × ℕ) → Type 0
AllFail [] = Unit {0}
AllFail ((outcome, now) ∷ rest) = (is_failure outcome ≡ true) × AllFail rest

module _ {fl : Floats} where
  -- A run of failures, each with its own outcome and time, the latest first.
  unfoldable pub fail :
      SchedulerConfig fl → RouteHealth fl → List (AttemptOutcome × ℕ) → RouteHealth fl
  fail cfg h [] = h
  fail cfg h ((outcome, now) ∷ rest) = record_attempt (fail cfg h rest) outcome none now cfg

  -- The circuit after `n` failures in a row from new, and their count while it is in use.
  record AfterFailures (cfg : SchedulerConfig fl) (n : ℕ) (h : RouteHealth fl) : Type 0 where
    pub counted : n < cfg.circuit_failure_threshold → h.consecutive_failures ≡ n
    pub in_use :
        n < cfg.circuit_failure_threshold → h.circuit ≡ (if n == 0 then closed else suspect)
    pub tripped : cfg.circuit_failure_threshold ≤ n → h.circuit ≡ open_circuit

  AfterFailures-update :
      (cfg : SchedulerConfig fl) (n : ℕ) (h r : RouteHealth fl) (outcome : AttemptOutcome) (now : ℕ)
      → Prepared h r outcome
      → cfg.circuit_failure_threshold ≤ u32_max
      → is_failure outcome ≡ true
      → AfterFailures cfg n h
      → AfterFailures cfg (suc n) (update_circuit r outcome now cfg)
  unfolding update_circuit
  AfterFailures-update cfg n h r outcome now p small bad v = ground arith

  fail-AfterFailures :
      (cfg : SchedulerConfig fl) (fs : List (AttemptOutcome × ℕ))
      → 0 < cfg.circuit_failure_threshold
      → cfg.circuit_failure_threshold ≤ u32_max
      → AllFail fs
      → AfterFailures cfg (length fs) (fail cfg new fs)
  unfolding fail record_attempt new
  fail-AfterFailures cfg [] positive small all = ground arith
  fail-AfterFailures cfg ((outcome, now) ∷ rest) positive small (bad, all) =
      AfterFailures-update cfg (length rest) (fail cfg new rest)
        (prepared (fail cfg new rest) outcome none now) outcome now
        (prepared-Prepared (fail cfg new rest) outcome none now) small bad
        (fail-AfterFailures cfg rest positive small all)

  -- A new route that fails every attempt stays usable exactly until the failures reach the threshold,
  -- whatever kinds of failure they are and whenever they happen; then its circuit is open.
  pub is_usable-fail :
      (cfg : SchedulerConfig fl) (fs : List (AttemptOutcome × ℕ))
      → 0 < cfg.circuit_failure_threshold
      → cfg.circuit_failure_threshold ≤ u32_max
      → AllFail fs
      → (is_usable (fail cfg new fs) ≡ ltb (length fs) cfg.circuit_failure_threshold)
        × (cfg.circuit_failure_threshold ≤ length fs → (fail cfg new fs).circuit ≡ open_circuit)
  unfolding is_usable
  is_usable-fail cfg fs positive small all =
      let v = fail-AfterFailures cfg fs positive small all in
      (ground (arith, v.in_use, v.tripped), v.tripped)

  update_open :
      (h r : RouteHealth fl) (outcome : AttemptOutcome) (now opened : ℕ) (cfg : SchedulerConfig fl)
      → Prepared h r outcome
      → h.circuit ≡ open_circuit
      → h.circuit_changed_at ≡ some opened
      → let h' = update_circuit r outcome now cfg in
        (h'.circuit ≡ open_circuit) × (h'.circuit_changed_at ≡ some opened) × (is_usable h' ≡ false)
  unfolding update_circuit is_usable
  update_open h r outcome now opened cfg p o c = ground arith

  half_opened : RouteHealth fl → ℕ → RouteHealth fl
  half_opened h now = record h {
    circuit = half_open;
    circuit_changed_at = some now;
    half_open_successes = 0;
    half_open_inflight = 0;
  }

  -- What happens to a circuit opened at `opened` before its jittered wait is over; a tick may be late.
  abbrev pub Early : SchedulerConfig fl → ℕ → Event → Type 0
  Early cfg opened (ticks now seed) = now - opened < open_wait cfg seed
  Early cfg opened _ = Unit

  -- An open circuit stays open, and its route unusable, exactly as long as no tick comes that is later than
  -- the opening by the jittered wait, which is never under 100 ms: whatever is recorded, reserved or
  -- released, and every earlier tick, leaves it. A tick that late makes the circuit half-open, with no
  -- attempt in flight and its own time, and the route usable.
  pub step_open :
      (cfg : SchedulerConfig fl) (h : RouteHealth fl) (e : Event) (opened : ℕ)
      → h.circuit ≡ open_circuit
      → h.circuit_changed_at ≡ some opened
      → let h' = step cfg h e in
        (Early cfg opened e
          × (h'.circuit ≡ open_circuit)
          × (h'.circuit_changed_at ≡ some opened)
          × (is_usable h' ≡ false))
        ⊎ ((now : ℕ) × (seed : ℕ) × (e ≡ ticks now seed)
            × (open_wait cfg seed ≤ now - opened)
            × (millis 100 ≤ now - opened)
            × (h'.circuit ≡ half_open)
            × (h'.circuit_changed_at ≡ some now)
            × (h'.half_open_inflight ≡ 0)
            × (is_usable h' ≡ true))
  unfolding step is_usable
  step_open cfg h (records outcome latency now) opened o c =
      unfold record_attempt in
      let (stays, at, unusable) =
        update_open h (prepared h outcome latency now) outcome now opened cfg
          (prepared-Prepared h outcome latency now) o c in
      inl (tt, stays, at, unusable)
  step_open cfg h (ticks now seed) opened o c =
      elim (Bool-cases (leb (open_wait cfg seed) (now - opened))) [
        | inl over ↦
            let t : tick h now cfg seed ≡ half_opened h now =
              unfold tick half_opened in ground arith in
            let least : millis 100 ≤ open_wait cfg seed = unfold open_wait in omega arith in
            inr (
              now,
              seed,
              refl,
              ground arith,
              ground arith,
              unfold half_opened in ap (λ r. r.circuit) t,
              unfold half_opened in ap (λ r. r.circuit_changed_at) t,
              unfold half_opened in ap (λ r. r.half_open_inflight) t,
              unfold half_opened in ap is_usable t,
            )
        | inr early ↦
            let t : tick h now cfg seed ≡ h = unfold tick in ground arith in inl (ground arith)
      ]
  step_open cfg h begins opened o c = unfold begin_attempt in inl (ground arith)
  step_open cfg h releases opened o c = unfold release_attempt in inl (ground arith)
