-- ===== src/Health/Score.antt =====
-- What src/upstream/health.rs reads from the recorded statistics: probabilities, percentiles, the score of
-- a route and the delay of its hedge.
use egressdns.Prelude.{
  Bool, In, In-get_or, In-sort, arith, false, get_or, if◌then◌else◌, length, length-sort,
  length-take, ltb, max, min, sort, take, ℕ, ◌-◌, ◌<◌, ◌==◌, ◌≡◌, ◌≤◌,
}
use egressdns.Float.{Floats}
use egressdns.Health.{RouteHealth, SchedulerConfig, as_ms, millis}

-- A share of the attempts, or what stands for it when there are none.
unfoldable ratio : (fl : Floats) → fl.F → fl.F → fl.F → fl.F → fl.F
ratio fl n empty above below = if fl.le n (fl.lit 0 1) then empty else fl.div above below

unfoldable pub weight_bias : (fl : Floats) → ℕ → fl.F
weight_bias fl weight = fl.div (fl.lit 100 1) (fl.of_ℕ (max weight 1))

module _ {fl : Floats} where
  unfoldable total : RouteHealth fl → fl.F
  total h =
      fl.add (fl.add (fl.add (fl.add h.successes h.timeouts) h.server_failures) h.malformeds)
        h.transport_errors

  unfoldable success_probability : RouteHealth fl → fl.F
  unfolding total ratio
  success_probability h =
      ratio fl (total h) (fl.lit 1 2) (fl.add h.successes (fl.lit 1 1))
        (fl.add (total h) (fl.lit 2 1))

  unfoldable timeout_probability : RouteHealth fl → fl.F
  unfolding total ratio
  timeout_probability h = ratio fl (total h) (fl.lit 0 1) h.timeouts (total h)

  unfoldable server_failure_probability : RouteHealth fl → fl.F
  unfolding total ratio
  server_failure_probability h = ratio fl (total h) (fl.lit 0 1) h.server_failures (total h)

  unfoldable malformed_probability : RouteHealth fl → fl.F
  unfolding total ratio
  malformed_probability h = ratio fl (total h) (fl.lit 0 1) h.malformeds (total h)

  unfoldable uncertainty : RouteHealth fl → fl.F
  unfolding total success_probability
  uncertainty h =
      let n = fl.add (total h) (fl.lit 2 1) in
      let p = success_probability h in fl.sqrt (fl.div (fl.mul p (fl.sub (fl.lit 1 1) p)) n)

  unfoldable pub percentile : RouteHealth fl → fl.F → fl.F
  unfolding sort
  percentile h q =
      if h.window_len == 0
      then fl.lit 0 1
      else let v = sort fl.total_le (take h.window_len h.window) in
        let rank = fl.ceil_usize (fl.mul q (fl.of_ℕ (length v))) in
        get_or v (max 1 (min rank (length v)) - 1) (fl.lit 0 1)

  unfoldable pub is_measured : RouteHealth fl → Bool
  is_measured h = ltb 0 h.window_len

  unfoldable pub score : RouteHealth fl → ℕ → fl.F
  unfolding percentile success_probability uncertainty
  score h weight =
      let base = if h.window_len == 0 then fl.lit 50 1 else h.ewma_ms in
      let tail = fl.mul (fl.lit 3 10) (percentile h (fl.lit 95 100)) in
      let jitter = fl.mul (fl.lit 2 10) h.jitter_ms in
      let failure = fl.mul (fl.sub (fl.lit 1 1) (success_probability h)) (fl.lit 600 1) in
      let streak =
        if h.consecutive_failures == 0
        then fl.lit 0 1
        else fl.mul (fl.lit 50 1)
            (fl.pow (fl.of_ℕ (min h.consecutive_failures 8)) (fl.lit 16 10)) in
      let unsure = fl.mul (uncertainty h) (fl.lit 40 1) in
      let connect =
        if h.window_len == 0 then fl.mul h.connect_cost_ms (fl.lit 1 2) else fl.lit 0 1 in
      fl.add
        (fl.add (fl.add (fl.add (fl.add (fl.add (fl.add base tail) jitter) failure) streak) unsure)
          connect)
        (fl.div (fl.lit 100 1) (fl.of_ℕ (max weight 1)))

  unfoldable pub hedge_delay : RouteHealth fl → SchedulerConfig fl → ℕ
  unfolding percentile
  hedge_delay h cfg =
      let low = as_ms fl cfg.hedge_min_delay in
      let target = if h.window_len == 0 then low else percentile h cfg.hedge_percentile in
      millis (fl.round_u64 (fl.clamp target low (as_ms fl cfg.hedge_max_delay)))

  -- Whatever the floats do, a percentile of a route with measurements is one of the latencies in the
  -- used part of its window: the index that is computed never leaves it.
  pub percentile-In :
      (h : RouteHealth fl) (q : fl.F)
      → 0 < h.window_len
      → h.window_len ≤ length h.window
      → In (percentile h q) (take h.window_len h.window)
  unfolding percentile
  percentile-In h q some_used within =
      let used = take h.window_len h.window in
      let v = sort fl.total_le used in
      let rank = fl.ceil_usize (fl.mul q (fl.of_ℕ (length v))) in
      let size : length v ≡ h.window_len =
        omega (arith, length-sort fl.total_le used, length-take h.window_len h.window) in
      let nonzero : (h.window_len == 0) ≡ false = ground arith in
      let found = In-get_or v (max 1 (min rank (length v)) - 1) (fl.lit 0 1) (omega arith) in
      simp nonzero (In-sort fl.total_le _ used found)
