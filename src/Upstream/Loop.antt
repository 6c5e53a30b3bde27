-- ===== src/Upstream/Loop.antt =====
-- The loop of `resolve` of src/upstream/scheduler.rs, and `resolve` itself.
use egressdns.Prelude.{
  Bool, List, Option, [], false, get_elem?, if◌then◌else◌, none, not, some, take, true, ℕ, ◌&&◌,
  ◌==◌, ◌∷◌,
}
use egressdns.Float.{Floats}
use egressdns.Message.{Hickory, Message}
use egressdns.Health.{SchedulerConfig}
use egressdns.Upstream.{Route, is_stream}
use egressdns.Upstream.Hedge.{HedgeBudget, record_hedge, record_query}
use egressdns.Upstream.Rank.{NetworkState, rank, rank_inner}
use egressdns.Upstream.Attempt.{
  AttemptResult, Trial, UpstreamAnswer, finish_attempt, may_send, release, reserve, shed,
}
use egressdns.Upstream.Resolve.{
  Event, Outcome, Pending, Resolution, Step, accepted, all_failed, answer, answer_of, continues,
  deadline_passed, fan_out, invalid_response, no_route, note, overloaded, pick, progress,
  retry_loop, returns, start, streams, timed_out,
}

module _ {fl : Floats} {k : Hickory} (cfg : SchedulerConfig fl) (request : Message k)
    (net : NetworkState) (relearning : Bool) (seed : ℕ) (ranked : List ℕ) where
  unfoldable pub stream_retry :
      List (Route fl) → Bool → ℕ → List (Trial k) → List (Route fl) × Option (UpstreamAnswer k)
  stream_retry routes late now trials =
      let (ticked, again) = rank_inner routes cfg net relearning now seed true in
      if late
      then (routes, none)
      else retry_loop cfg request ticked (take 2 (streams ticked again)) trials

  -- Dropping the attempts that are still pending gives back their slots.
  unfoldable pub drop_pending : List (Route fl) → List Pending → List (Route fl)
  drop_pending routes [] = routes
  drop_pending routes (p ∷ ps) =
      drop_pending
        (elim (get_elem? ranked p.pos) [
          | none ↦ routes
          | some i ↦ elim p.sent [ none ↦ routes | some taken ↦ release routes i taken ]
        ])
        ps

  unfoldable pub finish : Resolution fl → Outcome k → Step fl k
  finish s outcome =
      returns (record s { routes = drop_pending s.routes s.pending; pending = [] }) outcome

  -- A truncated message is never used: a stream has to bring all of it.
  unfoldable pub use_retry : Resolution fl → Bool → ℕ → List (Trial k) → Step fl k
  use_retry s late now retries =
      let (routes, retried) = stream_retry s.routes late now retries in
      let s' = record s { routes = routes } in
      elim retried [ some a ↦ finish s' (answer a) | none ↦ finish s' invalid_response ]

  -- The message of an attempt that succeeded.
  unfoldable pub use_message :
      Resolution fl → ℕ → AttemptResult k → Message k → Bool → ℕ → List (Trial k) → Step fl k
  use_message s i result m late now retries = elim (get_elem? s.routes i) [
    | none ↦ continues s
    | some r ↦
        if m.truncation && not (is_stream r.key.transport)
        then use_retry s late now retries
        else finish s (answer (answer_of cfg request r m result.latency false))
  ]

  -- The branch for an attempt that has completed; it is no longer among the pending ones.
  unfoldable pub on_result :
      Resolution fl → ℕ → ℕ → AttemptResult k → Bool → ℕ → List (Trial k) → Step fl k
  on_result s pos i result late now retries = elim result.outcome [
    | none ↦ if pos == 0 then finish s (if late then timed_out else overloaded) else continues s
    | some outcome ↦
        let s' = record s {
          any_exchange = true;
          routes = note cfg request s.routes i result now;
        } in
        elim (accepted cfg request result) [
          | some m ↦ use_message s' i result m late now retries
          | none ↦ continues s'
        ]
  ]

  unfoldable pub give_up : Resolution fl → Step fl k
  give_up s = finish s (if s.any_exchange then all_failed else overloaded)

  -- The routes that were never started, in rank order.
  unfoldable pub emergency : Resolution fl → Step fl k
  emergency s =
      let (ps, marks) = fan_out cfg.emergency_fanout_max 0 s.attempted in
      elim ps [
        | [] ↦ give_up (record s { fanned_out = true })
        | p ∷ rest ↦
            continues (record s { fanned_out = true; attempted = marks; pending = p ∷ rest })
      ]

  -- The branch for no pending attempt.
  unfoldable pub on_drained : Resolution fl → Step fl k
  on_drained s = if cfg.emergency_fanout && not s.fanned_out then emergency s else give_up s

  -- One pending attempt moves on: it sends, or it completes.
  unfoldable pub on_progress :
      Resolution fl → Pending → List Pending → ℕ → Trial k → Bool → List (Trial k) → Step fl k
  on_progress s p others i t late retries =
      let rest = record s { pending = others } in
      elim p.sent [
        | some taken ↦
            let (routes, result) = finish_attempt s.routes i request taken t.reply in
            on_result (record rest { routes = routes }) p.pos i result late t.now retries
        | none ↦
            let (routes, taken) = reserve s.routes i in
            if may_send cfg p.policy p.delay t
            then continues (record rest {
              routes = routes;
              budget = if p.hedge then record_hedge s.budget else s.budget;
              pending = record p { sent = some taken } ∷ others;
            })
            else on_result rest p.pos i shed late t.now retries
      ]

  unfoldable pub step : Resolution fl → Event k → Step fl k
  step s deadline_passed = finish s timed_out
  step s (progress n t passed retries) = elim s.pending [
    | [] ↦ on_drained s
    | p ∷ ps ↦
        let (x, others) = pick n p ps in
        elim (get_elem? ranked x.pos) [
          | none ↦ continues (record s { pending = others })
          | some i ↦ on_progress s x others i t passed retries
        ]
  ]

  -- The loop, as far as the events go.
  unfoldable pub run : Resolution fl → List (Event k) → Step fl k
  run s [] = continues s
  run s (e ∷ events) = elim (step s e) [
    | returns s' outcome ↦ returns s' outcome
    | continues s' ↦ run s' events
  ]

module _ {fl : Floats} {k : Hickory} (cfg : SchedulerConfig fl) (request : Message k) where
  -- `resolve` with the time `budget` of its caller, at an instant.
  unfoldable pub resolve :
      NetworkState → Bool → ℕ → List (Route fl) → HedgeBudget → ℕ → ℕ → List (Event k) → Step fl k
  resolve net relearning seed routes budget time now events =
      let counted = record_query budget in
      let (ticked, ranked) = rank routes cfg net relearning now seed in
      let s = start cfg ticked counted time ranked in
      elim ranked [
        | [] ↦ returns (record s { pending = [] }) no_route
        | i ∷ is ↦ run cfg request net relearning seed (i ∷ is) s events
      ]
