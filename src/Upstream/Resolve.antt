-- ===== src/Upstream/Resolve.antt =====
-- `resolve` of src/upstream/scheduler.rs: one query through a group, over attempts that run at the same
-- time. An event is what ends a wait of its loop.
use egressdns.Prelude.{
  Bool, List, Option, [], false, get_elem?, if◌then◌else◌, length, ltb, none, replicate, set, some,
  suc, true, zero, ℕ, ◌&&◌, ◌+◌, ◌==◌, ◌∷◌,
}
use egressdns.Cache.Name.{str_eq}
use egressdns.Float.{Floats}
use egressdns.Message.{Hickory, Message}
use egressdns.Health.{SchedulerConfig, is_failure}
use egressdns.Health.Score.{hedge_delay}
use egressdns.Upstream.{Route, is_stream}
use egressdns.Upstream.Hedge.{HedgeBudget, allows}
use egressdns.Upstream.Attempt.{
  AttemptResult, PermitPolicy, Trial, UpstreamAnswer, attempt, queue, record_outcome, shed_at_once,
}

-- An attempt that was pushed: its position in the ranking, and, once it has sent, whether it holds a
-- half-open slot.
pub record Pending : Type 0 where
  pub pos : ℕ
  pub delay : ℕ
  pub hedge : Bool
  pub policy : PermitPolicy
  pub sent : Option Bool

module _ (k : Hickory) where
  pub data Outcome : Type 0 where
    answer : UpstreamAnswer k → Outcome
    no_route timed_out overloaded invalid_response all_failed : Outcome

  -- The deadline passes, or a pending attempt moves on: which one, what it meets, whether the deadline has
  -- passed when it is looked at again, and what the attempts of a retry over a stream meet.
  pub data Event : Type 0 where
    deadline_passed : Event
    progress : ℕ → Trial k → Bool → List (Trial k) → Event

module _ (fl : Floats) where
  pub record Resolution : Type 0 where
    pub routes : List (Route fl)
    pub budget : HedgeBudget
    pub attempted : List Bool
    pub pending : List Pending
    pub fanned_out : Bool
    pub any_exchange : Bool

module _ (fl : Floats) (k : Hickory) where
  pub data Step : Type 0 where
    continues : Resolution fl → Step
    returns : Resolution fl → Outcome k → Step

unfoldable pub pushed : ℕ → ℕ → Bool → PermitPolicy → Pending
pushed pos delay hedge policy = record {
  pos = pos;
  delay = delay;
  hedge = hedge;
  policy = policy;
  sent = none;
}

-- One attempt of those that are pending, and the others; past the end, the last.
unfoldable pub pick : ℕ → Pending → List Pending → Pending × List Pending
pick n p [] = (p, [])
pick zero p (q ∷ ps) = (p, q ∷ ps)
pick (suc n) p (q ∷ ps) = let (x, rest) = pick n q ps in (x, p ∷ rest)

-- Which positions of the emergency fan-out are pushed, from a position on, and what is marked.
unfoldable pub fan_out : ℕ → ℕ → List Bool → List Pending × List Bool
fan_out zero pos marks = ([], marks)
fan_out (suc extra) pos [] = ([], [])
fan_out (suc extra) pos (true ∷ marks) =
    let (ps, marks') = fan_out (suc extra) (pos + 1) marks in (ps, true ∷ marks')
fan_out (suc extra) pos (false ∷ marks) =
    let (ps, marks') = fan_out extra (pos + 1) marks in
    (pushed pos 0 false shed_at_once ∷ ps, true ∷ marks')

module _ {fl : Floats} where
  unfoldable pub streams : List (Route fl) → List ℕ → List ℕ
  streams routes [] = []
  streams routes (i ∷ is) = elim (get_elem? routes i) [
    | none ↦ streams routes is
    | some r ↦ if is_stream r.key.transport then i ∷ streams routes is else streams routes is
  ]

module _ {fl : Floats} {k : Hickory} (cfg : SchedulerConfig fl) (request : Message k) where
  unfoldable pub answer_of : Route fl → Message k → Option ℕ → Bool → UpstreamAnswer k
  answer_of r m latency retried = record {
    message = m;
    route = r.key;
    latency = elim latency [ none ↦ 0 | some d ↦ d ];
    stream_retry = retried;
    trust_ad = r.trust_ad;
  }

  -- The message of an attempt that succeeded.
  unfoldable pub accepted : AttemptResult k → Option (Message k)
  accepted result = elim result.outcome [
    | none ↦ none
    | some outcome ↦ if is_failure outcome then none else result.message
  ]

  -- The health of the route after an attempt that reached it.
  unfoldable pub note : List (Route fl) → ℕ → AttemptResult k → ℕ → List (Route fl)
  note routes i result now = elim result.outcome [
    | none ↦ routes
    | some outcome ↦ record_outcome cfg routes i outcome result.latency now
  ]

  unfoldable pub answered : List (Route fl) → ℕ → AttemptResult k → Bool → Option (UpstreamAnswer k)
  unfolding accepted answer_of
  answered routes i result retried = elim (accepted result) [
    | none ↦ none
    | some m ↦ elim (get_elem? routes i) [
      | none ↦ none
      | some r ↦ some (answer_of r m result.latency retried)
    ]
  ]

  -- Each stream route in turn, while there is time.
  unfoldable pub retry_loop :
      List (Route fl) → List ℕ → List (Trial k) → List (Route fl) × Option (UpstreamAnswer k)
  unfolding note answered
  retry_loop routes [] trials = (routes, none)
  retry_loop routes (i ∷ is) [] = (routes, none)
  retry_loop routes (i ∷ is) (t ∷ trials) =
      let (tried, result) = attempt cfg routes i request queue t in
      let noted = note tried i result t.now in
      let next = retry_loop noted is trials in
      if t.left_before == 0
      then (routes, none)
      else elim (answered noted i result true) [ some a ↦ (noted, some a) | none ↦ next ]

module _ {fl : Floats} (cfg : SchedulerConfig fl) where
  -- The first position of a route to another authority.
  unfoldable pub independent_position : List (Route fl) → List ℕ → ℕ → List ℕ → Option ℕ
  independent_position routes authority pos [] = none
  independent_position routes authority pos (i ∷ is) =
      let later = independent_position routes authority (pos + 1) is in
      elim (get_elem? routes i) [
        | none ↦ later
        | some r ↦ if str_eq r.key.authority authority then later else some pos
      ]

  -- The hedge of a primary route, if one is due: its position and its delay.
  unfoldable pub planned_hedge : List (Route fl) → HedgeBudget → ℕ → ℕ → List ℕ → Option (ℕ × ℕ)
  unfolding independent_position
  planned_hedge routes budget time primary ranked = elim (get_elem? routes primary) [
    | none ↦ none
    | some r ↦
        let delay = hedge_delay r.health cfg in
        if cfg.hedge_enabled
          && (ltb 1 (length ranked) && (allows fl budget cfg.hedge_max_fraction && ltb delay time))
        then elim (independent_position routes r.key.authority 0 ranked) [
          | some pos ↦ some (pos, delay)
          | none ↦ some (1, delay)
        ]
        else none
  ]

  -- What is pushed before the loop.
  unfoldable pub start : List (Route fl) → HedgeBudget → ℕ → List ℕ → Resolution fl
  unfolding pushed
  start routes budget time ranked =
      let marks = set (replicate (length ranked) false) 0 true in
      let primary = pushed 0 0 false queue in
      let alone : Resolution fl = record {
        routes = routes;
        budget = budget;
        attempted = marks;
        pending = primary ∷ [];
        fanned_out = false;
        any_exchange = false;
      } in
      elim ranked [
        | [] ↦ alone
        | i ∷ is ↦ elim (planned_hedge routes budget time i (i ∷ is)) [
          | none ↦ alone
          | some (pos, delay) ↦ record alone {
            attempted = set marks pos true;
            pending = primary ∷ pushed pos delay true shed_at_once ∷ [];
          }
        ]
      ]
