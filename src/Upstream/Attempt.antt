-- ===== src/Upstream/Attempt.antt =====
-- One attempt of src/upstream/scheduler.rs: what it does before it sends, and what it makes of the reply.
-- The time and the semaphore are what the attempt finds; the texts of its errors are left out.
use egressdns.Prelude.{
  Bool, List, Option, false, get_elem?, if◌then◌else◌, leb, min, none, not, set, some, true, ℕ,
  ◌&&◌, ◌==◌, ◌||◌,
}
use egressdns.Float.{Floats}
use egressdns.Message.{Hickory, Message}
use egressdns.Message.Replies.{
  cookie_option, cookie_option_code, cookie_payload, extract_server_cookie, question_matches,
}
use egressdns.Health.{
  AttemptOutcome, SchedulerConfig, begin_attempt, malformed, record_attempt, release_attempt,
  server_failure, success,
}
use egressdns.Upstream.{Route, RouteKey, with_health}

pub data PermitPolicy : Type 0 where
  queue shed_at_once : PermitPolicy

module _ (k : Hickory) where
  -- What `Route::send` returns.
  pub data Reply : Type 0 where
    failed : AttemptOutcome → Reply
    received : Message k → ℕ → Reply

  -- What an attempt meets: the time left before its delay, before its wait and before it sends, whether a
  -- permit is free at once or in time, the reply, and the instant at which it is recorded.
  pub record Trial : Type 0 where
    pub left_before : ℕ
    pub left_waiting : ℕ
    pub free_now : Bool
    pub free_in_time : Bool
    pub left_sending : ℕ
    pub reply : Reply
    pub now : ℕ

  pub record AttemptResult : Type 0 where
    pub outcome : Option AttemptOutcome
    pub latency : Option ℕ
    pub message : Option (Message k)

  pub record UpstreamAnswer : Type 0 where
    pub message : Message k
    pub route : RouteKey
    pub latency : ℕ
    pub stream_retry : Bool
    pub trust_ad : Bool

-- `NoError`, `NXDomain` and the others.
unfoldable pub judge_code : ℕ → Option AttemptOutcome
judge_code code = if code == 0 || code == 3 then none else some server_failure

module _ {k : Hickory} where
  -- `AttemptResult::shed`.
  abbrev pub shed : AttemptResult k
  shed = record { outcome = none; latency = none; message = none }

  -- A server that supports cookies must echo the client's.
  unfoldable pub cookie_missing : Message k → Bool → List ℕ → Bool
  cookie_missing response cookies_enabled client =
      let found : Bool = elim (cookie_option response) [ none ↦ false | some o ↦ true ] in
      let echoed : Bool = elim (extract_server_cookie response client) [
        | none ↦ false
        | some o ↦ true
      ] in
      cookies_enabled && (found && not echoed)

  -- `none` where the response is accepted.
  unfoldable pub validate_response : Message k → Message k → Bool → List ℕ → Option AttemptOutcome
  validate_response request response cookies_enabled client =
      if not (question_matches request response)
      then some malformed
      else if not response.is_response
      then some malformed
      else if not (response.op_code == request.op_code)
      then some malformed
      else if cookie_missing response cookies_enabled client
      then some malformed
      else judge_code response.response_code

module _ {fl : Floats} where
  -- The half-open slot of the route at a place, if it takes one.
  unfoldable pub reserve : List (Route fl) → ℕ → List (Route fl) × Bool
  reserve routes i = elim (get_elem? routes i) [
    | none ↦ (routes, false)
    | some r ↦
        let (h, taken) = begin_attempt r.health in (set routes i (record r { health = h }), taken)
  ]

  unfoldable pub release : List (Route fl) → ℕ → Bool → List (Route fl)
  release routes i taken = if taken then with_health routes i release_attempt else routes

  -- `h.record` for an attempt with an outcome.
  unfoldable pub record_outcome :
      SchedulerConfig fl → List (Route fl) → ℕ → AttemptOutcome → Option ℕ → ℕ → List (Route fl)
  record_outcome cfg routes i outcome latency now =
      with_health routes i (λ h. record_attempt h outcome latency now cfg)

module _ {fl : Floats} {k : Hickory} where
  -- The request with the route's cookie.
  unfoldable pub with_cookie : Route fl → Message k → Message k
  with_cookie r m =
      if r.cookies_enabled
      then elim m.edns [
        | none ↦ m
        | some e ↦ record m {
          edns = some (
              k.insert_option e cookie_option_code
                (cookie_payload r.cookie.client r.cookie.server));
        }
      ]
      else m

  -- Whether an attempt gets as far as sending.
  unfoldable pub may_send : SchedulerConfig fl → PermitPolicy → ℕ → Trial k → Bool
  may_send cfg policy delay t =
      let permit : Bool = elim policy [
        | queue ↦ t.free_now || t.free_in_time
        | shed_at_once ↦ t.free_now
      ] in
      if not (delay == 0) && leb t.left_before delay
      then false
      else if min cfg.query_timeout t.left_waiting == 0
      then false
      else permit && not (min cfg.query_timeout t.left_sending == 0)

  -- A server cookie that the response brings is kept.
  unfoldable pub learn_cookie : Route fl → Message k → Route fl
  learn_cookie r m = elim (extract_server_cookie m r.cookie.client) [
    | none ↦ r
    | some server ↦
        if r.cookies_enabled
        then record r { cookie = record { client = r.cookie.client; server = some server } }
        else r
  ]

  -- What the reply is to this route, and the route after it.
  unfoldable pub judge : Route fl → Message k → Reply k → Route fl × AttemptResult k
  judge r request (failed outcome) =
      (r, record { outcome = some outcome; latency = none; message = none })
  judge r request (received m latency) =
      elim (validate_response (with_cookie r request) m r.cookies_enabled r.cookie.client) [
        | none ↦ (
          learn_cookie r m,
          record { outcome = some success; latency = some latency; message = some m },
        )
        | some outcome ↦
            (r, record { outcome = some outcome; latency = some latency; message = none })
      ]

  -- The end of an attempt that has sent: the slot is given back.
  unfoldable pub finish_attempt :
      List (Route fl) → ℕ → Message k → Bool → Reply k → List (Route fl) × AttemptResult k
  finish_attempt routes i request taken reply = elim (get_elem? routes i) [
    | none ↦ (routes, shed)
    | some r ↦
        let (r', result) = judge r request reply in (release (set routes i r') i taken, result)
  ]

  -- An attempt from its start to its end, without a hedge's delay.
  unfoldable pub attempt :
      SchedulerConfig fl
      → List (Route fl)
      → ℕ
      → Message k
      → PermitPolicy
      → Trial k
      → List (Route fl) × AttemptResult k
  attempt cfg routes i request policy t =
      let (reserved, taken) = reserve routes i in
      if may_send cfg policy 0 t
      then finish_attempt reserved i request taken t.reply
      else (routes, shed)
