-- ===== src/Upstream/Tests.antt =====
-- Concrete runs of the scheduler, over floats that are whole numbers.
use egressdns.Upstream.Cookies.{CookieFits}
use egressdns.Cache.Entry.{TransportKind}
use egressdns.Upstream.Independent.{IsOther, resolve_pair-IsOther}
use egressdns.Upstream.Opinions.{resolve_pair}
use egressdns.Prelude.{
  List, Option, [], ap, arith, false, nanos_per_sec, none, none≢some, refl, replicate, some,
  some-injective, true, ℕ, ℕ_discrete, ◌*◌, ◌↔◌, ◌∷◌, ◌≡◌, ◌⊎◌,
}
use mathlib.Core.List.{Perm}
use egressdns.Net.{v4}
use egressdns.Float.Whole.{whole}
use egressdns.Message.{Hickory, Message, Proof}
use egressdns.Health.{RouteHealth, SchedulerConfig, new, millis, CircuitState}
use egressdns.Upstream.{EgressPath, ResolverRole, Route, TransportKind}
use egressdns.Upstream.Hedge.{HedgeBudget}
use egressdns.Upstream.Rank.{FamilyState, NetworkState, rank_inner, rank}
use egressdns.Upstream.Attempt.{Trial, UpstreamAnswer, received, validate_response, cookie_missing}
use egressdns.Upstream.Resolve.{Event, Outcome, Resolution, Step, answer, progress, returns}
use egressdns.Upstream.Loop.{resolve}
use egressdns.Upstream.Offers.{best, rank_inner-Perm, with_standing}
use egressdns.Upstream.Answers.{Fits, validate_response-none_iff, SameQuestion}
use egressdns.Upstream.Complete.{IsComplete}
use egressdns.Upstream.Ends.{resolve-IsComplete, resolve-returns}

abbrev names : Hickory
names = record {
  Name = ℕ;
  name_discrete = ℕ_discrete;
  Payload = ℕ;
  payload_type = λ n. n;
  default_proof = Proof.indeterminate;
  to_string = λ n. n ∷ [];
  Edns = List ℕ;
  option = λ e code. some (some e);
  insert_option = λ e code bytes. bytes;
}

abbrev config : SchedulerConfig whole
config = record {
  circuit_failure_threshold = 2;
  circuit_open_duration = 5 * nanos_per_sec;
  circuit_half_open_successes = 2;
  hedge_min_delay = millis 5;
  hedge_max_delay = millis 500;
  hedge_percentile = 1;
  hedge_enabled = true;
  hedge_max_fraction = 1;
  query_timeout = 2 * nanos_per_sec;
  explore_rate = 0;
  emergency_fanout = true;
  emergency_fanout_max = 2;
}

abbrev route : TransportKind → ℕ → RouteHealth whole → Route whole
route transport n health = record {
  key = record {
    server = n ∷ [];
    transport = transport;
    addr = v4 n;
    path = [];
    role = ResolverRole.authority;
    authority = n ∷ [];
  };
  weight = 100;
  cookies_enabled = false;
  trust_ad = false;
  egress = EgressPath.direct;
  stream_companion = false;
  health = health;
  cookie = record { client = []; server = none };
}

abbrev broken : RouteHealth whole
broken = record new { circuit = CircuitState.open_circuit; circuit_changed_at = some 0 }

-- A UDP route, a TCP route of another authority, and one with an open circuit.
abbrev group : List (Route whole)
group =
    route TransportKind.udp 1 new
    ∷ route TransportKind.tcp 2 new
    ∷ route TransportKind.doh2 3 broken
    ∷ []

abbrev net : NetworkState
net = record { v4 = FamilyState.usable; v6 = FamilyState.unusable }

abbrev question : Message names
question = record {
  is_response = false;
  op_code = 0;
  truncation = false;
  queries = record { name = 7; query_type = 1; query_class = 1 } ∷ [];
  edns = none;
  response_code = 0;
  authentic_data = false;
  answers = [];
  authorities = [];
  additionals = [];
}

abbrev reply : Message names
reply = record question { is_response = true }

abbrev cut : Message names
cut = record reply { truncation = true }

ranking : (rank group config net false 1 0).1 ≡ 0 ∷ 1 ∷ []
unfolding rank egressdns.Prelude.sort egressdns.Upstream.Rank.offered
    egressdns.Health.Score.is_measured egressdns.Health.tick new egressdns.Health.open_wait
    egressdns.Float.unit_from_seed egressdns.Util.fnv1a64 egressdns.Util.to_le_bytes
    egressdns.Upstream.Rank.same_bucket egressdns.Upstream.Rank.bucket_of
    egressdns.Upstream.Rank.family_ok egressdns.Health.is_usable egressdns.Health.Score.score
    egressdns.Upstream.Rank.proxy_penalty
ranking = refl

rank_inner-Perm_example :
    let (ticked, ranked) = rank_inner group config net false 1 0 false in
    Perm ranked (with_standing net false (best net false ticked) 0 ticked)
rank_inner-Perm_example = rank_inner-Perm config net false group 1 0 false

refused_answer :
    validate_response question (record reply { response_code = 5 }) false []
    ≡ some egressdns.Health.server_failure
unfolding validate_response egressdns.Message.Replies.question_matches egressdns.Cache.Name.str_eq
    egressdns.Cache.Name.to_ascii_lowercase cookie_missing egressdns.Upstream.Attempt.judge_code
refused_answer = refl

abbrev trial : Message names → Trial names
trial m = record {
  left_before = nanos_per_sec;
  left_waiting = nanos_per_sec;
  free_now = true;
  free_in_time = true;
  left_sending = nanos_per_sec;
  reply = received m (millis 20);
  now = 9;
}

-- The primary sends, and its truncated reply is retried over TCP.
abbrev events : List (Event names)
events = progress 0 (trial cut) false [] ∷ progress 0 (trial cut) false (trial reply ∷ []) ∷ []

abbrev nothing_yet : HedgeBudget
nothing_yet = record { queries = 0; hedges = 0 }

abbrev ended : Step whole names
ended = resolve config question net false 1 group nothing_yet nanos_per_sec 0 events

abbrev given : Step whole names → Option (UpstreamAnswer names)
given (Step.returns s (Outcome.answer a)) = some a
given _ = none

abbrev complete_reply : UpstreamAnswer names
complete_reply = record {
  message = reply;
  route = record {
    server = 2 ∷ [];
    transport = TransportKind.tcp;
    addr = v4 2;
    path = [];
    role = ResolverRole.authority;
    authority = 2 ∷ [];
  };
  latency = millis 20;
  stream_retry = true;
  trust_ad = false;
}

retried : given ended ≡ some complete_reply
unfolding egressdns.Upstream.Loop.resolve egressdns.Upstream.Rank.rank
    egressdns.Upstream.Rank.rank_inner egressdns.Upstream.Loop.run egressdns.Upstream.Loop.step
    egressdns.Upstream.Resolve.pick egressdns.Upstream.Resolve.start
    egressdns.Upstream.Resolve.planned_hedge egressdns.Upstream.Resolve.independent_position
    egressdns.Upstream.Hedge.allows egressdns.Float.lt egressdns.Upstream.Hedge.rate
    egressdns.Upstream.Hedge.record_query egressdns.Upstream.Loop.on_progress
    egressdns.Upstream.Attempt.may_send egressdns.Upstream.Attempt.reserve
    egressdns.Health.begin_attempt egressdns.Upstream.Attempt.finish_attempt
    egressdns.Upstream.Attempt.judge egressdns.Upstream.Attempt.with_cookie
    egressdns.Upstream.Attempt.learn_cookie egressdns.Message.Replies.extract_server_cookie
    egressdns.Message.Replies.server_part egressdns.Message.Replies.cookie_option
    egressdns.Message.Replies.is_empty egressdns.Upstream.Attempt.release
    egressdns.Upstream.with_health egressdns.Upstream.Loop.on_result egressdns.Upstream.Resolve.note
    egressdns.Upstream.Attempt.record_outcome egressdns.Health.record_attempt egressdns.Health.decay
    egressdns.Upstream.Resolve.accepted egressdns.Upstream.Loop.use_message
    egressdns.Upstream.Loop.use_retry egressdns.Upstream.Loop.stream_retry
    egressdns.Upstream.Resolve.streams egressdns.Upstream.Resolve.retry_loop
    egressdns.Upstream.Resolve.answered egressdns.Upstream.Attempt.attempt
    egressdns.Upstream.Resolve.answer_of egressdns.Upstream.is_stream egressdns.Upstream.Loop.finish
    egressdns.Upstream.Loop.drop_pending egressdns.Health.Score.hedge_delay
    egressdns.Health.Score.percentile egressdns.Health.is_failure egressdns.Upstream.Resolve.fan_out
    egressdns.Upstream.Resolve.pushed egressdns.Prelude.sort egressdns.Upstream.Rank.offered
    egressdns.Health.Score.is_measured egressdns.Health.tick egressdns.Health.new
    egressdns.Health.open_wait egressdns.Float.unit_from_seed egressdns.Util.fnv1a64
    egressdns.Util.to_le_bytes egressdns.Upstream.Rank.same_bucket egressdns.Upstream.Rank.bucket_of
    egressdns.Upstream.Rank.family_ok egressdns.Health.is_usable egressdns.Health.Score.score
    egressdns.Upstream.Rank.proxy_penalty egressdns.Message.Replies.question_matches
    egressdns.Cache.Name.str_eq egressdns.Cache.Name.to_ascii_lowercase
    egressdns.Upstream.Attempt.cookie_missing egressdns.Upstream.Attempt.judge_code
    egressdns.Upstream.Attempt.validate_response egressdns.Health.release_attempt
    egressdns.Health.update_circuit egressdns.Health.count_outcome egressdns.Health.note_latency
    egressdns.Upstream.Rank.order_routes egressdns.Upstream.Rank.tick_from
    egressdns.Upstream.Rank.candidates_from egressdns.Upstream.Rank.reprice
    egressdns.Upstream.Rank.fall_back egressdns.Upstream.Rank.cheaper
    egressdns.Upstream.Rank.explores egressdns.Health.Score.weight_bias
    egressdns.Upstream.Rank.neutral egressdns.Upstream.Rank.measured_scores
retried = refl

given-inv :
    (x : Step whole names) {a : UpstreamAnswer names}
    → given x ≡ some a
    → (s : Resolution whole) × (x ≡ returns s (answer a))
given-inv (Step.returns s (Outcome.answer a)) h =
    (s, ap (λ y. returns s (answer y)) (some-injective h))
given-inv (Step.returns s Outcome.no_route) h = absurd (none≢some h)
given-inv (Step.returns s Outcome.timed_out) h = absurd (none≢some h)
given-inv (Step.returns s Outcome.overloaded) h = absurd (none≢some h)
given-inv (Step.returns s Outcome.invalid_response) h = absurd (none≢some h)
given-inv (Step.returns s Outcome.all_failed) h = absurd (none≢some h)
given-inv (Step.continues s) h = absurd (none≢some h)

resolve-IsComplete_example : IsComplete question complete_reply
resolve-IsComplete_example =
    resolve-IsComplete config question net false 1 group nothing_yet nanos_per_sec 0 events
      (given-inv ended retried).1

resolve-returns_example :
    (s : Resolution whole) × (outcome : Outcome names) × (resolve config question net false 1 group
        nothing_yet nanos_per_sec 0
        (replicate 10 (progress 0 (trial cut) false []))
      ≡ returns s outcome)
resolve-returns_example =
    resolve-returns config question net false 1 group nothing_yet nanos_per_sec 0
      (replicate 10 (progress 0 (trial cut) false [])) (omega arith)

abbrev client_cookie : List ℕ
client_cookie = 1 ∷ 2 ∷ 3 ∷ 4 ∷ 5 ∷ 6 ∷ 7 ∷ 8 ∷ []

validate_response-none_iff_example :
    (validate_response question reply true client_cookie ≡ none) ↔ (
      SameQuestion question.queries reply.queries
      × (reply.is_response ≡ true)
      × (reply.op_code ≡ question.op_code)
      × ((reply.response_code ≡ 0) ⊎ (reply.response_code ≡ 3))
      × ((true ≡ false) ⊎ CookieFits client_cookie reply))
validate_response-none_iff_example =
    validate_response-none_iff question reply true client_cookie refl

abbrev first_reply : UpstreamAnswer names
first_reply = record {
  message = reply;
  route = record {
    server = 1 ∷ [];
    transport = TransportKind.udp;
    addr = v4 1;
    path = [];
    role = ResolverRole.authority;
    authority = 1 ∷ [];
  };
  latency = millis 20;
  stream_retry = false;
  trust_ad = false;
}

abbrev second_reply : UpstreamAnswer names
second_reply = record complete_reply { stream_retry = false }

two_opinions :
    (resolve_pair config question net false 1 group nanos_per_sec 0 (trial reply) (trial reply)).1
    ≡ some (first_reply, second_reply)
unfolding egressdns.Upstream.Loop.resolve egressdns.Upstream.Rank.rank
    egressdns.Upstream.Rank.rank_inner egressdns.Upstream.Loop.run egressdns.Upstream.Loop.step
    egressdns.Upstream.Resolve.pick egressdns.Upstream.Resolve.start
    egressdns.Upstream.Resolve.planned_hedge egressdns.Upstream.Resolve.independent_position
    egressdns.Upstream.Hedge.allows egressdns.Float.lt egressdns.Upstream.Hedge.rate
    egressdns.Upstream.Hedge.record_query egressdns.Upstream.Loop.on_progress
    egressdns.Upstream.Attempt.may_send egressdns.Upstream.Attempt.reserve
    egressdns.Health.begin_attempt egressdns.Upstream.Attempt.finish_attempt
    egressdns.Upstream.Attempt.judge egressdns.Upstream.Attempt.with_cookie
    egressdns.Upstream.Attempt.learn_cookie egressdns.Message.Replies.extract_server_cookie
    egressdns.Message.Replies.server_part egressdns.Message.Replies.cookie_option
    egressdns.Message.Replies.is_empty egressdns.Upstream.Attempt.release
    egressdns.Upstream.with_health egressdns.Upstream.Loop.on_result egressdns.Upstream.Resolve.note
    egressdns.Upstream.Attempt.record_outcome egressdns.Health.record_attempt egressdns.Health.decay
    egressdns.Upstream.Resolve.accepted egressdns.Upstream.Loop.use_message
    egressdns.Upstream.Loop.use_retry egressdns.Upstream.Loop.stream_retry
    egressdns.Upstream.Resolve.streams egressdns.Upstream.Resolve.retry_loop
    egressdns.Upstream.Resolve.answered egressdns.Upstream.Attempt.attempt
    egressdns.Upstream.Resolve.answer_of egressdns.Upstream.is_stream egressdns.Upstream.Loop.finish
    egressdns.Upstream.Loop.drop_pending egressdns.Health.Score.hedge_delay
    egressdns.Health.Score.percentile egressdns.Health.is_failure egressdns.Upstream.Resolve.fan_out
    egressdns.Upstream.Resolve.pushed egressdns.Prelude.sort egressdns.Upstream.Rank.offered
    egressdns.Health.Score.is_measured egressdns.Health.tick egressdns.Health.new
    egressdns.Health.open_wait egressdns.Float.unit_from_seed egressdns.Util.fnv1a64
    egressdns.Util.to_le_bytes egressdns.Upstream.Rank.same_bucket egressdns.Upstream.Rank.bucket_of
    egressdns.Upstream.Rank.family_ok egressdns.Health.is_usable egressdns.Health.Score.score
    egressdns.Upstream.Rank.proxy_penalty egressdns.Message.Replies.question_matches
    egressdns.Cache.Name.str_eq egressdns.Cache.Name.to_ascii_lowercase
    egressdns.Upstream.Attempt.cookie_missing egressdns.Upstream.Attempt.judge_code
    egressdns.Upstream.Attempt.validate_response egressdns.Health.release_attempt
    egressdns.Health.update_circuit egressdns.Health.count_outcome egressdns.Health.note_latency
    egressdns.Upstream.Rank.order_routes egressdns.Upstream.Rank.tick_from
    egressdns.Upstream.Rank.candidates_from egressdns.Upstream.Rank.reprice
    egressdns.Upstream.Rank.fall_back egressdns.Upstream.Rank.cheaper
    egressdns.Upstream.Rank.explores egressdns.Health.Score.weight_bias
    egressdns.Upstream.Rank.neutral egressdns.Upstream.Rank.measured_scores
    egressdns.Upstream.Opinions.resolve_pair egressdns.Upstream.Opinions.ask_both
    egressdns.Upstream.Opinions.ask egressdns.Upstream.Opinions.both
    egressdns.Upstream.Opinions.other_opinion egressdns.Upstream.is_independent
two_opinions = refl

resolve_pair-IsOther_example :
    IsOther (1 ∷ []) second_reply.route × Fits question reply × Fits question reply
resolve_pair-IsOther_example =
    resolve_pair-IsOther config question net false 1 group nanos_per_sec 0 (trial reply)
      (trial reply) two_opinions
