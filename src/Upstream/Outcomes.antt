-- ===== src/Upstream/Outcomes.antt =====
-- What the loop of `resolve` of src/upstream/scheduler.rs returns.
use egressdns.Upstream.Load.{load, weight, weights, weights-fan_out, weights-pick, unstarted}
use egressdns.Prelude.{
  Bool, Bool-cases, List, List-cases, Option, Option-cases, ap, arith, false, get_elem?,
  if◌then◌else◌, inl, inr, none, none≢some, not, refl, some, suc, sym, take, true, ℕ, ◌&&◌, ◌+◌,
  ◌==◌, ◌≡◌, ◌≤◌, ◌⊎◌,
}
use egressdns.Float.{Floats}
use egressdns.Message.{Hickory, Message}
use egressdns.Health.{SchedulerConfig}
use egressdns.Upstream.{Route, is_stream}
use egressdns.Upstream.Rank.{NetworkState, rank_inner}
use egressdns.Upstream.Attempt.{AttemptResult, Trial, UpstreamAnswer, may_send, shed}
use egressdns.Upstream.Resolve.{
  Event, Outcome, Pending, Resolution, Step, accepted, answer, answer_of, continues, fan_out, pick,
  returns, streams, deadline_passed, progress, no_route, timed_out, overloaded, invalid_response,
  all_failed,
}
use egressdns.Upstream.Loop.{
  finish, on_drained, on_progress, on_result, step, stream_retry, use_message, use_retry, give_up,
  emergency,
}
use egressdns.Upstream.Answers.{Fits, Fitting, Fits-finish_attempt}
use egressdns.Upstream.Complete.{
  AllStreams-streams, AllStreams-take, IsComplete, accepted-Fits, retry_loop-IsComplete,
}

weight_pos : (sent : Option Bool) → 1 ≤ weight sent
weight_pos none = omega arith
weight_pos (some taken) = omega arith

module _ {k : Hickory} (request : Message k) where
  abbrev pub GoodOutcome : Outcome k → Type 0
  GoodOutcome (answer a) = IsComplete request a
  GoodOutcome no_route = Unit {0}
  GoodOutcome timed_out = Unit {0}
  GoodOutcome overloaded = Unit {0}
  GoodOutcome invalid_response = Unit {0}
  GoodOutcome all_failed = Unit {0}

  -- A step that goes on leaves at most this load.
  abbrev pub Good : {fl : Floats} → ℕ → Step fl k → Type 0
  Good n (continues s) = load s ≤ n
  Good n (returns s outcome) = GoodOutcome outcome

not_cut : (cut stream : Bool) → (cut && not stream) ≡ false → (cut ≡ false) ⊎ (stream ≡ true)
not_cut true true h = inr refl
not_cut true false h = inr (sym h)
not_cut false stream h = inl refl

module _ {fl : Floats} {k : Hickory} (cfg : SchedulerConfig fl) (request : Message k)
    (net : NetworkState) (relearning : Bool) (seed : ℕ) (ranked : List ℕ) where
  finish-Good :
      (n : ℕ) (s : Resolution fl) (outcome : Outcome k)
      → GoodOutcome request outcome
      → Good request n (finish cfg request net relearning seed ranked s outcome)
  unfolding finish
  finish-Good n s outcome h = h

  failed-Good :
      (n : ℕ) (s : Resolution fl) (c : Bool) (a b : Outcome k)
      → GoodOutcome request a
      → GoodOutcome request b
      → Good request n (finish cfg request net relearning seed ranked s (if c then a else b))
  unfolding finish
  failed-Good n s true a b h h' = h
  failed-Good n s false a b h h' = h'

  stream_retry-IsComplete :
      (routes : List (Route fl)) (late : Bool) (now : ℕ) (retries : List (Trial k))
      {a : UpstreamAnswer k}
      → (stream_retry cfg request net relearning seed ranked routes late now retries).1 ≡ some a
      → IsComplete request a
  unfolding stream_retry
  stream_retry-IsComplete routes true now retries h = absurd (none≢some h)
  stream_retry-IsComplete routes false now retries h =
      let ranking = rank_inner routes cfg net relearning now seed true in
      retry_loop-IsComplete cfg request ranking.0 (take 2 (streams ranking.0 ranking.1)) retries
        (AllStreams-take 2 _ _ (AllStreams-streams ranking.0 ranking.1)) h

  use_retry-Good :
      (n : ℕ) (s : Resolution fl) (late : Bool) (now : ℕ) (retries : List (Trial k))
      → Good request n (use_retry cfg request net relearning seed ranked s late now retries)
  unfolding use_retry
  use_retry-Good n s late now retries =
      elim (Option-cases
        (stream_retry cfg request net relearning seed ranked s.routes late now retries).1) [
          | inl e ↦ rw (e, Good) (finish-Good n _ invalid_response tt)
          | inr (a, e) ↦
              rw (e, Good)
                (finish-Good n _ (answer a) (stream_retry-IsComplete s.routes late now retries e))
        ]

  use_message-Good :
      (n : ℕ) (s : Resolution fl) (i : ℕ) (result : AttemptResult k) (m : Message k) (late : Bool)
      (now : ℕ) (retries : List (Trial k))
      → Fits request m
      → load s ≤ n
      → Good request n
          (use_message cfg request net relearning seed ranked s i result m late now retries)
  unfolding use_message
  use_message-Good n s i result m late now retries fits small =
      elim (Option-cases (get_elem? s.routes i)) [
        | inl e ↦ rw (e, Good) small
        | inr (r, e) ↦ elim (Bool-cases (m.truncation && not (is_stream r.key.transport))) [
          | inl cut ↦ rw (e, cut, Good) (use_retry-Good n s late now retries)
          | inr fine ↦
              let complete : IsComplete request (answer_of cfg request r m result.latency false) =
                unfold answer_of in
                record {
                  fits = fits;
                  whole = not_cut m.truncation (is_stream r.key.transport) fine;
                } in
              rw (e, fine, Good) (finish-Good n s _ complete)
        ]
      ]

  on_result-Good :
      (n : ℕ) (s : Resolution fl) (pos i : ℕ) (result : AttemptResult k) (late : Bool) (now : ℕ)
      (retries : List (Trial k))
      → Fitting request result.message
      → load s ≤ n
      → Good request n
          (on_result cfg request net relearning seed ranked s pos i result late now retries)
  unfolding on_result
  on_result-Good n s pos i result late now retries fits small = elim (Option-cases result.outcome) [
    | inl e ↦ elim (Bool-cases (pos == 0)) [
      | inl primary ↦ rw (e, primary, Good) (failed-Good n s late timed_out overloaded tt tt)
      | inr other ↦ rw (e, other, Good) small
    ]
    | inr (o, e) ↦ elim (Option-cases (accepted cfg request result)) [
      | inl f ↦ rw (e, f, Good) small
      | inr (m, f) ↦
          rw (e, f, Good)
            (use_message-Good n _ i result m late now retries
              (accepted-Fits cfg request result m f fits) small)
    ]
  ]

  give_up-Good :
      (n : ℕ) (s : Resolution fl)
      → Good request n (give_up cfg request net relearning seed ranked s)
  unfolding give_up
  give_up-Good n s = failed-Good n s s.any_exchange all_failed overloaded tt tt

  emergency-Good :
      (n : ℕ) (s : Resolution fl)
      → unstarted s.attempted + 1 ≤ n
      → Good request n (emergency cfg request net relearning seed ranked s)
  unfolding emergency
  emergency-Good n s small =
      let pushed = fan_out cfg.emergency_fanout_max 0 s.attempted in
      let kept = weights-fan_out cfg.emergency_fanout_max 0 s.attempted in
      elim (List-cases pushed.0) [
        | inl e ↦ rw (e, Good) (give_up-Good n _)
        | inr (p, rest, e) ↦
            let split : weights pushed.0 ≡ weight p.sent + weights rest = ap weights e in
            rw (e, Good) (omega arith)
      ]

  on_drained-Good :
      (n : ℕ) (s : Resolution fl)
      → load s ≤ suc n
      → Good request n (on_drained cfg request net relearning seed ranked s)
  unfolding on_drained
  on_drained-Good n s small = elim (Bool-cases (cfg.emergency_fanout && not s.fanned_out)) [
    | inl e ↦
        let fresh : s.fanned_out ≡ false = ground arith in
        rw (e, Good) (emergency-Good n s (ground arith))
    | inr e ↦ rw (e, Good) (give_up-Good n s)
  ]

  on_progress-Good :
      (n : ℕ) (s : Resolution fl) (p : Pending) (others : List Pending) (i : ℕ) (t : Trial k)
      (late : Bool) (retries : List (Trial k))
      → weight p.sent + load (record s { pending = others }) ≤ suc n
      → Good request n
          (on_progress cfg request net relearning seed ranked s p others i t late retries)
  unfolding on_progress
  on_progress-Good n s p others i t late retries small = elim (Option-cases p.sent) [
    | inr (taken, e) ↦
        let one : weight p.sent ≡ 1 = ap weight e in
        rw (e, Good)
          (on_result-Good n _ p.pos i _ late t.now retries
            (Fits-finish_attempt s.routes i request taken t.reply) (omega arith))
    | inl e ↦
        let two : weight p.sent ≡ 2 = ap weight e in
        elim (Bool-cases (may_send cfg p.policy p.delay t)) [
          | inl sends ↦ rw (e, sends, Good) (omega arith)
          | inr no_send ↦
              rw (e, no_send, Good)
                (on_result-Good n _ p.pos i shed late t.now retries tt (omega arith))
        ]
  ]

  -- Each step either returns or leaves less to do.
  pub step-Good :
      (n : ℕ) (s : Resolution fl) (e : Event k)
      → load s ≤ suc n
      → Good request n (step cfg request net relearning seed ranked s e)
  unfolding step
  step-Good n s deadline_passed small = finish-Good n s timed_out tt
  step-Good n s (progress m t late retries) small = elim (List-cases s.pending) [
    | inl e ↦ rw (e, Good) (on_drained-Good n s small)
    | inr (p, ps, e) ↦
        let picked = pick m p ps in
        let rest = record s { pending = picked.1 } in
        let split : weights s.pending ≡ weight p.sent + weights ps = ap weights e in
        let left : weight picked.0.sent + load rest ≤ suc n = omega (arith, weights-pick m p ps) in
        let some_left : 1 ≤ weight picked.0.sent = weight_pos picked.0.sent in
        elim (Option-cases (get_elem? ranked picked.0.pos)) [
          | inl f ↦ rw (e, f, Good) (omega arith)
          | inr (i, f) ↦
              rw (e, f, Good) (on_progress-Good n s picked.0 picked.1 i t late retries left)
        ]
  ]
