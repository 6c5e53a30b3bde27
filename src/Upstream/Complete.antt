-- ===== src/Upstream/Complete.antt =====
-- The answers that `resolve` of src/upstream/scheduler.rs returns, and those of its retry over a stream.
use egressdns.Prelude.{
  Bool, Bool-cases, List, Option, Option-cases, [], arith, false, get_elem?, inl, inr, none,
  none≢some, refl, some, subst, suc, sym, take, true, zero, ℕ, ◌==◌, ◌∙◌, ◌∷◌, ◌≡◌, ◌⊎◌,
}
use egressdns.Float.{Floats}
use egressdns.Message.{Hickory, Message}
use egressdns.Health.{SchedulerConfig}
use egressdns.Upstream.{Route, RouteKey, is_stream}
use egressdns.Upstream.Attempt.{
  AttemptResult, Trial, UpstreamAnswer, attempt, may_send, queue, reserve, PermitPolicy,
}
use egressdns.Upstream.Resolve.{accepted, answer_of, answered, note, retry_loop, streams}
use egressdns.Upstream.Keys.{keys, keys-attempt, keys-note}
use egressdns.Upstream.Answers.{Fits, Fitting, Fits-finish_attempt}

module _ {k : Hickory} where
  -- The message fits the request, and is complete: it is not truncated, or a stream brought it.
  pub record IsComplete (request : Message k) (a : UpstreamAnswer k) : Type 0 where
    pub fits : Fits request a.message
    pub whole : (a.message.truncation ≡ false) ⊎ (is_stream a.route.transport ≡ true)

-- The route at a place, if there is one, is a stream.
abbrev pub StreamKey : Option RouteKey → Type 0
StreamKey none = Unit {0}
StreamKey (some key) = is_stream key.transport ≡ true

abbrev pub AllStreams : List RouteKey → List ℕ → Type 0
AllStreams ks [] = Unit {0}
AllStreams ks (i ∷ is) = StreamKey (get_elem? ks i) × AllStreams ks is

pub AllStreams-take :
    (n : ℕ) (ks : List RouteKey) (is : List ℕ) → AllStreams ks is → AllStreams ks (take n is)
AllStreams-take zero ks is h = tt
AllStreams-take (suc n) ks [] h = tt
AllStreams-take (suc n) ks (i ∷ is) h = (h.0, AllStreams-take n ks is h.1)

module _ {fl : Floats} where
  pub get_elem?-keys :
      (routes : List (Route fl)) (i : ℕ) {r : Route fl}
      → get_elem? routes i ≡ some r
      → get_elem? (keys routes) i ≡ some r.key
  get_elem?-keys [] i h = absurd (none≢some h)
  get_elem?-keys (x ∷ routes) zero h = cc
  get_elem?-keys (x ∷ routes) (suc i) h = get_elem?-keys routes i h

  get_elem?-no_key :
      (routes : List (Route fl)) (i : ℕ)
      → get_elem? routes i ≡ none
      → get_elem? (keys routes) i ≡ none
  get_elem?-no_key [] i h = refl
  get_elem?-no_key (x ∷ routes) zero h = absurd (none≢some (sym h))
  get_elem?-no_key (x ∷ routes) (suc i) h = get_elem?-no_key routes i h

  pub AllStreams-streams :
      (routes : List (Route fl)) (is : List ℕ) → AllStreams (keys routes) (streams routes is)
  unfolding streams
  AllStreams-streams routes [] = tt
  AllStreams-streams routes (i ∷ is) = elim (Option-cases (get_elem? routes i)) [
    | inl e ↦ rw (e, AllStreams) (AllStreams-streams routes is)
    | inr (r, e) ↦ elim (Bool-cases (is_stream r.key.transport)) [
      | inr not_one ↦ rw (e, not_one, AllStreams) (AllStreams-streams routes is)
      | inl stream ↦
          let here : StreamKey (get_elem? (keys routes) i) =
            rw (get_elem?-keys routes i e) stream in
          rw (e, stream, AllStreams) (here, AllStreams-streams routes is)
    ]
  ]

module _ {fl : Floats} {k : Hickory} (cfg : SchedulerConfig fl) (request : Message k) where
  pub Fits-attempt :
      (routes : List (Route fl)) (i : ℕ) (policy : PermitPolicy) (t : Trial k)
      → Fitting request (attempt cfg routes i request policy t).1.message
  unfolding attempt
  Fits-attempt routes i policy t = elim (Bool-cases (may_send cfg policy 0 t)) [
    | inl e ↦ rw e (Fits-finish_attempt (reserve routes i).0 i request (reserve routes i).1 t.reply)
    | inr e ↦ rw e tt
  ]

  pub accepted-Fits :
      (result : AttemptResult k) (m : Message k)
      → accepted cfg request result ≡ some m
      → Fitting request result.message
      → Fits request m
  unfolding accepted
  accepted-Fits result m h fits =
      let known : result.message ≡ some m = ground arith in
      subst (λ x. Fitting request x) known fits

  -- An answer is that of the route, with a message that fits.
  pub answered-inv :
      (routes : List (Route fl)) (i : ℕ) (result : AttemptResult k) (retried : Bool)
      {a : UpstreamAnswer k}
      → answered cfg request routes i result retried ≡ some a
      → Fitting request result.message
      → (get_elem? (keys routes) i ≡ some a.route) × Fits request a.message
  answered-inv routes i result retried {a} h fits =
      elim (Option-cases (accepted cfg request result)) [
        | inl e ↦ absurd (none≢some {a = a} (unfold answered in ground arith))
        | inr (m, e) ↦ elim (Option-cases (get_elem? routes i)) [
          | inl f ↦ absurd (none≢some {a = a} (unfold answered in ground arith))
          | inr (r, f) ↦
              let made = answer_of cfg request r m result.latency retried in
              let known : made ≡ a = unfold answered in ground arith in
              let here : (get_elem? (keys routes) i ≡ some made.route) × Fits request made.message =
                unfold answer_of in (get_elem?-keys routes i f, accepted-Fits result m e fits) in
              subst
                (λ (x : UpstreamAnswer k).
                  (get_elem? (keys routes) i ≡ some x.route) × Fits request x.message)
                known here
        ]
      ]

  answered-IsComplete :
      (routes : List (Route fl)) (i : ℕ) (result : AttemptResult k) {a : UpstreamAnswer k}
      → answered cfg request routes i result true ≡ some a
      → Fitting request result.message
      → StreamKey (get_elem? (keys routes) i)
      → IsComplete request a
  answered-IsComplete routes i result h fits stream =
      let (at, fit) = answered-inv routes i result true h fits in
      record { fits = fit; whole = inr (subst StreamKey at stream) }

  -- An answer of the retry is complete.
  pub retry_loop-IsComplete :
      (routes : List (Route fl)) (is : List ℕ) (trials : List (Trial k)) {a : UpstreamAnswer k}
      → AllStreams (keys routes) is
      → (retry_loop cfg request routes is trials).1 ≡ some a
      → IsComplete request a
  unfolding retry_loop
  retry_loop-IsComplete routes [] trials h e = absurd (none≢some e)
  retry_loop-IsComplete routes (i ∷ is) [] h e = absurd (none≢some e)
  retry_loop-IsComplete routes (i ∷ is) (t ∷ trials) {a} h e =
      let tried = attempt cfg routes i request queue t in
      let noted = note cfg request tried.0 i tried.1 t.now in
      let same : keys noted ≡ keys routes =
        keys-note cfg request tried.0 i tried.1 t.now ∙ keys-attempt cfg routes i request queue t in
      let streams' : AllStreams (keys noted) (i ∷ is) =
        subst (λ ks. AllStreams ks (i ∷ is)) (sym same) h in
      elim (Bool-cases (t.left_before == 0)) [
        | inl over ↦ absurd (none≢some {a = a} (ground arith))
        | inr more ↦ elim (Option-cases (answered cfg request noted i tried.1 true)) [
          | inl f ↦ retry_loop-IsComplete noted is trials streams'.1 (ground arith)
          | inr (b, f) ↦
              answered-IsComplete noted i tried.1 (ground arith) (Fits-attempt routes i queue t)
                streams'.0
        ]
      ]
