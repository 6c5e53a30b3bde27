-- ===== src/Upstream/Keys.antt =====
-- The identities of the routes of a group stay as they are, whatever is attempted over them.
use egressdns.Prelude.{
  Bool, Bool-cases, List, Option-cases, [], ap, arith, false, get_elem?, inl, inr, map, none≢some,
  refl, set, some, suc, true, zero, ℕ, ◌∙◌, ◌∷◌, ◌≡◌,
}
use egressdns.Float.{Floats}
use egressdns.Message.{Hickory, Message}
use egressdns.Health.{RouteHealth, SchedulerConfig, release_attempt}
use egressdns.Upstream.{Route, RouteKey, with_health}
use egressdns.Upstream.Attempt.{
  AttemptResult, PermitPolicy, Reply, Trial, attempt, finish_attempt, judge, learn_cookie, may_send,
  record_outcome, release, reserve, failed, received,
}
use egressdns.Upstream.Resolve.{note}
use egressdns.Prelude.{none≢some}

module _ {fl : Floats} where
  abbrev pub keys : List (Route fl) → List RouteKey
  keys routes = map (λ (r : Route fl). r.key) routes

  keys-set :
      (routes : List (Route fl)) (i : ℕ) {r : Route fl} (r' : Route fl)
      → get_elem? routes i ≡ some r
      → r'.key ≡ r.key
      → keys (set routes i r') ≡ keys routes
  keys-set [] i r' found same = absurd (none≢some found)
  keys-set (x ∷ routes) zero r' found same = cc
  keys-set (x ∷ routes) (suc i) r' found same = ap (◌∷◌ x.key) (keys-set routes i r' found same)

  pub keys-with_health :
      (routes : List (Route fl)) (i : ℕ) (f : RouteHealth fl → RouteHealth fl)
      → keys (with_health routes i f) ≡ keys routes
  unfolding with_health
  keys-with_health routes i f = elim (Option-cases (get_elem? routes i)) [
    | inl e ↦ rw (e, with_health) refl
    | inr (r, e) ↦ rw (e, with_health) (keys-set routes i _ e refl)
  ]

  pub keys-reserve : (routes : List (Route fl)) (i : ℕ) → keys (reserve routes i).0 ≡ keys routes
  unfolding reserve
  keys-reserve routes i = elim (Option-cases (get_elem? routes i)) [
    | inl e ↦ rw (e, reserve) refl
    | inr (r, e) ↦ rw (e, reserve) (keys-set routes i _ e refl)
  ]

  pub keys-release :
      (routes : List (Route fl)) (i : ℕ) (taken : Bool)
      → keys (release routes i taken) ≡ keys routes
  unfolding release
  keys-release routes i true = keys-with_health routes i release_attempt
  keys-release routes i false = refl

module _ {fl : Floats} {k : Hickory} where
  key-learn_cookie : (r : Route fl) (m : Message k) → (learn_cookie r m).key ≡ r.key
  unfolding learn_cookie
  key-learn_cookie r m = ground arith

  key-judge :
      (r : Route fl) (request : Message k) (reply : Reply k) → (judge r request reply).0.key ≡ r.key
  unfolding judge
  key-judge r request (failed outcome) = refl
  key-judge r request (received m latency) = ground (arith, key-learn_cookie r m)

  pub keys-finish_attempt :
      (routes : List (Route fl)) (i : ℕ) (request : Message k) (taken : Bool) (reply : Reply k)
      → keys (finish_attempt routes i request taken reply).0 ≡ keys routes
  unfolding finish_attempt
  keys-finish_attempt routes i request taken reply = elim (Option-cases (get_elem? routes i)) [
    | inl e ↦ rw (e, finish_attempt) refl
    | inr (r, e) ↦
        let changed : List (Route fl) = set routes i (judge r request reply).0 in
        rw (e, finish_attempt)
          (keys-release changed i taken ∙ keys-set routes i _ e (key-judge r request reply))
  ]

  pub keys-attempt :
      (cfg : SchedulerConfig fl) (routes : List (Route fl)) (i : ℕ) (request : Message k)
      (policy : PermitPolicy) (t : Trial k)
      → keys (attempt cfg routes i request policy t).0 ≡ keys routes
  unfolding attempt
  keys-attempt cfg routes i request policy t = elim (Bool-cases (may_send cfg policy 0 t)) [
    | inl e ↦
        rw e (keys-finish_attempt _ i request (reserve routes i).1 t.reply ∙ keys-reserve routes i)
    | inr e ↦ rw e refl
  ]

  pub keys-note :
      (cfg : SchedulerConfig fl) (request : Message k) (routes : List (Route fl)) (i : ℕ)
      (result : AttemptResult k) (now : ℕ)
      → keys (note cfg request routes i result now) ≡ keys routes
  unfolding note record_outcome
  keys-note cfg request routes i result now = elim (Option-cases result.outcome) [
    | inl e ↦ rw e refl
    | inr (o, e) ↦ rw e (keys-with_health routes i _)
  ]
