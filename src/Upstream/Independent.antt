-- ===== src/Upstream/Independent.antt =====
-- Whose opinions `resolve_pair` and `corroborate` of src/upstream/scheduler.rs return.
use egressdns.Prelude.{
  Bool, Bool-cases, List, List-cases, Option, Option-cases, [], ap, arith, false, get_elem?, inl,
  inr, none, none≢some, not, some, some-injective, subst, sym, true, ℕ, ◌&&◌, ◌==◌, ◌∙◌, ◌∷◌, ◌≡◌,
}
use egressdns.Cache.Name.{str_eq}
use egressdns.Float.{Floats}
use egressdns.Message.{Hickory, Message}
use egressdns.Health.{SchedulerConfig}
use egressdns.Upstream.{Route, RouteKey, is_independent}
use egressdns.Upstream.Rank.{NetworkState, rank}
use egressdns.Upstream.Attempt.{Trial, UpstreamAnswer, attempt, shed_at_once}
use egressdns.Upstream.Answers.{Fits}
use egressdns.Upstream.Resolve.{answered}
use egressdns.Upstream.Keys.{keys, keys-attempt, keys-note}
use egressdns.Upstream.Complete.{Fits-attempt, answered-inv, get_elem?-keys}
use egressdns.Upstream.Opinions.{ask, ask_both, corroborate, other_opinion, resolve_pair, both}

-- The route is another authority's, and forwards to nobody.
pub record IsOther (authority : List ℕ) (key : RouteKey) : Type 0 where
  pub differs : str_eq key.authority authority ≡ false
  pub independent : is_independent key.role ≡ true

other-inv :
    (same independent : Bool)
    → (not same && independent) ≡ true
    → (same ≡ false) × (independent ≡ true)
other-inv same independent h = ground arith

module _ {fl : Floats} where
  other_opinion-inv :
      (routes : List (Route fl)) (authority is : List ℕ) {i : ℕ}
      → other_opinion routes authority is ≡ some i
      → (key : RouteKey) × (get_elem? (keys routes) i ≡ some key) × IsOther authority key
  unfolding other_opinion
  other_opinion-inv routes authority [] h = absurd (none≢some h)
  other_opinion-inv routes authority (j ∷ is) {i} h = elim (Option-cases (get_elem? routes j)) [
    | inl e ↦ other_opinion-inv routes authority is {i = i} (ground arith)
    | inr (r, e) ↦
        elim (Bool-cases (not (str_eq r.key.authority authority) && is_independent r.key.role)) [
          | inl yes_it ↦
              let at : j ≡ i = ground arith in
              let facts = other-inv _ _ yes_it in
              (
                r.key,
                subst (λ x. get_elem? (keys routes) x ≡ some r.key) at (get_elem?-keys routes j e),
                record { differs = facts.0; independent = facts.1 },
              )
          | inr no_it ↦ other_opinion-inv routes authority is {i = i} (ground arith)
        ]
  ]

both-inv :
    {A B : Type 0} (x : Option A) (y : Option B) {a : A} {b : B}
    → both x y ≡ some (a, b)
    → (x ≡ some a) × (y ≡ some b)
unfolding both
both-inv none y h = absurd (none≢some h)
both-inv (some u) none h = absurd (none≢some h)
both-inv (some u) (some v) h = ground arith

module _ {fl : Floats} {k : Hickory} (cfg : SchedulerConfig fl) (request : Message k) where
  keys-ask :
      (routes : List (Route fl)) (i : ℕ) (t : Trial k)
      → keys (ask cfg request routes i t).0 ≡ keys routes
  unfolding ask
  keys-ask routes i t =
      let tried = attempt cfg routes i request shed_at_once t in
      keys-note cfg request tried.0 i tried.1 t.now
      ∙ keys-attempt cfg routes i request shed_at_once t

  ask-inv :
      (routes : List (Route fl)) (i : ℕ) (t : Trial k) {a : UpstreamAnswer k}
      → (ask cfg request routes i t).1 ≡ some a
      → (get_elem? (keys routes) i ≡ some a.route) × Fits request a.message
  ask-inv routes i t {a} h =
      let tried = attempt cfg routes i request shed_at_once t in
      let kept : answered cfg request (ask cfg request routes i t).0 i tried.1 false ≡ some a =
        unfold ask in h in
      let (at, fit) =
        answered-inv cfg request (ask cfg request routes i t).0 i tried.1 false kept
          (Fits-attempt cfg request routes i shed_at_once t) in
      (subst (λ ks. get_elem? ks i ≡ some a.route) (keys-ask routes i t) at, fit)

  ask-IsOther :
      (routes : List (Route fl)) (i : ℕ) (t : Trial k) (authority is : List ℕ)
      {a : UpstreamAnswer k}
      → other_opinion routes authority is ≡ some i
      → (ask cfg request routes i t).1 ≡ some a
      → IsOther authority a.route × Fits request a.message
  ask-IsOther routes i t authority is chosen h =
      let (key, at, other) = other_opinion-inv routes authority is chosen in
      let (at', fit) = ask-inv routes i t h in
      (subst (IsOther authority) (some-injective (sym at ∙ at')) other, fit)

  -- An answer of `corroborate` fits the question, and comes from an authority that is not the excluded one
  -- and is no local forwarder.
  pub corroborate-IsOther :
      (net : NetworkState) (relearning : Bool) (seed : ℕ) (routes : List (Route fl))
      (budget now : ℕ) (exclude : List ℕ) (t : Trial k) {a : UpstreamAnswer k}
      → (corroborate cfg request net relearning seed routes budget now exclude t).1 ≡ some a
      → IsOther exclude a.route × Fits request a.message
  corroborate-IsOther net relearning seed routes budget now exclude t {a} h =
      let ranking = rank routes cfg net relearning now seed in
      elim (Bool-cases (budget == 0)) [
        | inl e ↦ absurd (none≢some {a = a} (unfold corroborate in ground arith))
        | inr e ↦ elim (Option-cases (other_opinion ranking.0 exclude ranking.1)) [
          | inl f ↦ absurd (none≢some {a = a} (unfold corroborate in ground arith))
          | inr (i, f) ↦
              ask-IsOther ranking.0 i t exclude ranking.1 {a = a} f
                (unfold corroborate in ground arith)
        ]
      ]

  ask_both-IsOther :
      (routes : List (Route fl)) (first second : ℕ) (ta tb : Trial k) (is : List ℕ) {key : RouteKey}
      {a b : UpstreamAnswer k}
      → get_elem? (keys routes) first ≡ some key
      → other_opinion routes key.authority is ≡ some second
      → (ask_both cfg request routes first second ta tb).1 ≡ some (a, b)
      → IsOther a.route.authority b.route × Fits request a.message × Fits request b.message
  ask_both-IsOther routes first second ta tb is {key} {a} {b} at chosen h =
      let after = (ask cfg request routes first ta).0 in
      let pair : both (ask cfg request routes first ta).1 (ask cfg request after second tb).1
          ≡ some (a, b) =
        unfold ask_both in h in
      let (ha, hb) = both-inv _ _ pair in
      let (at_a, fit_a) = ask-inv routes first ta {a = a} ha in
      let (at_b, fit_b) = ask-inv after second tb {a = b} hb in
      let (key_b, known, other) = other_opinion-inv routes key.authority is chosen in
      let same_a : key ≡ a.route = some-injective (sym at ∙ at_a) in
      let same_b : key_b ≡ b.route =
        some-injective
          (sym known ∙ sym (ap (λ ks. get_elem? ks second) (keys-ask routes first ta)) ∙ at_b) in
      let seen : IsOther a.route.authority key_b =
        subst (λ (x : RouteKey). IsOther x.authority key_b) same_a other in
      (subst (IsOther a.route.authority) same_b seen, fit_a, fit_b)

  -- Where both answers of `resolve_pair` are there, they fit the question, and the second comes from an
  -- authority that is not the first one's and is no local forwarder.
  pub resolve_pair-IsOther :
      (net : NetworkState) (relearning : Bool) (seed : ℕ) (routes : List (Route fl))
      (budget now : ℕ) (ta tb : Trial k) {a b : UpstreamAnswer k}
      → (resolve_pair cfg request net relearning seed routes budget now ta tb).1 ≡ some (a, b)
      → IsOther a.route.authority b.route × Fits request a.message × Fits request b.message
  resolve_pair-IsOther net relearning seed routes budget now ta tb {a} {b} h =
      let pair : UpstreamAnswer k × UpstreamAnswer k = (a, b) in
      let ranking = rank routes cfg net relearning now seed in
      elim (Bool-cases (budget == 0)) [
        | inl e ↦ absurd (none≢some {a = pair} (unfold resolve_pair in ground arith))
        | inr e ↦ elim (List-cases ranking.1) [
          | inl f ↦ absurd (none≢some {a = pair} (unfold resolve_pair in ground arith))
          | inr (first, rest, f) ↦ elim (Option-cases (get_elem? ranking.0 first)) [
            | inl g ↦ absurd (none≢some {a = pair} (unfold resolve_pair in ground arith))
            | inr (r, g) ↦
                elim (Option-cases (other_opinion ranking.0 r.key.authority (first ∷ rest))) [
                  | inl o ↦ absurd (none≢some {a = pair} (unfold resolve_pair in ground arith))
                  | inr (second, o) ↦
                      let asked : (ask_both cfg request ranking.0 first second ta tb).1
                          ≡ some (a, b) =
                        unfold resolve_pair in ground arith in
                      ask_both-IsOther ranking.0 first second ta tb (first ∷ rest)
                        (get_elem?-keys ranking.0 first g) o asked
                ]
          ]
        ]
      ]
