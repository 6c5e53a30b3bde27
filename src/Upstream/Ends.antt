-- ===== src/Upstream/Ends.antt =====
-- What `resolve` of src/upstream/scheduler.rs returns, and that it returns.
use egressdns.Prelude.{
  Bool, List, List-cases, Option-cases, [], ap, arith, false, inl, inr, length, length-Perm, refl,
  replicate, subst, suc, sym, true, ℕ, ◌*◌, ◌+◌, ◌∷◌, ◌≡◌, ◌≤◌, ◌⊎◌,
}
use egressdns.Float.{Floats}
use egressdns.Message.{Hickory, Message}
use egressdns.Health.{SchedulerConfig}
use egressdns.Upstream.{Route}
use egressdns.Upstream.Hedge.{HedgeBudget, record_query}
use egressdns.Upstream.Rank.{NetworkState, rank, rank_inner, tick_from}
use egressdns.Upstream.Attempt.{UpstreamAnswer}
use egressdns.Upstream.Resolve.{
  Event, Outcome, Resolution, Step, answer, continues, planned_hedge, returns, start,
}
use egressdns.Upstream.Loop.{resolve, run, step}
use egressdns.Upstream.Complete.{IsComplete}
use egressdns.Upstream.Load.{load, unstarted-replicate, unstarted-set}
use egressdns.Upstream.Offers.{best, rank_inner-Perm, with_standing}
use egressdns.Upstream.Outcomes.{Good, step-Good}

abbrev pub Returns : {fl : Floats} {k : Hickory} → Step fl k → Type 0
Returns (continues s) = ⊥
Returns (returns s outcome) = Unit {0}

Step-cases :
    {fl : Floats} {k : Hickory} (x : Step fl k)
    → ((s : Resolution fl) × (x ≡ continues s))
      ⊎ ((s : Resolution fl) × (outcome : Outcome k) × (x ≡ returns s outcome))
Step-cases (continues s) = inl (s, refl)
Step-cases (returns s outcome) = inr (s, outcome, refl)

module _ {fl : Floats} {k : Hickory} (cfg : SchedulerConfig fl) (request : Message k)
    (net : NetworkState) (relearning : Bool) (seed : ℕ) (ranked : List ℕ) where
  run-Good :
      (n : ℕ) (s : Resolution fl) (events : List (Event k))
      → load s ≤ n
      → Good request n (run cfg request net relearning seed ranked s events)
  unfolding run
  run-Good n s [] small = small
  run-Good n s (e ∷ events) small =
      elim (Step-cases (step cfg request net relearning seed ranked s e)) [
        | inl (s', f) ↦
            let smaller : load s' ≤ n =
              subst (λ x. Good request n x) f
                (step-Good cfg request net relearning seed ranked n s e (omega arith)) in
            rw (f, Good) (run-Good n s' events smaller)
        | inr (s', outcome, f) ↦
            rw (f, Good)
              (subst (λ x. Good request n x) f
                (step-Good cfg request net relearning seed ranked n s e (omega arith)))
      ]

  run-ends :
      (s : Resolution fl) (events : List (Event k))
      → load s ≤ length events
      → Returns (run cfg request net relearning seed ranked s events)
  unfolding run
  run-ends s [] small = ground arith
  run-ends s (e ∷ events) small =
      elim (Step-cases (step cfg request net relearning seed ranked s e)) [
        | inl (s', f) ↦
            let smaller : load s' ≤ length events =
              subst (λ x. Good request (length events) x) f
                (step-Good cfg request net relearning seed ranked (length events) s e small) in
            rw (f, Returns) (run-ends s' events smaller)
        | inr (s', outcome, f) ↦ rw (f, Returns) tt
      ]

Returns-inv :
    {fl : Floats} {k : Hickory} (x : Step fl k)
    → Returns x
    → (s : Resolution fl) × (outcome : Outcome k) × (x ≡ returns s outcome)
Returns-inv (continues s) h = elim h [ ]
Returns-inv (returns s outcome) h = (s, outcome, refl)

module _ {fl : Floats} where
  length-with_standing :
      (net : NetworkState) (companions : Bool) (n i : ℕ) (routes : List (Route fl))
      → length (with_standing net companions n i routes) ≤ length routes
  unfolding with_standing
  length-with_standing net companions n i [] = omega arith
  length-with_standing net companions n i (r ∷ rest) =
      ground (arith, length-with_standing net companions n (i + 1) rest)

  length-tick_from :
      (cfg : SchedulerConfig fl) (now seed : ℕ) (companions : Bool) (i : ℕ)
      (routes : List (Route fl))
      → length (tick_from cfg now seed companions i routes) ≡ length routes
  unfolding tick_from
  length-tick_from cfg now seed companions i [] = refl
  length-tick_from cfg now seed companions i (r ∷ rest) =
      ap suc (length-tick_from cfg now seed companions (i + 1) rest)

  length-rank :
      (cfg : SchedulerConfig fl) (net : NetworkState) (relearning : Bool) (routes : List (Route fl))
      (now seed : ℕ)
      → length (rank routes cfg net relearning now seed).1 ≤ length routes
  unfolding rank rank_inner
  length-rank cfg net relearning routes now seed =
      let ticked = tick_from cfg now seed false 0 routes in
      omega (
        arith,
        length-Perm (rank_inner-Perm cfg net relearning routes now seed false),
        length-with_standing net false (best net false ticked) 0 ticked,
        length-tick_from cfg now seed false 0 routes,
      )

load-start :
    {fl : Floats} (cfg : SchedulerConfig fl) (routes : List (Route fl)) (budget : HedgeBudget)
    (time i : ℕ) (is : List ℕ)
    → load (start cfg routes budget time (i ∷ is)) ≤ 2 * length (i ∷ is) + 4
unfolding start
load-start cfg routes budget time i is =
    let marks = unstarted-replicate (length is) in
    elim (Option-cases (planned_hedge cfg routes budget time i (i ∷ is))) [
      | inl e ↦ rw (e, start, load) (omega arith)
      | inr (hedge, e) ↦
          rw (e, start, load)
            (omega (arith, unstarted-set (true ∷ replicate (length is) false) hedge.0))
    ]

module _ {fl : Floats} {k : Hickory} (cfg : SchedulerConfig fl) (request : Message k) where
  resolve-Good :
      (n : ℕ) (net : NetworkState) (relearning : Bool) (seed : ℕ) (routes : List (Route fl))
      (budget : HedgeBudget) (time now : ℕ) (events : List (Event k))
      → let ranking = rank routes cfg net relearning now seed in
        load (start cfg ranking.0 (record_query budget) time ranking.1) ≤ n
        → Good request n (resolve cfg request net relearning seed routes budget time now events)
  unfolding resolve
  resolve-Good n net relearning seed routes budget time now events small =
      let ranking = rank routes cfg net relearning now seed in
      elim (List-cases ranking.1) [
        | inl e ↦ rw (e, Good) tt
        | inr (i, is, e) ↦
            let s = start cfg ranking.0 (record_query budget) time ranking.1 in
            rw (e, Good) (run-Good cfg request net relearning seed (i ∷ is) n _ events small)
      ]

  -- Whatever the attempts meet and in whatever order they move on, an answer that is returned is a reply to
  -- the question, with its opcode, NOERROR or NXDOMAIN, and either it is not truncated or its route is a
  -- stream.
  pub resolve-IsComplete :
      (net : NetworkState) (relearning : Bool) (seed : ℕ) (routes : List (Route fl))
      (budget : HedgeBudget) (time now : ℕ) (events : List (Event k)) {s : Resolution fl}
      {a : UpstreamAnswer k}
      → resolve cfg request net relearning seed routes budget time now events ≡ returns s (answer a)
      → IsComplete request a
  resolve-IsComplete net relearning seed routes budget time now events h =
      let ranking = rank routes cfg net relearning now seed in
      let n = load (start cfg ranking.0 (record_query budget) time ranking.1) in
      subst (λ x. Good request n x) h
        (resolve-Good n net relearning seed routes budget time now events (omega arith))

  -- A resolution ends: however its attempts are ordered, once there have been twice as many events as
  -- routes, and four more, it has returned.
  pub resolve-returns :
      (net : NetworkState) (relearning : Bool) (seed : ℕ) (routes : List (Route fl))
      (budget : HedgeBudget) (time now : ℕ) (events : List (Event k))
      → 2 * length routes + 4 ≤ length events
      → (s : Resolution fl) × (outcome : Outcome k) × (resolve cfg request net relearning seed
            routes budget time now events
          ≡ returns s outcome)
  resolve-returns net relearning seed routes budget time now events enough =
      let ranking = rank routes cfg net relearning now seed in
      let counted = record_query budget in
      let fewer = length-rank cfg net relearning routes now seed in
      let known : Returns (resolve cfg request net relearning seed routes budget time now events) =
        elim (List-cases ranking.1) [
          | inl e ↦ unfold resolve in rw (e, Returns) tt
          | inr (i, is, e) ↦
              let size : length ranking.1 ≡ suc (length is) = ap length e in
              let small : load (start cfg ranking.0 counted time ranking.1)
                  ≤ 2 * length ranking.1 + 4 =
                subst (λ l. load (start cfg ranking.0 counted time l) ≤ 2 * length l + 4) (sym e)
                  (load-start cfg ranking.0 counted time i is) in
              let ended =
                run-ends cfg request net relearning seed (i ∷ is)
                  (start cfg ranking.0 counted time ranking.1) events (omega arith) in
              unfold resolve in rw (e, Returns) ended
        ] in
      Returns-inv _ known
