-- ===== src/Upstream/Offers.antt =====
-- Which routes `rank_inner` of src/upstream/scheduler.rs offers.
use egressdns.Prelude.{
  Bool, Bool-cases, List, List-cases, [], arith, if◌then◌else◌, inl, inr, map, min, refl, sort,
  sort-Perm, subst, suc, zero, ℕ, ◌&&◌, ◌+◌, ◌<◌, ◌==◌, ◌∙◌, ◌∷◌, ◌≡◌, ◌≢◌, ◌≤◌,
}
use egressdns.Float.{Floats}
use egressdns.Health.{SchedulerConfig, is_usable}
use egressdns.Upstream.{Route}
use egressdns.Upstream.Rank.{
  Bucket, Candidate, NetworkState, bucket_of, candidate, candidates_from, cheaper, degraded,
  explores, fall_back, family_excluded, family_ok, measured_scores, neutral, of_bucket, offered,
  order_routes, rank_inner, ready, reprice, same_bucket, swap_first, tick_from, prefer,
}
use mathlib.Core.List.{Perm}
use mathlib.Core.List.Perm

-- The place of a bucket in the order of preference.
abbrev place : Bucket → ℕ
place Bucket.ready = 0
place Bucket.degraded = 1
place Bucket.family_excluded = 2

-- The first list that is not empty, or the last.
abbrev first_some : List ℕ → List ℕ → List ℕ → List ℕ
first_some (a ∷ as') bs cs = a ∷ as'
first_some [] (b ∷ bs) cs = b ∷ bs
first_some [] [] cs = cs

-- Three lists, of which those before the best one are empty and the best one is not.
first_some-best :
    (w : ℕ → List ℕ) (b : ℕ)
    → ((n : ℕ) → n < b → w n ≡ [])
    → b ≤ 2
    → (b < 2 → w b ≢ [])
    → first_some (w 0) (w 1) (w 2) ≡ w b
first_some-best w zero below h ne = elim (List-cases (w 0)) [
  | inl e ↦ absurd (ne (omega arith) e)
  | inr (x, xs, e) ↦ rw e refl
]
first_some-best w (suc zero) below h ne = elim (List-cases (w 1)) [
  | inl e ↦ absurd (ne (omega arith) e)
  | inr (x, xs, e) ↦ rw (below 0 (omega arith), e) refl
]
first_some-best w (suc (suc zero)) below h ne =
    rw (below 0 (omega arith), below 1 (omega arith)) refl
first_some-best w (suc (suc (suc n))) below h ne = absurd (omega arith)

module _ {fl : Floats} where
  -- 0 for a route that works, 1 for one with an open circuit, 2 for one of an unusable family.
  unfoldable pub standing : NetworkState → Route fl → ℕ
  standing net r = if family_ok net r.key.addr then if is_usable r.health then 0 else 1 else 2

  -- The best standing among the routes on offer.
  unfoldable pub best : NetworkState → Bool → List (Route fl) → ℕ
  best net companions [] = 2
  best net companions (r ∷ rest) =
      let more = best net companions rest in
      if offered companions r then min (standing net r) more else more

  -- The places of the routes on offer that have a standing, from an index on.
  unfoldable pub with_standing : NetworkState → Bool → ℕ → ℕ → List (Route fl) → List ℕ
  with_standing net companions n i [] = []
  with_standing net companions n i (r ∷ rest) =
      let more = with_standing net companions n (i + 1) rest in
      if offered companions r && standing net r == n then i ∷ more else more

  abbrev indices : List (Candidate fl) → List ℕ
  indices cs = map (λ (c : Candidate fl). c.idx) cs

  of_bucket-neutral :
      (m : fl.F) (b : Bucket) (cs : List (Candidate fl))
      → indices (of_bucket b (map (neutral m) cs)) ≡ indices (of_bucket b cs)
  unfolding of_bucket neutral
  of_bucket-neutral m b [] = refl
  of_bucket-neutral m b (c ∷ cs) = ground (arith, of_bucket-neutral m b cs)

  of_bucket-reprice :
      (b : Bucket) (cs : List (Candidate fl))
      → indices (of_bucket b (reprice cs)) ≡ indices (of_bucket b cs)
  unfolding reprice
  of_bucket-reprice b cs = elim (List-cases (sort fl.total_le (measured_scores cs))) [
    | inl e ↦ rw (e, reprice) refl
    | inr (s, ss, e) ↦ rw (e, reprice) (of_bucket-neutral _ b cs)
  ]

  of_bucket-candidates_from :
      (net : NetworkState) (companions : Bool) (b : Bucket) (i : ℕ) (routes : List (Route fl))
      → indices (of_bucket b (candidates_from net companions i routes))
        ≡ with_standing net companions (place b) i routes
  unfolding of_bucket candidates_from candidate with_standing standing bucket_of same_bucket
  of_bucket-candidates_from net companions b i [] = refl
  of_bucket-candidates_from net companions Bucket.ready i (r ∷ rest) =
      ground (arith, of_bucket-candidates_from net companions Bucket.ready (i + 1) rest)
  of_bucket-candidates_from net companions Bucket.degraded i (r ∷ rest) =
      ground (arith, of_bucket-candidates_from net companions Bucket.degraded (i + 1) rest)
  of_bucket-candidates_from net companions Bucket.family_excluded i (r ∷ rest) =
      ground (arith, of_bucket-candidates_from net companions Bucket.family_excluded (i + 1) rest)

  indices-prefer :
      (a b c : List (Candidate fl))
      → indices (prefer a b c) ≡ first_some (indices a) (indices b) (indices c)
  unfolding prefer
  indices-prefer (x ∷ a) b c = refl
  indices-prefer [] (y ∷ b) c = refl
  indices-prefer [] [] c = refl

  indices-fall_back :
      (cs : List (Candidate fl))
      → indices (fall_back cs)
        ≡ first_some
            (indices (of_bucket ready cs))
            (indices (of_bucket degraded cs))
            (indices (of_bucket family_excluded cs))
  unfolding fall_back
  indices-fall_back cs = indices-prefer _ _ _

  with_standing-lt :
      (net : NetworkState) (companions : Bool) (n i : ℕ) (routes : List (Route fl))
      → n < best net companions routes
      → with_standing net companions n i routes ≡ []
  unfolding with_standing best
  with_standing-lt net companions n i [] h = refl
  with_standing-lt net companions n i (r ∷ rest) h =
      ground (arith, with_standing-lt net companions n (i + 1) rest)

  with_standing-ne :
      (net : NetworkState) (companions : Bool) (n i : ℕ) (routes : List (Route fl))
      → n ≡ best net companions routes
      → n < 2
      → with_standing net companions n i routes ≢ []
  unfolding with_standing best
  with_standing-ne net companions n i [] e h = absurd (omega arith)
  with_standing-ne net companions n i (r ∷ rest) e h =
      ground (arith, with_standing-ne net companions n (i + 1) rest)

  best-le :
      (net : NetworkState) (companions : Bool) (routes : List (Route fl))
      → best net companions routes ≤ 2
  unfolding best
  best-le net companions [] = omega arith
  best-le net companions (r ∷ rest) = ground (arith, best-le net companions rest)

  fall_back-best :
      (net : NetworkState) (companions : Bool) (routes : List (Route fl))
      → indices (fall_back (reprice (candidates_from net companions 0 routes)))
        ≡ with_standing net companions (best net companions routes) 0 routes
  fall_back-best net companions routes =
      let w = λ (n : ℕ). with_standing net companions n 0 routes in
      let cs = candidates_from net companions 0 routes in
      let each : (b : Bucket) → indices (of_bucket b (reprice cs)) ≡ w (place b) =
        λ b. of_bucket-reprice b cs ∙ of_bucket-candidates_from net companions b 0 routes in
      let known =
        first_some-best w (best net companions routes)
          (λ n h. with_standing-lt net companions n 0 routes h) (best-le net companions routes)
          (λ h. with_standing-ne net companions _ 0 routes refl h) in
      indices-fall_back (reprice cs)
      ∙ rw (each Bucket.ready, each Bucket.degraded, each Bucket.family_excluded) known

swap_first-Perm : (l : List ℕ) → Perm (swap_first l) l
unfolding swap_first
swap_first-Perm [] = Perm.refl _
swap_first-Perm (a ∷ []) = Perm.refl _
swap_first-Perm (a ∷ b ∷ l) = Perm.swap a b l

module _ {fl : Floats} (cfg : SchedulerConfig fl) (net : NetworkState) (relearning : Bool) where
  order_routes-Perm :
      (seed : ℕ) (companions : Bool) (routes : List (Route fl))
      → Perm
          (order_routes cfg net relearning seed companions routes)
          (with_standing net companions (best net companions routes) 0 routes)
  unfolding order_routes
  order_routes-Perm seed companions routes =
      let scored = fall_back (reprice (candidates_from net companions 0 routes)) in
      let sorted : Perm (indices (sort cheaper scored))
          (with_standing net companions (best net companions routes) 0 routes) =
        subst (λ l. Perm (indices (sort cheaper scored)) l) (fall_back-best net companions routes)
          (Perm.map (λ (c : Candidate fl). c.idx) (sort-Perm cheaper scored)) in
      elim (Bool-cases (explores cfg relearning seed)) [
        | inl e ↦ rw e (Perm.trans (swap_first-Perm _) sorted)
        | inr e ↦ rw e sorted
      ]

  -- Whatever the scores, the seed and the exploration are, the ranking has, each once, the routes on offer
  -- (the companions of UDP servers only where they are included) whose standing is the best: those that
  -- work; where none does, those whose circuit is open; where no family is usable, all others.
  pub rank_inner-Perm :
      (routes : List (Route fl)) (now seed : ℕ) (companions : Bool)
      → let (ticked, ranked) = rank_inner routes cfg net relearning now seed companions in
        Perm ranked (with_standing net companions (best net companions ticked) 0 ticked)
  unfolding rank_inner
  rank_inner-Perm routes now seed companions =
      order_routes-Perm seed companions (tick_from cfg now seed companions 0 routes)
