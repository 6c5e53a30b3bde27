-- ===== src/Ranking/Permutes.antt =====
-- What `order_addresses` of src/ranking/mod.rs keeps.
use egressdns.Prelude.{
  Bool-cases, List, Option-cases, [], ap, inl, inr, length, ltb, map, not, refl, sort, sort-Perm,
  subst, ℕ, ◌&&◌, ◌+◌, ◌==◌, ◌||◌, ◌∷◌, ◌≡◌,
}
use egressdns.Net.{IpAddr}
use egressdns.Float.{Floats}
use egressdns.Ranking.{
  Quality, RankingConfig, Scored, any_evidence, cheaper, evidence, explores, score_from, may_lead,
  settle, order_addresses,
}
use mathlib.Core.List.{Perm}
use mathlib.Core.List.Perm

module _ {fl : Floats} (cfg : RankingConfig fl) (stats : List (IpAddr × Quality fl)) where
  addr-score_from :
      (i : ℕ) (original : List IpAddr)
      → map (λ (s : Scored fl). s.addr) (score_from cfg stats i original) ≡ original
  unfolding score_from
  addr-score_from i [] = refl
  addr-score_from i (addr ∷ rest) = elim (Option-cases (evidence cfg stats addr)) [
    | inl e ↦ rw e (ap (◌∷◌ addr) (addr-score_from (i + 1) rest))
    | inr (q, e) ↦ rw e (ap (◌∷◌ addr) (addr-score_from (i + 1) rest))
  ]

  settle-Perm :
      (original : List IpAddr) (scored sorted : List (Scored fl))
      → Perm (map (λ (s : Scored fl). s.addr) sorted) original
      → Perm (settle cfg stats original scored sorted).addresses original
  unfolding settle
  settle-Perm original [] sorted h = Perm.refl _
  settle-Perm original (x ∷ scored) [] h = Perm.refl _
  settle-Perm original (x ∷ scored) (y ∷ sorted) h =
      elim (Bool-cases (not (y.idx == 0) && not (may_lead cfg stats x y))) [
        | inl e ↦ rw e (Perm.refl _)
        | inr e ↦ rw e h
      ]

  -- Whatever the statistics, the floats and the seed are, the addresses that are answered are those of
  -- the RRset, each as often as there: none is added and none is lost.
  pub order_addresses-Perm :
      (original : List IpAddr) (seed : ℕ)
      → Perm (order_addresses cfg stats original seed).addresses original
  unfolding order_addresses
  order_addresses-Perm original seed =
      let scored = score_from cfg stats 0 original in
      let sorted : Perm (map (λ (s : Scored fl). s.addr) (sort (cheaper cfg stats) scored))
          original =
        subst (λ l. Perm (map (λ (s : Scored fl). s.addr) (sort (cheaper cfg stats) scored)) l)
          (addr-score_from 0 original)
          (Perm.map (λ (s : Scored fl). s.addr) (sort-Perm (cheaper cfg stats) scored)) in
      elim (Bool-cases (not cfg.enabled || ltb (length original) 2)) [
        | inl e ↦ rw e (Perm.refl _)
        | inr e ↦ elim (Bool-cases (not (any_evidence cfg stats original))) [
          | inl e2 ↦ rw (e, e2) (Perm.refl _)
          | inr e2 ↦ elim (Bool-cases (explores cfg stats seed)) [
            | inl e3 ↦ rw (e, e2, e3) (Perm.refl _)
            | inr e3 ↦ rw (e, e2, e3) (settle-Perm original scored _ sorted)
          ]
        ]
      ]
