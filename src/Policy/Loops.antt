-- ===== src/Policy/Loops.antt =====
-- The loop of `apply_answer_policy` of src/policy/answer.rs that orders the RRsets.
use egressdns.Prelude.{
  Bool, Bool-cases, List, [], get_elem?, inl, inr, length, length-Perm, ltb, map, refl, subst, sym,
  ℕ, ◌∙◌, ◌∷◌, ◌≡◌,
}
use egressdns.Net.{IpAddr}
use egressdns.Float.{Floats}
use egressdns.Message.{Hickory, Record}
use egressdns.Ranking.{OrderDecision, Ordering, addresses_eq, order_addresses}
use egressdns.Policy.Answer.{AnswerContext, addresses_of, place, reorder_in_place}
use egressdns.Policy.Apply.{order_group, order_groups}
use egressdns.Policy.Reorder.{NotIn, Within, get_elem?-write_at, reorder_in_place-Perm}
use mathlib.Core.List.{Perm}
use mathlib.Core.List.Perm

-- The indices of all groups are distinct below a bound.
abbrev pub AllWithin : {A : Type 0} → ℕ → List (A × List ℕ) → Type 0
AllWithin n [] = Unit
AllWithin n ((name, is) ∷ gs) = Within n is × AllWithin n gs

abbrev pub InNone : {A : Type 0} → ℕ → List (A × List ℕ) → Type 0
InNone j [] = Unit
InNone j ((name, is) ∷ gs) = NotIn j is × InNone j gs

module _ {k : Hickory} {fl : Floats} (ctx : AnswerContext fl) where
  order_group-Perm :
      (original : List IpAddr) (ordering : Ordering) (is : List ℕ) (xs : List (Record k))
      (any : Bool) (last : OrderDecision)
      → Within (length xs) is
      → Perm (order_group ctx original ordering is xs any last).0 xs
  unfolding order_group
  order_group-Perm original ordering is xs any last w =
      elim (Bool-cases (ltb (length original) 2)) [
        | inl e ↦ rw e (Perm.refl _)
        | inr e ↦ elim (Bool-cases (addresses_eq ordering.addresses original)) [
          | inl e2 ↦ rw (e, e2) (Perm.refl _)
          | inr e2 ↦ rw (e, e2) (reorder_in_place-Perm xs is ordering.addresses w)
        ]
      ]

  get_elem?-order_group :
      (original : List IpAddr) (ordering : Ordering) (is : List ℕ) (xs : List (Record k))
      (any : Bool) (last : OrderDecision) (j : ℕ)
      → NotIn j is
      → get_elem? (order_group ctx original ordering is xs any last).0 j ≡ get_elem? xs j
  unfolding order_group reorder_in_place
  get_elem?-order_group original ordering is xs any last j h =
      elim (Bool-cases (ltb (length original) 2)) [
        | inl e ↦ rw e refl
        | inr e ↦ elim (Bool-cases (addresses_eq ordering.addresses original)) [
          | inl e2 ↦ rw (e, e2) refl
          | inr e2 ↦
              rw (e, e2)
                (get_elem?-write_at is (place ordering.addresses (map (get_elem? xs) is)) xs j h)
        ]
      ]

  -- The loop that orders the RRsets permutes the records.
  pub order_groups-Perm :
      (gs : List (k.Name × List ℕ)) (xs : List (Record k)) (any : Bool) (last : OrderDecision)
      → AllWithin (length xs) gs
      → Perm (order_groups ctx gs xs any last).0 xs
  unfolding order_groups
  order_groups-Perm [] xs any last w = Perm.refl _
  order_groups-Perm ((name, is) ∷ gs) xs any last (w, ws) =
      let original = addresses_of xs is in
      let ordering = order_addresses ctx.ranking ctx.quality original ctx.explore_seed in
      let step = order_group ctx original ordering is xs any last in
      let here = order_group-Perm original ordering is xs any last w in
      let moved = subst (λ n. AllWithin n gs) (sym (length-Perm here)) ws in
      Perm.trans (order_groups-Perm gs step.0 step.1 step.2 moved) here

  -- It leaves the positions outside the groups alone.
  pub get_elem?-order_groups :
      (gs : List (k.Name × List ℕ)) (xs : List (Record k)) (any : Bool) (last : OrderDecision)
      (j : ℕ)
      → InNone j gs
      → get_elem? (order_groups ctx gs xs any last).0 j ≡ get_elem? xs j
  unfolding order_groups
  get_elem?-order_groups [] xs any last j h = refl
  get_elem?-order_groups ((name, is) ∷ gs) xs any last j (notin, h) =
      let original = addresses_of xs is in
      let ordering = order_addresses ctx.ranking ctx.quality original ctx.explore_seed in
      let step = order_group ctx original ordering is xs any last in
      get_elem?-order_groups gs step.0 step.1 step.2 j h
      ∙ get_elem?-order_group original ordering is xs any last j notin
