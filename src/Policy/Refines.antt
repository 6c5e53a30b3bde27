-- ===== src/Policy/Refines.antt =====
-- `apply_answer_policy` of src/policy/answer.rs does no more than is permitted.
use mathlib.Core.Bool.{Bool-set}
use egressdns.Ttl.{TtlReason}
use egressdns.Policy.Eligible.{evaluate-Eligible}
use egressdns.Policy.Covers.{Covered, HasIndex-or_not, holds-addresses_of, rrset_groups-Covered}
use egressdns.Policy.Steps.{conclude-Permitted, second_step-Permitted}
use egressdns.Policy.{evaluate, Eligibility, is_eligibility_off}
use egressdns.Ranking.{OrderDecision}
use egressdns.Prelude.{
  Bool, Bool-cases, List, List-cases, [], arith, false, get_elem?, get_elem?-Perm, inl, inr, length,
  none, not, refl, some, subst, sym, true, ℕ, ◌<◌, ◌==◌, ◌||◌, ◌∙◌, ◌∷◌, ◌≡◌,
}
use egressdns.Net.{IpAddr}
use egressdns.Float.{Floats}
use egressdns.IpClass.{IpnetCrate}
use egressdns.Message.{Hickory, Message, Record, record_type, type_a, type_aaaa}
use egressdns.Policy.Answer.{
  AnswerContext, AnswerOutcome, addresses_of, holds, record_address, rrset_groups,
}
use egressdns.Policy.Apply.{
  apply_answer_policy, apply_groups, order_groups, last_group, eligibility_inputs, conclude,
}
use egressdns.Policy.Groups.{AreGroups, rrset_groups-AreGroups}
use egressdns.Policy.Loops.{AllWithin, order_groups-Perm, get_elem?-order_groups}
use mathlib.Core.List.Perm
use egressdns.Policy.Permitted.{Permitted, HasAll}

module _ {k : Hickory} (xs : List (Record k)) (rtype n : ℕ) where
  -- The RRsets of an answer are distinct below its length.
  AreGroups-AllWithin : (gs : List (k.Name × List ℕ)) → AreGroups xs rtype n gs → AllWithin n gs
  AreGroups-AllWithin [] h = tt
  AreGroups-AllWithin ((name, is) ∷ gs) ((some_index, w, t), h) = (w, AreGroups-AllWithin gs h)

  AreGroups-last_group :
      (g : k.Name × List ℕ) (gs : List (k.Name × List ℕ))
      → AreGroups xs rtype n (g ∷ gs)
      → 0 < length (last_group g gs).1
  unfolding last_group
  AreGroups-last_group g [] (h, hs) = h.0
  AreGroups-last_group g (g' ∷ gs) (h, hs) = AreGroups-last_group g' gs hs

module _ {k : Hickory} {fl : Floats} (crate : IpnetCrate) (ctx : AnswerContext fl) where
  -- The addresses of the only RRset are still held after the records were reordered.
  ordered_holds :
      (xs : List (Record k)) (name : k.Name) (is : List ℕ) (any : Bool) (last : OrderDecision)
      → rrset_groups xs ctx.qtype ≡ (name, is) ∷ []
      → AllWithin (length xs) ((name, is) ∷ [])
      → (j : ℕ) (r : Record k) (a : IpAddr) → get_elem? xs j ≡ some r
      → record_type r ≡ ctx.qtype
      → record_address r ≡ some a
      → holds (addresses_of (order_groups ctx ((name, is) ∷ []) xs any last).0 is) a ≡ true
  ordered_holds xs name is any last single w j r a h t e =
      let ys = (order_groups ctx ((name, is) ∷ []) xs any last).0 in
      let moved = order_groups-Perm ctx ((name, is) ∷ []) xs any last w in
      get_elem?-Perm (Perm.symm moved) j r h (Bool-set _ _) λ i read. elim (HasIndex-or_not i is) [
        | inl has ↦ holds-addresses_of ctx.qtype ys is i r a has read e
        | inr lacks ↦
            let before : get_elem? xs i ≡ some r =
              sym (get_elem?-order_groups ctx ((name, is) ∷ []) xs any last i (lacks, tt)) ∙ read in
            let covered : Covered i ((name, is) ∷ []) =
              subst (λ gs. Covered i gs) single (rrset_groups-Covered ctx.qtype xs i r before t) in
            elim covered [
              | inl has ↦ holds-addresses_of ctx.qtype ys is i r a has read e
              | inr none_left ↦ elim none_left [ ]
            ]
      ]

  ordered-HasAll :
      (xs : List (Record k)) (g : k.Name × List ℕ) (gs : List (k.Name × List ℕ)) (any : Bool)
      (last : OrderDecision)
      → rrset_groups xs ctx.qtype ≡ g ∷ gs
      → AllWithin (length xs) (g ∷ gs)
      → (length (g ∷ gs) == 1) ≡ true
      → HasAll ctx.qtype xs
          (addresses_of (order_groups ctx (g ∷ gs) xs any last).0 (last_group g gs).1)
  unfolding last_group
  ordered-HasAll xs (name, is) [] any last found w single =
      ordered_holds xs name is any last found w
  ordered-HasAll xs g (h ∷ gs) any last found w single = absurd (ground arith)

  apply_groups-Permitted :
      (m : Message k) (o : AnswerOutcome) (g : k.Name × List ℕ) (gs : List (k.Name × List ℕ))
      → o.added ≡ 0
      → rrset_groups m.answers ctx.qtype ≡ g ∷ gs
      → let (m', o') = apply_groups crate ctx m ctx.qtype o (g ∷ gs) (last_group g gs) in
        Permitted crate ctx m m' o'
  unfolding apply_groups eligibility_inputs
  apply_groups-Permitted m o g gs counted found =
      let groups = g ∷ gs in
      let i = eligibility_inputs crate ctx m groups (last_group g gs) in
      let step = order_groups ctx groups m.answers false OrderDecision.disabled in
      let are : AreGroups m.answers ctx.qtype (length m.answers) groups =
        subst (λ l. AreGroups m.answers ctx.qtype (length m.answers) l) found
          (rrset_groups-AreGroups m.answers ctx.qtype) in
      let within = AreGroups-AllWithin m.answers ctx.qtype (length m.answers) groups are in
      second_step-Permitted crate ctx (record m { answers = step.0 }) (last_group g gs)
        (record o {
          cloudflare_applied = (evaluate i).0;
          fallback = (evaluate i).1;
          order = step.2;
        })
        step.1 m.answers
        (order_groups-Perm ctx groups m.answers false OrderDecision.disabled within)
        (AreGroups-last_group m.answers ctx.qtype (length m.answers) g gs are) counted
        (λ may. (
          may,
          (evaluate-Eligible i may).mode,
          (evaluate-Eligible i may).unsigned,
          (evaluate-Eligible i may).queried,
        ))
        (λ may.
          ordered-HasAll m.answers g gs false OrderDecision.disabled found within
            (evaluate-Eligible i may).single)

  -- The answer policy refines its contract.
  pub apply_answer_policy-Permitted :
      (m : Message k) → let (m', o) = apply_answer_policy crate ctx m in Permitted crate ctx m m' o
  unfolding apply_answer_policy conclude is_eligibility_off
  apply_answer_policy-Permitted m =
      let start : AnswerOutcome = record {
        cloudflare_applied = Eligibility.off;
        fallback = none;
        order = OrderDecision.disabled;
        added = 0;
        client_ttl = 0;
        ttl_reason = TtlReason.default;
        modified = false;
      } in
      elim (Bool-cases (not (ctx.qtype == type_a || ctx.qtype == type_aaaa))) [
        | inl e ↦ rw e (conclude-Permitted crate ctx m start false m.answers (Perm.refl _) refl)
        | inr e ↦ elim (List-cases (rrset_groups m.answers ctx.qtype)) [
          | inl found ↦
              rw (e, found)
                (conclude-Permitted crate ctx m start false m.answers (Perm.refl _) refl)
          | inr (g, gs, found) ↦ rw (e, found) (apply_groups-Permitted m start g gs refl found)
        ]
      ]
