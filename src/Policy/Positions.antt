-- ===== src/Policy/Positions.antt =====
-- Records of other types under `apply_answer_policy` of src/policy/answer.rs.
use egressdns.Ranking.{OrderDecision}
use egressdns.Ttl.{TtlReason}
use egressdns.Policy.{evaluate, Eligibility, is_eligibility_off}
use egressdns.Net.{IpAddr}
use egressdns.Prelude.{
  Bool, Bool-cases, List, List-cases, [], ap, false, get_elem?, inl, inr, length, map, none,
  none≢some, not, refl, some, some-injective, subst, suc, sym, zero, ℕ, ◌==◌, ◌||◌, ◌∙◌, ◌∷◌, ◌≡◌,
  ◌≢◌,
}
use egressdns.Float.{Floats}
use egressdns.IpClass.{IpnetCrate}
use egressdns.Message.{Hickory, Message, Record, cap_ttls, record_type, type_a, type_aaaa}
use egressdns.Policy.Answer.{
  AnswerContext, AnswerOutcome, rrset_groups, addresses_of, best_original_cost, choose,
}
use egressdns.Policy.Apply.{
  add_chosen, add_verified, apply_groups, conclude, finish_ttl, last_group, second_step,
  eligibility_inputs, apply_answer_policy, order_groups,
}
use egressdns.Policy.Groups.{AreGroups, Typed, rrset_groups-AreGroups}
use egressdns.Policy.Loops.{InNone, get_elem?-order_groups}
use egressdns.Policy.Reorder.{NotIn}
use egressdns.Policy.Permitted.{Eligibility-cases, cap_record}
use mathlib.Core.Bool.{true≢false}

get_elem?-map :
    {A B : Type 0} (f : A → B) (xs : List A) (j : ℕ) (x : A)
    → get_elem? xs j ≡ some x
    → get_elem? (map f xs) j ≡ some (f x)
get_elem?-map f [] j x h = absurd (none≢some h)
get_elem?-map f (y ∷ xs) zero x h = ap (λ z. some (f z)) (some-injective h)
get_elem?-map f (y ∷ xs) (suc j) x h = get_elem?-map f xs j x h

module _ {k : Hickory} (xs : List (Record k)) (rtype : ℕ) (j : ℕ) (r : Record k)
    (read : get_elem? xs j ≡ some r) (other : record_type r ≢ rtype) where
  Typed-NotIn : (is : List ℕ) → Typed xs rtype is → NotIn j is
  Typed-NotIn [] t = tt
  Typed-NotIn (i ∷ is) ((r', read', same), t) = (
    λ e.
        let here : r ≡ r' = some-injective (sym read ∙ ap (get_elem? xs) e ∙ read') in
        other (ap record_type here ∙ same),
    Typed-NotIn is t,
  )

  AreGroups-InNone : (n : ℕ) (gs : List (k.Name × List ℕ)) → AreGroups xs rtype n gs → InNone j gs
  AreGroups-InNone n [] h = tt
  AreGroups-InNone n ((name, is) ∷ gs) ((some_index, w, t), h) =
      (Typed-NotIn is t, AreGroups-InNone n gs h)

-- A result with nothing added has the records of the message, with capped TTLs.
abbrev Keeps : {k : Hickory} → Message k → Message k × AnswerOutcome → Type 0
Keeps m (m', o) = o.modified ≡ false → m'.answers ≡ map (cap_record o.client_ttl) m.answers

module _ {k : Hickory} {fl : Floats} (crate : IpnetCrate) (ctx : AnswerContext fl) where
  add_chosen-Keeps :
      (m : Message k) (rtype : ℕ) (group : k.Name × List ℕ) (o : AnswerOutcome) (any : Bool)
      (to_add : List IpAddr)
      → Keeps m (add_chosen crate ctx m rtype group o any to_add)
  unfolding add_chosen conclude finish_ttl cap_ttls
  add_chosen-Keeps m rtype (owner, is) o any [] h = refl
  add_chosen-Keeps m rtype (owner, is) o any (a ∷ to_add) h = absurd (true≢false h)

  conclude-Keeps :
      (m : Message k) (o : AnswerOutcome) (any : Bool) → Keeps m (conclude ctx m o any false)
  unfolding conclude finish_ttl cap_ttls
  conclude-Keeps m o any h = refl

  add_verified-Keeps :
      (m : Message k) (rtype : ℕ) (group : k.Name × List ℕ) (o : AnswerOutcome) (any : Bool)
      → Keeps m (add_verified crate ctx m rtype group o any)
  unfolding add_verified
  add_verified-Keeps m rtype group o any =
      let existing = addresses_of m.answers group.1 in
      let best = best_original_cost crate ctx fl.infinity existing in
      add_chosen-Keeps m rtype group o any (choose crate ctx rtype existing best ctx.verified [])

  second_step-Keeps :
      (m : Message k) (rtype : ℕ) (group : k.Name × List ℕ) (o : AnswerOutcome) (any : Bool)
      → Keeps m (second_step crate ctx m rtype group o any)
  unfolding second_step
  second_step-Keeps m rtype group o any = elim (Eligibility-cases o.cloudflare_applied) [
    | inl e ↦ rw (e, second_step) (add_verified-Keeps m rtype group o any)
    | inr (inl e) ↦ rw (e, second_step) (conclude-Keeps m o any)
    | inr (inr e) ↦ rw (e, second_step) (conclude-Keeps m o any)
  ]

  -- The record at a position stays there, with a capped TTL, when nothing is added.
  abbrev Stays : ℕ → Record k → Message k × AnswerOutcome → Type 0
  Stays j r (m', o) = o.modified ≡ false → get_elem? m'.answers j ≡ some (cap_record o.client_ttl r)

  Keeps-Stays :
      (m : Message k) (res : Message k × AnswerOutcome) (j : ℕ) (r : Record k)
      → get_elem? m.answers j ≡ some r
      → Keeps m res
      → Stays j r res
  Keeps-Stays m (m', o) j r read keeps h =
      subst (λ l. get_elem? l j ≡ some (cap_record o.client_ttl r)) (sym (keeps h))
        (get_elem?-map (cap_record o.client_ttl) m.answers j r read)

  apply_groups-Stays :
      (m : Message k) (o : AnswerOutcome) (g : k.Name × List ℕ) (gs : List (k.Name × List ℕ))
      (j : ℕ) (r : Record k)
      → get_elem? m.answers j ≡ some r
      → record_type r ≢ ctx.qtype
      → rrset_groups m.answers ctx.qtype ≡ g ∷ gs
      → Stays j r (apply_groups crate ctx m ctx.qtype o (g ∷ gs) (last_group g gs))
  unfolding apply_groups
  apply_groups-Stays m o g gs j r read other found =
      let i = eligibility_inputs crate ctx m (g ∷ gs) (last_group g gs) in
      let step = order_groups ctx (g ∷ gs) m.answers false OrderDecision.disabled in
      let are : AreGroups m.answers ctx.qtype (length m.answers) (g ∷ gs) =
        subst (λ l. AreGroups m.answers ctx.qtype (length m.answers) l) found
          (rrset_groups-AreGroups m.answers ctx.qtype) in
      let outside =
        AreGroups-InNone m.answers ctx.qtype j r read other (length m.answers) (g ∷ gs) are in
      let read' : get_elem? step.0 j ≡ some r =
        get_elem?-order_groups ctx (g ∷ gs) m.answers false OrderDecision.disabled j outside
        ∙ read in
      let outcome : AnswerOutcome = record o {
        cloudflare_applied = (evaluate i).0;
        fallback = (evaluate i).1;
        order = step.2;
      } in
      Keeps-Stays (record m { answers = step.0 })
        (second_step crate ctx (record m { answers = step.0 }) ctx.qtype (last_group g gs) outcome
          step.1)
        j r read'
        (second_step-Keeps (record m { answers = step.0 }) ctx.qtype (last_group g gs) outcome
          step.1)

  apply_answer_policy-Stays :
      (m : Message k) (j : ℕ) (r : Record k)
      → get_elem? m.answers j ≡ some r
      → record_type r ≢ ctx.qtype
      → Stays j r (apply_answer_policy crate ctx m)
  unfolding apply_answer_policy conclude is_eligibility_off
  apply_answer_policy-Stays m j r read other =
      let start : AnswerOutcome = record {
        cloudflare_applied = Eligibility.off;
        fallback = none;
        order = OrderDecision.disabled;
        added = 0;
        client_ttl = 0;
        ttl_reason = TtlReason.default;
        modified = false;
      } in
      let untouched =
        Keeps-Stays m (conclude ctx m start false false) j r read (conclude-Keeps m start false) in
      elim (Bool-cases (not (ctx.qtype == type_a || ctx.qtype == type_aaaa))) [
        | inl e ↦ rw e untouched
        | inr e ↦ elim (List-cases (rrset_groups m.answers ctx.qtype)) [
          | inl found ↦ rw (e, found) untouched
          | inr (g, gs, found) ↦
              rw (e, found) (apply_groups-Stays m start g gs j r read other found)
        ]
      ]

  -- When no address is added, a record of a type that was not asked for keeps its position in the answer
  -- section and is as before but for the capped TTL.
  pub apply_answer_policy-position :
      (m : Message k) (j : ℕ) (r : Record k)
      → get_elem? m.answers j ≡ some r
      → record_type r ≢ ctx.qtype
      → (apply_answer_policy crate ctx m).1.modified ≡ false
      → get_elem? (apply_answer_policy crate ctx m).0.answers j
        ≡ some (cap_record (apply_answer_policy crate ctx m).1.client_ttl r)
  apply_answer_policy-position m j r read other h = apply_answer_policy-Stays m j r read other h
