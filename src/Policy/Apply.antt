-- ===== src/Policy/Apply.antt =====
-- `apply_answer_policy` of src/policy/answer.rs.
use egressdns.Prelude.{
  Bool, List, [], false, if◌then◌else◌, length, ltb, none, not, some, true, ℕ, ◌&&◌, ◌==◌, ◌||◌,
  ◌∷◌,
}
use egressdns.Float.{Floats}
use egressdns.IpClass.{IpnetCrate}
use egressdns.Ttl.{TtlReason, effective_client_ttl}
use egressdns.Net.{IpAddr}
use egressdns.Ranking.{OrderDecision, Ordering, addresses_eq, order_addresses}
use egressdns.Message.{Hickory, Message, Record, cap_ttls, type_a, type_aaaa}
use egressdns.Policy.{
  Eligibility, augment, evaluate, is_eligibility_off, no_verified_candidate, publishes_ech,
  EligibilityInputs,
}
use egressdns.Policy.Answer.{
  AnswerContext, AnswerOutcome, addresses_of, best_original_cost, choose, group_ttl,
  has_verified_candidate, prepend_addresses, reorder_in_place, rrset_groups,
}

module _ {k : Hickory} {fl : Floats} (ctx : AnswerContext fl) where
  unfoldable pub finish_ttl :
      Message k → AnswerOutcome → Bool → Bool → Bool → Message k × AnswerOutcome
  unfolding effective_client_ttl cap_ttls
  finish_ttl m outcome augmented cf_preserved optimized_multi =
      let (ttl, reason) = effective_client_ttl ctx.ttl record {
        remaining_authoritative = ctx.remaining_authoritative;
        remaining_signature = ctx.remaining_signature;
        is_stale = ctx.is_stale;
        recent_network_change = ctx.recent_network_change;
        cloudflare_augmented = augmented;
        cloudflare_preserved = cf_preserved;
        optimized_multi = optimized_multi;
      } in
      (cap_ttls m ttl, record outcome { client_ttl = ttl; ttl_reason = reason })

  -- One RRset, with its addresses and the order that is wanted: the answers, whether any RRset was
  -- reordered, and the last decision.
  unfoldable pub order_group :
      List IpAddr
      → Ordering
      → List ℕ
      → List (Record k)
      → Bool
      → OrderDecision
      → List (Record k) × Bool × OrderDecision
  unfolding addresses_eq reorder_in_place
  order_group original ordering is answers any last =
      if ltb (length original) 2
      then (answers, any, last)
      else if addresses_eq ordering.addresses original
      then (answers, any, ordering.decision)
      else (reorder_in_place answers is ordering.addresses, true, ordering.decision)

  -- The first loop.
  unfoldable pub order_groups :
      List (k.Name × List ℕ)
      → List (Record k)
      → Bool
      → OrderDecision
      → List (Record k) × Bool × OrderDecision
  unfolding addresses_of order_addresses order_group
  order_groups [] answers any last = (answers, any, last)
  order_groups ((name, is) ∷ gs) answers any last =
      let original = addresses_of answers is in
      let ordering = order_addresses ctx.ranking ctx.quality original ctx.explore_seed in
      let (answers', any', last') = order_group original ordering is answers any last in
      order_groups gs answers' any' last'

  -- The end: the shares of the TTL cap, and the cap.
  unfoldable pub conclude : Message k → AnswerOutcome → Bool → Bool → Message k × AnswerOutcome
  unfolding finish_ttl
  conclude m outcome any_reorder augmented =
      let touched =
        not (is_eligibility_off outcome.cloudflare_applied) && (any_reorder || augmented) in
      finish_ttl m (record outcome { modified = augmented }) augmented (touched && not augmented)
        (any_reorder && not touched)

unfoldable pub last_group : {A : Type 0} → A → List A → A
last_group g [] = g
last_group g (h ∷ gs) = last_group h gs

module _ {k : Hickory} {fl : Floats} (crate : IpnetCrate) (ctx : AnswerContext fl) where
  -- The end of the second step, with the addresses to add.
  unfoldable pub add_chosen :
      Message k
      → ℕ
      → k.Name × List ℕ
      → AnswerOutcome
      → Bool
      → List IpAddr
      → Message k × AnswerOutcome
  unfolding group_ttl prepend_addresses conclude
  add_chosen m rtype (owner, is) outcome any_reorder [] =
      conclude ctx m
        (record outcome {
          cloudflare_applied = Eligibility.preserve;
          fallback = some no_verified_candidate;
        })
        any_reorder false
  add_chosen m rtype (owner, is) outcome any_reorder (a ∷ to_add) =
      let ttl = group_ttl m.answers is in
      let answers = prepend_addresses m.answers is owner ttl (a ∷ to_add) rtype in
      conclude ctx (record m { answers = answers }) (record outcome { added = length (a ∷ to_add) })
        any_reorder true

  -- The second step, for an answer that may be added to; `group` is the final RRset.
  unfoldable pub add_verified :
      Message k → ℕ → k.Name × List ℕ → AnswerOutcome → Bool → Message k × AnswerOutcome
  unfolding addresses_of best_original_cost choose add_chosen
  add_verified m rtype group outcome any_reorder =
      let existing = addresses_of m.answers group.1 in
      let best = best_original_cost crate ctx fl.infinity existing in
      add_chosen m rtype group outcome any_reorder
        (choose crate ctx rtype existing best ctx.verified [])

  unfoldable pub eligibility_inputs :
      Message k → List (k.Name × List ℕ) → k.Name × List ℕ → EligibilityInputs
  unfolding addresses_of publishes_ech has_verified_candidate
  eligibility_inputs m groups final = record {
    mode = ctx.cloudflare_mode;
    enabled = ctx.cloudflare_enabled;
    qtype = ctx.qtype;
    dnssec = ctx.dnssec;
    snapshot = ctx.snapshot;
    original = addresses_of m.answers final.1;
    single_rrset = length groups == 1;
    excluded = ctx.domain_excluded;
    publishes_ech = publishes_ech m;
    can_validate_ech = ctx.can_validate_ech;
    baseline_validated = ctx.baseline_validated;
    has_verified_candidate = has_verified_candidate crate ctx ctx.verified;
  }

  -- The second step where the answer is eligible, and the end.
  unfoldable pub second_step :
      Message k → ℕ → k.Name × List ℕ → AnswerOutcome → Bool → Message k × AnswerOutcome
  second_step m rtype final outcome any_reorder = elim outcome.cloudflare_applied [
    | augment ↦ add_verified m rtype final outcome any_reorder
    | _ ↦ conclude ctx m outcome any_reorder false
  ]

  -- The steps for an answer with RRsets of the queried type.
  unfoldable pub apply_groups :
      Message k
      → ℕ
      → AnswerOutcome
      → List (k.Name × List ℕ)
      → k.Name × List ℕ
      → Message k × AnswerOutcome
  apply_groups m rtype start groups final =
      let (eligibility, fallback) = evaluate (eligibility_inputs m groups final) in
      let (answers, any_reorder, order) =
        order_groups ctx groups m.answers false OrderDecision.disabled in
      second_step (record m { answers = answers }) rtype final
        (record start { cloudflare_applied = eligibility; fallback = fallback; order = order })
        any_reorder

  unfoldable pub apply_answer_policy : Message k → Message k × AnswerOutcome
  unfolding finish_ttl last_group
  apply_answer_policy m =
      let start : AnswerOutcome = record {
        cloudflare_applied = Eligibility.off;
        fallback = none;
        order = OrderDecision.disabled;
        added = 0;
        client_ttl = 0;
        ttl_reason = TtlReason.default;
        modified = false;
      } in
      let nothing = finish_ttl ctx m start false false false in
      if not (ctx.qtype == type_a || ctx.qtype == type_aaaa)
      then nothing
      else elim (rrset_groups m.answers ctx.qtype) [
        | [] ↦ nothing
        | g ∷ gs ↦ apply_groups m ctx.qtype start (g ∷ gs) (last_group g gs)
      ]
