-- ===== src/Policy/Steps.antt =====
-- The steps of `apply_answer_policy` of src/policy/answer.rs keep to what is permitted.
use egressdns.Prelude.{
  Bool, List, [], arith, false, inl, inr, length, refl, some, ℕ, ◌<◌, ◌∷◌, ◌≡◌, ◌≤◌,
}
use egressdns.Net.{IpAddr}
use egressdns.Float.{Floats}
use egressdns.IpClass.{IpnetCrate}
use egressdns.Message.{Hickory, Message, Record, cap_ttls}
use egressdns.Policy.{Eligibility, no_verified_candidate}
use egressdns.Policy.Answer.{
  AnswerContext, AnswerOutcome, addresses_of, best_original_cost, choose, group_ttl, new_records,
}
use egressdns.Policy.Apply.{add_verified, conclude, finish_ttl, add_chosen, second_step}
use egressdns.Policy.Choose.{AllAllowed, NoRepeat, choose_sound}
use mathlib.Core.List.{Perm}
use mathlib.Core.List.Perm
use egressdns.Policy.Permitted.{
  Eligibility-cases, Permitted, cap_record, prepend_addresses-Perm, MayAdd, HasAll,
  new_records-carried,
}

module _ {k : Hickory} {fl : Floats} (crate : IpnetCrate) (ctx : AnswerContext fl) where
  -- An answer to which nothing is added.
  pub conclude-Permitted :
      (m : Message k) (o : AnswerOutcome) (any : Bool) (xs : List (Record k))
      → Perm m.answers xs
      → o.added ≡ 0
      → let (m', o') = conclude ctx m o any false in
        Permitted crate ctx (record m { answers = xs }) m' o'
  unfolding conclude finish_ttl cap_ttls new_records
  conclude-Permitted m o any xs p counted = record {
    new = [];
    existing = [];
    added = [];
    answers = Perm.map (cap_record _) p;
    carried = refl;
    authorities = refl;
    additionals = refl;
    counted = counted;
    marked = refl;
    bounded = omega arith;
    allowed = tt;
    distinct = tt;
    eligible = λ h. absurd (omega (arith, h));
    complete = λ h. absurd (omega (arith, h));
  }

  -- An answer to which the chosen addresses are added.
  add_chosen-Permitted :
      (m : Message k) (group : k.Name × List ℕ) (o : AnswerOutcome) (any : Bool)
      (xs : List (Record k)) (to_add : List IpAddr)
      → Perm m.answers xs
      → 0 < length group.1
      → o.added ≡ 0
      → MayAdd ctx o
      → HasAll ctx.qtype xs (addresses_of m.answers group.1)
      → AllAllowed crate ctx ctx.qtype (addresses_of m.answers group.1) to_add
        × NoRepeat to_add
        × (length to_add ≤ ctx.augment.max_added)
      → let (m', o') = add_chosen crate ctx m ctx.qtype group o any to_add in
        Permitted crate ctx (record m { answers = xs }) m' o'
  unfolding add_chosen conclude finish_ttl cap_ttls
  add_chosen-Permitted m (owner, is) o any xs [] p some_index counted eligible complete sound =
      conclude-Permitted m
        (record o {
          cloudflare_applied = Eligibility.preserve;
          fallback = some no_verified_candidate;
        })
        any xs p counted
  add_chosen-Permitted m (owner, is) o any xs (a ∷ to_add) p some_index counted eligible complete
        (allowed, distinct, bounded) =
      let ttl = group_ttl m.answers is in
      let new = new_records owner ttl ctx.qtype (a ∷ to_add) in
      let answers =
        Perm.trans (prepend_addresses-Perm m.answers is owner ttl (a ∷ to_add) ctx.qtype some_index)
          (Perm.append_left new p) in
      record {
        new = new;
        existing = addresses_of m.answers is;
        added = a ∷ to_add;
        answers = Perm.map (cap_record _) answers;
        authorities = refl;
        additionals = refl;
        carried =
            new_records-carried k crate ctx owner ttl ctx.qtype (addresses_of m.answers is)
              (a ∷ to_add) eligible.3 allowed;
        counted = refl;
        marked = ground arith;
        bounded = bounded;
        allowed = allowed;
        distinct = distinct;
        eligible = λ h. eligible;
        complete = λ h. complete;
      }

  add_verified-Permitted :
      (m : Message k) (group : k.Name × List ℕ) (o : AnswerOutcome) (any : Bool)
      (xs : List (Record k))
      → Perm m.answers xs
      → 0 < length group.1
      → o.added ≡ 0
      → MayAdd ctx o
      → HasAll ctx.qtype xs (addresses_of m.answers group.1)
      → let (m', o') = add_verified crate ctx m ctx.qtype group o any in
        Permitted crate ctx (record m { answers = xs }) m' o'
  unfolding add_verified
  add_verified-Permitted m group o any xs p some_index counted eligible complete =
      let existing = addresses_of m.answers group.1 in
      let best = best_original_cost crate ctx fl.infinity existing in
      let chosen = choose crate ctx ctx.qtype existing best ctx.verified [] in
      add_chosen-Permitted m group o any xs chosen p some_index counted eligible complete (
        choose_sound crate ctx ctx.qtype existing best ctx.verified [] (λ c h. h) tt tt
          (omega arith))

  pub second_step-Permitted :
      (m : Message k) (group : k.Name × List ℕ) (o : AnswerOutcome) (any : Bool)
      (xs : List (Record k))
      → Perm m.answers xs
      → 0 < length group.1
      → o.added ≡ 0
      → (o.cloudflare_applied ≡ Eligibility.augment → MayAdd ctx o)
      → (o.cloudflare_applied ≡ Eligibility.augment
          → HasAll ctx.qtype xs (addresses_of m.answers group.1))
      → let (m', o') = second_step crate ctx m ctx.qtype group o any in
        Permitted crate ctx (record m { answers = xs }) m' o'
  unfolding second_step
  second_step-Permitted m group o any xs p some_index counted eligible complete =
      elim (Eligibility-cases o.cloudflare_applied) [
        | inl e ↦
            rw (e, second_step)
              (add_verified-Permitted m group o any xs p some_index counted (eligible e)
                (complete e))
        | inr (inl e) ↦ rw (e, second_step) (conclude-Permitted m o any xs p counted)
        | inr (inr e) ↦ rw (e, second_step) (conclude-Permitted m o any xs p counted)
      ]
