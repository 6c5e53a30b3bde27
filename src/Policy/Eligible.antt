-- ===== src/Policy/Eligible.antt =====
-- When `evaluate` of src/policy/cloudflare.rs lets an answer be added to.
use egressdns.Prelude.{
  Bool, Option, Option-cases, ap, arith, false, if◌then◌else◌, inl, inr, none, none≢some, not,
  or_inv, refl, some, sym, true, ℕ, ◌&&◌, ◌==◌, ◌||◌, ◌↔◌, ◌≡◌, ◌≢◌, ◌⊎◌,
}
use egressdns.Cache.Entry.{DnssecStatus}
use egressdns.Prefixes.{PrefixSnapshot}
use egressdns.Message.{type_a, type_aaaa}
use mathlib.Core.Bool.{true≢false}
use egressdns.Policy.{
  CloudflareMode, Eligibility, EligibilityInputs, FallbackReason, any_contained, dnssec_fallback,
  evaluate, evaluate_augment, is_off, is_preserve,
}

-- All conditions of the verified-augment mode.
pub record Eligible (i : EligibilityInputs) : Type 0 where
  pub on : i.enabled ≡ true
  pub mode : i.mode ≡ CloudflareMode.verified_augment
  pub queried : (i.qtype ≡ type_a) ⊎ (i.qtype ≡ type_aaaa)
  pub included : i.excluded ≡ false
  pub owned : (s : PrefixSnapshot) × (i.snapshot ≡ some s) × (any_contained s i.original ≡ true)
  pub single : i.single_rrset ≡ true
  pub unsigned : i.dnssec ≡ DnssecStatus.insecure
  pub ech : (i.publishes_ech && not i.can_validate_ech) ≡ false
  pub baseline : i.baseline_validated ≡ true
  pub candidate : i.has_verified_candidate ≡ true

past :
    (c : Bool) (x y : Eligibility × Option FallbackReason)
    → (if c then x else y).0 ≡ Eligibility.augment
    → x.0 ≢ Eligibility.augment
    → (c ≡ false) × (y.0 ≡ Eligibility.augment)
past true x y h ne = absurd (ne h)
past false x y h ne = (refl, h)

off≢augment : Eligibility.off ≢ Eligibility.augment
off≢augment e = cc

preserve≢augment : Eligibility.preserve ≢ Eligibility.augment
preserve≢augment e = cc

not-false : (b : Bool) → not b ≡ false → b ≡ true
not-false true h = refl
not-false false h = sym h

insecure_lem : (d : DnssecStatus) → dnssec_fallback d ≡ none → d ≡ DnssecStatus.insecure
unfolding dnssec_fallback
insecure_lem DnssecStatus.insecure h = refl
insecure_lem DnssecStatus.secure h = absurd (none≢some (sym h))
insecure_lem DnssecStatus.bogus h = absurd (none≢some (sym h))
insecure_lem DnssecStatus.indeterminate h = absurd (none≢some (sym h))

mode_lem :
    (m : CloudflareMode)
    → is_off m ≡ false
    → is_preserve m ≡ false
    → m ≡ CloudflareMode.verified_augment
unfolding is_off is_preserve
mode_lem CloudflareMode.off h h' = absurd (true≢false h)
mode_lem CloudflareMode.preserve h h' = absurd (true≢false h')
mode_lem CloudflareMode.verified_augment h h' = refl

type_lem : (q : ℕ) → not (q == type_a || q == type_aaaa) ≡ false → (q ≡ type_a) ⊎ (q ≡ type_aaaa)
type_lem q h = ground arith

typed_lem : (q : ℕ) → (q ≡ type_a) ⊎ (q ≡ type_aaaa) → (q == type_a || q == type_aaaa) ≡ true
typed_lem q h = ground arith

evaluate_augment_inv :
    (i : EligibilityInputs)
    → (evaluate_augment i).0 ≡ Eligibility.augment
    → (i.single_rrset ≡ true)
      × (i.dnssec ≡ DnssecStatus.insecure)
      × ((i.publishes_ech && not i.can_validate_ech) ≡ false)
      × (i.baseline_validated ≡ true)
      × (i.has_verified_candidate ≡ true)
unfolding evaluate_augment
evaluate_augment_inv i h =
    let (single, h1) = past (not i.single_rrset) _ _ h preserve≢augment in
    elim (Option-cases (dnssec_fallback i.dnssec)) [
      | inr (reason, e) ↦ absurd (preserve≢augment (rw e at h1))
      | inl e ↦
          let (ech, h2) =
            past (i.publishes_ech && not i.can_validate_ech) _ _ (rw e at h1) preserve≢augment in
          let (baseline, h3) = past (not i.baseline_validated) _ _ h2 preserve≢augment in
          let (candidate, _) = past (not i.has_verified_candidate) _ _ h3 preserve≢augment in
          (
            not-false _ single,
            insecure_lem i.dnssec e,
            ech,
            not-false _ baseline,
            not-false _ candidate,
          )
    ]

pub evaluate-Eligible : (i : EligibilityInputs) → (evaluate i).0 ≡ Eligibility.augment → Eligible i
unfolding evaluate
evaluate-Eligible i h =
    let (usable, h1) = past (not i.enabled || is_off i.mode) _ _ h off≢augment in
    let (off1, off2) = or_inv _ _ usable in
    let (queried, h2) = past (not (i.qtype == type_a || i.qtype == type_aaaa)) _ _ h1 off≢augment in
    let (included, h3) = past i.excluded _ _ h2 off≢augment in
    elim (Option-cases i.snapshot) [
      | inl e ↦ absurd (off≢augment (rw e at h3))
      | inr (s, e) ↦
          let (owned, h4) = past (not (any_contained s i.original)) _ _ (rw e at h3) off≢augment in
          let (kept, h5) = past (is_preserve i.mode) _ _ h4 preserve≢augment in
          let (single, unsigned, ech, baseline, candidate) = evaluate_augment_inv i h5 in
          record {
            on = not-false _ off1;
            mode = mode_lem i.mode off2 kept;
            queried = type_lem i.qtype queried;
            included = included;
            owned = (s, e, not-false _ owned);
            single = single;
            unsigned = unsigned;
            ech = ech;
            baseline = baseline;
            candidate = candidate;
          }
    ]

-- The converse.
Eligible-evaluate : (i : EligibilityInputs) → Eligible i → evaluate i ≡ (Eligibility.augment, none)
unfolding evaluate evaluate_augment is_off is_preserve dnssec_fallback
Eligible-evaluate i ok =
    let (s, here, owned) = ok.owned in
    let typed : (i.qtype == type_a || i.qtype == type_aaaa) ≡ true = typed_lem i.qtype ok.queried in
    simp (
      ok.on, ok.mode, typed, ok.included, here, owned, ok.single, ok.unsigned, ok.ech, ok.baseline,
      ok.candidate,
    )

-- An answer may be added to exactly when Cloudflare processing is on in the verified-augment mode, an
-- address is asked for, the domain is not excluded, the answer holds an address of the current snapshot
-- in a single RRset, the DNSSEC status is insecure, published ECH can be validated, a baseline was
-- validated and a verified candidate exists.
pub evaluate-Eligible_iff :
    (i : EligibilityInputs) → ((evaluate i).0 ≡ Eligibility.augment) ↔ Eligible i
evaluate-Eligible_iff i = (evaluate-Eligible i, λ ok. ap (λ r. r.0) (Eligible-evaluate i ok))
