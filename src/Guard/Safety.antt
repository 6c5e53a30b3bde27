-- ===== src/Guard/Safety.antt =====
-- What an admission of src/probe/safety.rs guarantees.
use mathlib.Core.Bool.{true≢false}
use egressdns.Prelude.{
  ==_false, Bool, Bool-cases, Option, Option-cases, and_inv, dict_get, false, inl, inr, none,
  none≢some, not, not_inv, refl, some, sym, true, ◌==◌, ◌||◌, ◌∙◌, ◌≡◌, ◌≢◌, ◌⊎◌,
}
use egressdns.Net.{IpAddr, IpAddr-discrete}
use egressdns.IpClass.{IpnetCrate, SpecialUse, classify}
use egressdns.Guard.{
  GuardLimits, GuardState, Refusal, address_allowed, any_net, is_forbidden, port_allowed, has_port,
  covering_prefix,
}
use egressdns.Guard.Admission.{
  Probe, admit, and_then, bandwidth_gate, cooldown_gate, rate_gate, record_admission, admit_locked,
  cools, prefix_discrete, domain_cools,
}

-- A chain of steps that admits has admitted at each step.
and_then_inv :
    {P : Type 0} (step : GuardState × Option Refusal)
    (next : GuardState → GuardState × Option Refusal)
    → (and_then step next).1 ≡ none
    → (step.1 ≡ none → (next step.0).1 ≡ none → and_then step next ≡ next step.0 → P)
    → P
unfolding and_then
and_then_inv (st, some r) next h k = absurd (none≢some (sym h))
and_then_inv (st, none) next h k = k refl h refl

pub cooldown_gate-keeps :
    (limits : GuardLimits) (st : GuardState) (p : Probe) → (cooldown_gate limits st p).0 ≡ st
unfolding cooldown_gate
cooldown_gate-keeps limits st p =
    elim (Bool-cases (cools p.now (dict_get IpAddr-discrete p.addr st.ip_seen) limits.per_ip)) [
      | inl e ↦ rw e refl
      | inr e ↦
          elim (Bool-cases (
            cools p.now (dict_get prefix_discrete (covering_prefix p.addr) st.prefix_seen)
              limits.per_prefix)) [
                | inl e2 ↦ rw (e, e2) refl
                | inr e2 ↦ elim (Bool-cases (domain_cools limits st p)) [
                  | inl e3 ↦ rw (e, e2, e3) refl
                  | inr e3 ↦ rw (e, e2, e3) refl
                ]
              ]
    ]

or_cases : (a b : Bool) → (a || b) ≡ true → (a ≡ true) ⊎ (b ≡ true)
or_cases true b h = inl refl
or_cases false b h = inr h

-- What `address_allowed` lets through.
allowed_class :
    (crate : IpnetCrate) (limits : GuardLimits) (addr : IpAddr)
    → address_allowed crate limits addr ≡ true
    → (classify crate addr ≡ none)
      ⊎ ((class : SpecialUse) × (classify crate addr ≡ some class)
          × (is_forbidden class ≡ false)
          × (any_net crate limits.allow_special addr ≡ true))
unfolding address_allowed
allowed_class crate limits addr h = elim (Option-cases (classify crate addr)) [
  | inl e ↦ inl e
  | inr (class, e) ↦ elim (Bool-cases (is_forbidden class)) [
    | inl closed ↦ absurd (true≢false (sym (rw (address_allowed, e, closed) at h)))
    | inr ok ↦ inr (class, e, ok, rw (address_allowed, e, ok) at h)
  ]
]

-- The gates that an admitted call has passed, and the state it leaves.
pub record Passed (limits : GuardLimits) (st : GuardState) (p : Probe) : Type 0 where
  pub budgeted : (bandwidth_gate limits st p.now).1 ≡ none
  pub rated : (rate_gate limits (bandwidth_gate limits st p.now).0 p.now).1 ≡ none
  pub cooled :
      (cooldown_gate limits (rate_gate limits (bandwidth_gate limits st p.now).0 p.now).0 p).1
      ≡ none
  pub left : admit_locked limits st p ≡ (
    record_admission limits
        (cooldown_gate limits (rate_gate limits (bandwidth_gate limits st p.now).0 p.now).0 p).0
        p,
    none,
  )

pub admit_locked-Passed :
    (limits : GuardLimits) (st : GuardState) (p : Probe)
    → (admit_locked limits st p).1 ≡ none
    → Passed limits st p
unfolding admit_locked
admit_locked-Passed limits st p h =
    and_then_inv (bandwidth_gate limits st p.now) _ h λ budgeted h1 e1.
      and_then_inv (rate_gate limits (bandwidth_gate limits st p.now).0 p.now) _ h1 λ rated h2 e2.
        and_then_inv
          (cooldown_gate limits (rate_gate limits (bandwidth_gate limits st p.now).0 p.now).0 p) _
          h2
          λ cooled h3 e3. record {
            budgeted = budgeted;
            rated = rated;
            cooled = cooled;
            left = e1 ∙ e2 ∙ e3;
          }

-- What is admitted has passed the first two checks and the locked ones.
pub admit_inv :
    (crate : IpnetCrate) (limits : GuardLimits) (st : GuardState) (p : Probe)
    → (admit crate limits st p).1 ≡ none
    → (address_allowed crate limits p.addr ≡ true)
      × (port_allowed limits p.port p.declared_port ≡ true)
      × (admit crate limits st p ≡ admit_locked limits st p)
unfolding admit
admit_inv crate limits st p h = elim (Bool-cases (address_allowed crate limits p.addr)) [
  | inr closed ↦ absurd (none≢some (sym (rw (admit, closed) at h)))
  | inl ok ↦ elim (Bool-cases (port_allowed limits p.port p.declared_port)) [
    | inr closed ↦ absurd (none≢some (sym (rw (admit, ok, closed) at h)))
    | inl ported ↦ (ok, ported, rw (ok, ported) refl)
  ]
]

-- An admitted call goes to a port other than 0 that the service declared or the administrator listed, and
-- to an address of no special class, or of a class other than loopback, link-local, cloud metadata,
-- multicast and unspecified that the administrator excepted.
pub admit_safe :
    (crate : IpnetCrate) (limits : GuardLimits) (st : GuardState) (p : Probe)
    → (admit crate limits st p).1 ≡ none
    → (p.port ≢ 0)
      × ((p.declared_port ≡ true) ⊎ (has_port p.port limits.allowed_ports ≡ true))
      × ((classify crate p.addr ≡ none)
          ⊎ ((class : SpecialUse) × (classify crate p.addr ≡ some class)
              × (is_forbidden class ≡ false)
              × (any_net crate limits.allow_special p.addr ≡ true)))
unfolding port_allowed
admit_safe crate limits st p h =
    let (addressed, ported, _) = admit_inv crate limits st p h in
    let (nonzero, listed) = and_inv (not (p.port == 0)) _ ported in
    (
      ==_false p.port 0 (not_inv _ nonzero),
      or_cases p.declared_port _ listed,
      allowed_class crate limits p.addr addressed,
    )
