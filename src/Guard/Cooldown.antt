-- ===== src/Guard/Cooldown.antt =====
-- The cooldown of an address in src/probe/safety.rs.
use egressdns.Prelude.{
  Bool-cases, List, Option, Option-cases, [], ap, arith, dict_get, dict_get-insert, if_neg, if_pos,
  inl, inr, leb, length, nanos_per_sec, none, none≢some, refl, some, subst, sym, true, ℕ, ◌*◌, ◌+◌,
  ◌-◌, ◌<◌, ◌∙◌, ◌∷◌, ◌≡◌, ◌≢◌, ◌≤◌,
}
use egressdns.Net.{IpAddr, IpAddr-discrete}
use egressdns.IpClass.{IpnetCrate}
use egressdns.Guard.{GuardLimits, GuardState, max_entries, Refusal, address_allowed, port_allowed}
use egressdns.Guard.Admission.{
  Probe, admit, bandwidth_gate, cooldown_gate, cools, elapsed, open_window, rate_gate,
  record_admission, and_then, admit_locked,
}
use egressdns.Guard.Safety.{cooldown_gate-keeps, admit_inv, admit_locked-Passed}
use egressdns.Guard.Sweep.{Holds, record_admission-Holds}

bandwidth_gate-ip_seen :
    (limits : GuardLimits) (st : GuardState) (now : ℕ)
    → (bandwidth_gate limits st now).0.ip_seen ≡ st.ip_seen
unfolding bandwidth_gate
bandwidth_gate-ip_seen limits st now =
    elim (Bool-cases (leb limits.daily_bandwidth st.bandwidth_used)) [
      | inr e ↦ rw e refl
      | inl e ↦ elim (Bool-cases (elapsed now st.bandwidth_day (86400 * nanos_per_sec))) [
        | inl e2 ↦ rw (e, e2) refl
        | inr e2 ↦ rw (e, e2) refl
      ]
    ]

rate_gate-ip_seen :
    (limits : GuardLimits) (st : GuardState) (now : ℕ)
    → (rate_gate limits st now).0.ip_seen ≡ st.ip_seen
unfolding rate_gate open_window
rate_gate-ip_seen limits st now = elim (Bool-cases (elapsed now st.window_start nanos_per_sec)) [
  | inl e ↦ elim (Bool-cases (leb limits.connections_per_second 0)) [
    | inl e2 ↦ rw (e, e2) refl
    | inr e2 ↦ rw (e, e2) refl
  ]
  | inr e ↦ elim (Bool-cases (leb limits.connections_per_second st.window_count)) [
    | inl e2 ↦ rw (e, e2) refl
    | inr e2 ↦ rw (e, e2) refl
  ]
]

-- The state that the cooldowns are read from has the entries that there were before the call.
gates-ip_seen :
    (limits : GuardLimits) (st : GuardState) (now : ℕ)
    → (rate_gate limits (bandwidth_gate limits st now).0 now).0.ip_seen ≡ st.ip_seen
gates-ip_seen limits st now =
    rate_gate-ip_seen limits (bandwidth_gate limits st now).0 now
    ∙ bandwidth_gate-ip_seen limits st now

-- A call that passes the cooldowns finds no young entry of its address.
cooldown_gate-young :
    (limits : GuardLimits) (st : GuardState) (q : Probe) (t : ℕ)
    → dict_get IpAddr-discrete q.addr st.ip_seen ≡ some t
    → q.now - t < limits.per_ip
    → (cooldown_gate limits st q).1 ≡ none
    → ⊥
unfolding cooldown_gate
cooldown_gate-young limits st q t found young h =
    let young' : cools q.now (some t) limits.per_ip ≡ true = ground arith in
    let waits : cools q.now (dict_get IpAddr-discrete q.addr st.ip_seen) limits.per_ip ≡ true =
      subst (λ o. cools q.now o limits.per_ip ≡ true) (sym found) young' in
    none≢some (sym (rw (cooldown_gate, waits) at h))

-- What an admission leaves: a record of the call in a state with the addresses of the one before.
admit-left :
    (crate : IpnetCrate) (limits : GuardLimits) (st : GuardState) (p : Probe)
    → (admit crate limits st p).1 ≡ none
    → (st3 : GuardState) × (st3.ip_seen ≡ st.ip_seen)
      × ((admit crate limits st p).0 ≡ record_admission limits st3 p)
admit-left crate limits st p ok =
    let (_, _, locked) = admit_inv crate limits st p ok in
    let passed = admit_locked-Passed limits st p (ap (λ r. r.1) (sym locked) ∙ ok) in
    let rated = (rate_gate limits (bandwidth_gate limits st p.now).0 p.now).0 in
    (
      (cooldown_gate limits rated p).0,
      ap (λ (s : GuardState). s.ip_seen) (cooldown_gate-keeps limits rated p)
          ∙ gates-ip_seen limits st p.now,
      ap (λ r. r.0) (locked ∙ passed.left),
    )

and_then-refused :
    (seen : List (IpAddr × ℕ)) (step : GuardState × Option Refusal)
    (next : GuardState → GuardState × Option Refusal)
    → step.0.ip_seen ≡ seen
    → (step.0.ip_seen ≡ seen → (next step.0).1 ≢ none → (next step.0).0.ip_seen ≡ seen)
    → (and_then step next).1 ≢ none
    → (and_then step next).0.ip_seen ≡ seen
unfolding and_then
and_then-refused seen (st, some r) next e k h = e
and_then-refused seen (st, none) next e k h = k e h

-- A refusal leaves the addresses.
locked-refused :
    (limits : GuardLimits) (st : GuardState) (p : Probe)
    → (admit_locked limits st p).1 ≢ none
    → (admit_locked limits st p).0.ip_seen ≡ st.ip_seen
unfolding admit_locked
locked-refused limits st p h =
    let st1 = (bandwidth_gate limits st p.now).0 in
    let st2 = (rate_gate limits st1 p.now).0 in
    and_then-refused st.ip_seen (bandwidth_gate limits st p.now) _
      (bandwidth_gate-ip_seen limits st p.now)
      (λ e1 h1.
        and_then-refused st.ip_seen (rate_gate limits st1 p.now) _
          (rate_gate-ip_seen limits st1 p.now ∙ e1)
          (λ e2 h2.
            and_then-refused st.ip_seen (cooldown_gate limits st2 p) _
              (ap (λ (s : GuardState). s.ip_seen) (cooldown_gate-keeps limits st2 p) ∙ e2)
              (λ e3 h3. absurd (h3 refl)) h2)
          h1)
      h

refused-ip_seen :
    (crate : IpnetCrate) (limits : GuardLimits) (st : GuardState) (p : Probe)
    → (admit crate limits st p).1 ≢ none
    → (admit crate limits st p).0.ip_seen ≡ st.ip_seen
unfolding admit
refused-ip_seen crate limits st p h = elim (Bool-cases (address_allowed crate limits p.addr)) [
  | inr closed ↦ rw closed refl
  | inl ok ↦ elim (Bool-cases (port_allowed limits p.port p.declared_port)) [
    | inr closed ↦ rw (ok, closed) refl
    | inl ported ↦
        let e : admit crate limits st p ≡ admit_locked limits st p = rw (ok, ported) refl in
        ap (λ r. r.0.ip_seen) e ∙ locked-refused limits st p (subst (λ r. r.1 ≢ none) e h)
  ]
]

-- No call for an address that cools down is admitted.
admit-young :
    (crate : IpnetCrate) (limits : GuardLimits) (st : GuardState) (p : Probe) (at : ℕ)
    → dict_get IpAddr-discrete p.addr st.ip_seen ≡ some at
    → p.now - at < limits.per_ip
    → (admit crate limits st p).1 ≢ none
admit-young crate limits st p at found young ok =
    let (_, _, locked) = admit_inv crate limits st p ok in
    let passed = admit_locked-Passed limits st p (ap (λ r. r.1) (sym locked) ∙ ok) in
    cooldown_gate-young limits (rate_gate limits (bandwidth_gate limits st p.now).0 p.now).0 p at
      (subst (λ l. dict_get IpAddr-discrete p.addr l ≡ some at)
        (sym (gates-ip_seen limits st p.now)) found)
      young passed.cooled

-- While an address cools down, no call takes it off or replaces its time, and at most one is added.
admit-Holds :
    (crate : IpnetCrate) (limits : GuardLimits) (addr : IpAddr) (at n : ℕ) (st : GuardState)
    (p : Probe)
    → p.now - at < limits.per_ip
    → n < max_entries
    → Holds addr at n st
    → Holds addr at (n + 1) (admit crate limits st p).0
admit-Holds crate limits addr at n st p young room (found, fits) =
    elim (Option-cases (admit crate limits st p).1) [
      | inr (r, e) ↦
          let same = refused-ip_seen crate limits st p (λ q. none≢some (sym q ∙ e)) in
          subst (λ l. (dict_get IpAddr-discrete addr l ≡ some at) × (length l ≤ n + 1)) (sym same)
            (found, omega arith)
      | inl ok ↦
          let (st3, same, left) = admit-left crate limits st p ok in
          let other : addr ≢ p.addr = λ q.
            admit-young crate limits st p at
              (subst (λ a. dict_get IpAddr-discrete a st.ip_seen ≡ some at) q found) young ok in
          let found' : dict_get IpAddr-discrete addr st3.ip_seen ≡ some at =
            subst (λ l. dict_get IpAddr-discrete addr l ≡ some at) (sym same) found in
          let here =
            dict_get-insert IpAddr-discrete addr p.addr p.now st3.ip_seen
            ∙ if_neg (IpAddr-discrete addr p.addr) other (some p.now) _
            ∙ found' in
          subst (Holds addr at (n + 1)) (sym left) (
            record_admission-Holds limits st3 p addr at n here young
              (subst (λ (l : List (IpAddr × ℕ)). length l ≤ n) (sym same) fits) room)
    ]

-- The state after calls.
unfoldable pub run : IpnetCrate → GuardLimits → GuardState → List Probe → GuardState
run crate limits st [] = st
run crate limits st (p ∷ ps) = run crate limits (admit crate limits st p).0 ps

-- All calls come within a time of `at`.
abbrev pub AllWithin : ℕ → ℕ → List Probe → Type 0
AllWithin at time [] = Unit
AllWithin at time (p ∷ ps) = (p.now - at < time) × AllWithin at time ps

run-Holds :
    (crate : IpnetCrate) (limits : GuardLimits) (addr : IpAddr) (at n : ℕ) (st : GuardState)
    (ps : List Probe)
    → AllWithin at limits.per_ip ps
    → n + length ps ≤ max_entries
    → Holds addr at n st
    → Holds addr at (n + length ps) (run crate limits st ps)
unfolding run
run-Holds crate limits addr at n st [] w room h = (h.0, omega arith)
run-Holds crate limits addr at n st (p ∷ ps) (young, w) room h =
    let (found, fits) =
      run-Holds crate limits addr at (n + 1) (admit crate limits st p).0 ps w (omega arith)
        (admit-Holds crate limits addr at n st p young (omega arith) h) in
    (found, omega arith)

-- After a call was admitted, every call for the same address within the cooldown of addresses is refused,
-- whatever its port and hostname, and whatever calls for this and other addresses come in between within
-- that time, while the addresses recorded before and the calls in between are together fewer than
-- `max_entries`.
pub admit-cooldown :
    (crate : IpnetCrate) (limits : GuardLimits) (st : GuardState) (p : Probe) (ps : List Probe)
    (q : Probe)
    → (admit crate limits st p).1 ≡ none
    → length st.ip_seen + length ps < max_entries
    → AllWithin p.now limits.per_ip ps
    → q.addr ≡ p.addr
    → q.now - p.now < limits.per_ip
    → (admit crate limits (run crate limits (admit crate limits st p).0 ps) q).1 ≢ none
admit-cooldown crate limits st p ps q ok room w same young =
    let n = length st.ip_seen in
    let (st3, kept, left) = admit-left crate limits st p ok in
    let here =
      dict_get-insert IpAddr-discrete p.addr p.addr p.now st3.ip_seen
      ∙ if_pos (IpAddr-discrete p.addr p.addr) refl (some p.now) _ in
    let fits : length st3.ip_seen ≤ n =
      omega (arith, ap (λ (l : List (IpAddr × ℕ)). length l) kept) in
    let first : Holds p.addr p.now (n + 1) (admit crate limits st p).0 =
      subst (Holds p.addr p.now (n + 1)) (sym left) (
        record_admission-Holds limits st3 p p.addr p.now n here (omega arith) fits (omega arith)) in
    let st' = run crate limits (admit crate limits st p).0 ps in
    let (found, _) =
      run-Holds crate limits p.addr p.now (n + 1) (admit crate limits st p).0 ps w (omega arith)
        first in
    admit-young crate limits st' q p.now
      (subst (λ a. dict_get IpAddr-discrete a st'.ip_seen ≡ some p.now) (sym same) found) young
