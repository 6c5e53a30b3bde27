-- ===== src/Guard/Window.antt =====
-- The connection rate of src/probe/safety.rs, over runs of admissions.
use egressdns.Guard.Safety.{cooldown_gate-keeps}
use egressdns.Prelude.{
  Bool-cases, List, Option, [], ap, arith, false, inl, inr, leb, max, nanos_per_sec, none,
  none≢some, refl, some, subst, sym, ℕ, ◌*◌, ◌+◌, ◌-◌, ◌<◌, ◌∙◌, ◌∷◌, ◌≡◌, ◌≤◌, ◌⊎◌,
}
use egressdns.IpClass.{IpnetCrate}
use egressdns.Guard.{
  GuardLimits, GuardState, Refusal, address_allowed, port_allowed, prune, special_use,
  port_not_allowed, is_sweep,
}
use egressdns.Guard.Admission.{
  Probe, admit, admit_locked, and_then, bandwidth_gate, cooldown_gate, elapsed, open_window,
  rate_gate, record_admission, recorded,
}

-- The number of calls of a run that are admitted.
unfoldable pub admitted : IpnetCrate → GuardLimits → GuardState → List Probe → ℕ
admitted crate limits st [] = 0
admitted crate limits st (p ∷ ps) =
    let (st', refusal) = admit crate limits st p in
    let later = admitted crate limits st' ps in elim refusal [ none ↦ later + 1 | some r ↦ later ]

-- A sweep keeps the window.
prune-window :
    (st : GuardState) (now horizon : ℕ)
    → ((prune st now horizon).window_start ≡ st.window_start)
      × ((prune st now horizon).window_count ≡ st.window_count)
unfolding prune
prune-window st now horizon = elim (Bool-cases (is_sweep st now)) [
  | inl e ↦ rw e (refl, refl)
  | inr e ↦ rw e (refl, refl)
]

module _ (limits : GuardLimits) (start c : ℕ) where
  -- The window that began at `start`, with `c` admissions.
  abbrev InWindow : GuardState → Type 0
  InWindow st = (st.window_start ≡ some start) × (st.window_count ≡ c)

  -- What a call in the window leaves: an admission more, where there was room, or the same count.
  abbrev Outcome : GuardState × Option Refusal → Type 0
  Outcome (st, refusal) =
      ((refusal ≡ none)
        × (st.window_start ≡ some start)
        × (st.window_count ≡ c + 1)
        × (c < limits.connections_per_second))
      ⊎ (((r : Refusal) × (refusal ≡ some r)) × InWindow st)

  and_then-Outcome :
      (step : GuardState × Option Refusal) (next : GuardState → GuardState × Option Refusal)
      → InWindow step.0
      → (step.1 ≡ none → Outcome (next step.0))
      → Outcome (and_then step next)
  unfolding and_then
  and_then-Outcome (st, some r) next q k = inr ((r, refl), q)
  and_then-Outcome (st, none) next q k = k refl

  bandwidth_gate-InWindow :
      (st : GuardState) (now : ℕ) → InWindow st → InWindow (bandwidth_gate limits st now).0
  unfolding bandwidth_gate
  bandwidth_gate-InWindow st now q =
      elim (Bool-cases (leb limits.daily_bandwidth st.bandwidth_used)) [
        | inr e ↦ rw e q
        | inl e ↦ elim (Bool-cases (elapsed now st.bandwidth_day (86400 * nanos_per_sec))) [
          | inl e2 ↦ rw (e, e2) q
          | inr e2 ↦ rw (e, e2) q
        ]
      ]

  open_window-keeps :
      (st : GuardState) (now : ℕ)
      → now - start < nanos_per_sec
      → st.window_start ≡ some start
      → open_window st now ≡ st
  unfolding open_window elapsed
  open_window-keeps st now inside began =
      let not_yet : leb nanos_per_sec (now - start) ≡ false = ground arith in
      let waits : elapsed now st.window_start nanos_per_sec ≡ false =
        subst (λ w. elapsed now w nanos_per_sec ≡ false) (sym began) not_yet in
      rw waits refl

  rate_gate-InWindow :
      (st : GuardState) (now : ℕ)
      → now - start < nanos_per_sec
      → InWindow st
      → InWindow (rate_gate limits st now).0
        × ((rate_gate limits st now).1 ≡ none → c < limits.connections_per_second)
  unfolding rate_gate
  rate_gate-InWindow st now inside (began, count) =
      let kept = open_window-keeps st now inside began in
      elim (Bool-cases (leb limits.connections_per_second st.window_count)) [
        | inl e ↦ rw (kept, e) ((began, count), λ h. absurd (none≢some (sym h)))
        | inr e ↦ rw (kept, e) ((began, count), λ h. ground (arith, count, e))
      ]

  record_admission-window :
      (st : GuardState) (p : Probe)
      → ((record_admission limits st p).window_start ≡ st.window_start)
        × ((record_admission limits st p).window_count ≡ st.window_count + 1)
  unfolding record_admission
  record_admission-window st p =
      prune-window (recorded st p) p.now (max limits.per_ip limits.per_domain)

  admit_locked-Outcome :
      (st : GuardState) (p : Probe)
      → p.now - start < nanos_per_sec
      → InWindow st
      → Outcome (admit_locked limits st p)
  unfolding admit_locked
  admit_locked-Outcome st p inside q =
      and_then-Outcome (bandwidth_gate limits st p.now) _ (bandwidth_gate-InWindow st p.now q) λ h1.
        let st1 = (bandwidth_gate limits st p.now).0 in
        let (q1, room) = rate_gate-InWindow st1 p.now inside (bandwidth_gate-InWindow st p.now q) in
        and_then-Outcome (rate_gate limits st1 p.now) _ q1 λ h2.
          let st2 = (rate_gate limits st1 p.now).0 in
          let same = cooldown_gate-keeps limits st2 p in
          let (began, count) = subst InWindow (sym same) q1 in
          let (began', count') = record_admission-window (cooldown_gate limits st2 p).0 p in
          and_then-Outcome (cooldown_gate limits st2 p) _ (began, count)
            λ h3. inl (refl, began' ∙ began, count' ∙ ap (λ n. n + 1) count, room h2)

  admit-Outcome :
      (crate : IpnetCrate) (st : GuardState) (p : Probe)
      → p.now - start < nanos_per_sec
      → InWindow st
      → Outcome (admit crate limits st p)
  unfolding admit
  admit-Outcome crate st p inside q = elim (Bool-cases (address_allowed crate limits p.addr)) [
    | inr e ↦ rw e (inr ((special_use, refl), q))
    | inl e ↦ elim (Bool-cases (port_allowed limits p.port p.declared_port)) [
      | inr e2 ↦ rw (e, e2) (inr ((port_not_allowed, refl), q))
      | inl e2 ↦ rw (e, e2) (admit_locked-Outcome st p inside q)
    ]
  ]

-- All calls come in the second after `start`.
abbrev pub AllInside : ℕ → List Probe → Type 0
AllInside start [] = Unit
AllInside start (p ∷ ps) = (p.now - start < nanos_per_sec) × AllInside start ps

-- Of any calls in the second after a window was opened, whatever they ask for, no more are admitted than
-- the configured connections per second less those that the window counts already.
pub admitted-le :
    (crate : IpnetCrate) (limits : GuardLimits) (st : GuardState) (start : ℕ) (ps : List Probe)
    → st.window_start ≡ some start
    → AllInside start ps
    → admitted crate limits st ps ≤ limits.connections_per_second - st.window_count
unfolding admitted
admitted-le crate limits st start [] began inside = omega arith
admitted-le crate limits st start (p ∷ ps) began (here, inside) =
    let st' = (admit crate limits st p).0 in
    elim (admit-Outcome limits start st.window_count crate st p here (began, refl)) [
      | inl (ok, began', count, room) ↦
          rw (ok, admitted)
            (omega (arith, admitted-le crate limits st' start ps began' inside, count, room))
      | inr ((r, refused), (began', count)) ↦
          rw (refused, admitted)
            (omega (arith, admitted-le crate limits st' start ps began' inside, count))
    ]
