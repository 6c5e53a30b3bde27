-- ===== src/Cloudflare/Weakens.antt =====
-- The override of src/cloudflare/state.rs only ever weakens the configured mode.
use egressdns.Prelude.{
  Bool, Bool-cases, List, Option-cases, [], arith, inl, inr, leb, leb→le, ltb, none, none≢some,
  refl, some, some-injective, subst, sym, ℕ, ◌∙◌, ◌∷◌, ◌≡◌, ◌≤◌,
}
use egressdns.Policy.{CloudflareMode}
use egressdns.Cloudflare.{
  CloudflareConfig, CloudflareState, clear_mode_override, configured_mode, effective_mode, mode,
  mode_from_u8, mode_override, mode_rank, mode_to_u8, new, reconfigure, set_mode_override,
}

-- The calls that change the state.
pub data Call : Type 0 where
  reconfigures : CloudflareConfig → Call
  overrides : CloudflareMode → Call
  clears : Call

unfoldable pub step : CloudflareState → Call → CloudflareState
unfolding reconfigure set_mode_override clear_mode_override
step st (reconfigures cfg) = reconfigure st cfg
step st (overrides m) = (set_mode_override st m).0
step st clears = clear_mode_override st

unfoldable pub run : CloudflareState → List Call → CloudflareState
unfolding step
run st [] = st
run st (c ∷ cs) = run (step st c) cs

mode_from_to : (m : CloudflareMode) → mode_from_u8 (mode_to_u8 m) ≡ some m
unfolding mode_from_u8 mode_to_u8 mode_rank
mode_from_to CloudflareMode.off = refl
mode_from_to CloudflareMode.preserve = refl
mode_from_to CloudflareMode.verified_augment = refl

-- An override is never stronger than the configured mode.
abbrev pub Weakens : CloudflareState → Type 0
Weakens st =
    (m : CloudflareMode) → mode_override st ≡ some m → mode_rank m ≤ mode_rank (configured_mode st)

cleared :
    (enabled : Bool) (raw : ℕ)
    → mode_override (record { enabled = enabled; mode_raw = raw; override_raw = 0 }) ≡ none
unfolding mode_override mode_from_u8
cleared enabled raw = refl

configured_new :
    (enabled : Bool) (raw : ℕ) (m : CloudflareMode)
    → configured_mode (record { enabled = enabled; mode_raw = mode_to_u8 m; override_raw = raw })
      ≡ m
unfolding configured_mode
configured_new enabled raw m = rw (mode_from_to m) refl

overridden :
    (st : CloudflareState) (m : CloudflareMode)
    → mode_rank m ≤ mode_rank (configured_mode st)
    → Weakens (record st { override_raw = mode_to_u8 m })
unfolding mode_override configured_mode
overridden st m le m' h =
    subst (λ x. mode_rank x ≤ mode_rank (configured_mode st))
      (some-injective (sym (mode_from_to m) ∙ h)) le

set_mode_override-Weakens :
    (st : CloudflareState) (m : CloudflareMode) → Weakens st → Weakens (set_mode_override st m).0
unfolding set_mode_override
set_mode_override-Weakens st m w =
    elim (Bool-cases (ltb (mode_rank (configured_mode st)) (mode_rank m))) [
      | inl refused ↦ rw refused w
      | inr ok ↦ rw ok (overridden st m (ground arith))
    ]

reconfigure-Weakens :
    (st : CloudflareState) (cfg : CloudflareConfig) → Weakens st → Weakens (reconfigure st cfg)
unfolding reconfigure
reconfigure-Weakens st cfg w =
    let stored : CloudflareState = record st {
      enabled = cfg.enabled;
      mode_raw = mode_to_u8 cfg.mode;
    } in
    let now = configured_new cfg.enabled st.override_raw cfg.mode in
    elim (Option-cases (mode_override stored)) [
      | inl e ↦ rw (e, reconfigure) (λ m h. absurd (none≢some (sym e ∙ h)))
      | inr (over, e) ↦ elim (Bool-cases (ltb (mode_rank cfg.mode) (mode_rank over))) [
        | inl stronger ↦
            rw (e, stronger, reconfigure)
              (λ m h. absurd (none≢some (sym (cleared cfg.enabled (mode_to_u8 cfg.mode)) ∙ h)))
        | inr weaker ↦
            let le : mode_rank over ≤ mode_rank cfg.mode = ground arith in
            rw (e, weaker, reconfigure)
              (λ m h.
                subst (λ c. mode_rank m ≤ mode_rank c) (sym now)
                  (subst (λ x. mode_rank x ≤ mode_rank cfg.mode) (some-injective (sym e ∙ h)) le))
      ]
    ]

step-Weakens : (st : CloudflareState) (c : Call) → Weakens st → Weakens (step st c)
unfolding step clear_mode_override
step-Weakens st clears w = λ m h. absurd (none≢some (sym (cleared st.enabled st.mode_raw) ∙ h))
step-Weakens st (overrides m) w = set_mode_override-Weakens st m w
step-Weakens st (reconfigures cfg) w = reconfigure-Weakens st cfg w

run-Weakens : (st : CloudflareState) (cs : List Call) → Weakens st → Weakens (run st cs)
unfolding run
run-Weakens st [] w = w
run-Weakens st (c ∷ cs) w = run-Weakens (step st c) cs (step-Weakens st c w)

-- The request path reads the override against its own configuration.
effective_mode-le :
    (st : CloudflareState) (configured : CloudflareMode)
    → mode_rank (effective_mode st configured) ≤ mode_rank configured
unfolding effective_mode
effective_mode-le st configured = elim (Option-cases (mode_override st)) [
  | inl e ↦ rw (e, effective_mode) (omega arith)
  | inr (over, e) ↦ elim (Bool-cases (leb (mode_rank over) (mode_rank configured))) [
    | inl ok ↦ rw (e, ok, effective_mode) (leb→le _ _ ok)
    | inr no_ok ↦ rw (e, no_ok, effective_mode) (omega arith)
  ]
]

-- Whatever is reconfigured, overridden and cleared after the start, in any order, the mode in force is
-- never stronger than the configured one; and for any mode that the request path reads from its own
-- configuration, the mode it uses is never stronger than that one.
pub run_weakens :
    (cfg : CloudflareConfig) (cs : List Call)
    → (mode_rank (mode (run (new cfg) cs)) ≤ mode_rank (configured_mode (run (new cfg) cs)))
      × ((c : CloudflareMode) → mode_rank (effective_mode (run (new cfg) cs) c) ≤ mode_rank c)
unfolding mode mode_override new
run_weakens cfg cs =
    let st = run (new cfg) cs in
    let start : Weakens (new cfg) =
      λ m h. absurd (none≢some (sym (cleared cfg.enabled (mode_to_u8 cfg.mode)) ∙ h)) in
    (
      elim (Option-cases (mode_from_u8 st.override_raw)) [
        | inl e ↦ rw (e, mode) (omega arith)
        | inr (m, e) ↦ rw (e, mode) (run-Weakens (new cfg) cs start m e)
      ],
      effective_mode-le st,
    )
