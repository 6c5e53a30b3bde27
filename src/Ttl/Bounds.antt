-- ===== src/Ttl/Bounds.antt =====
-- The bounds on the TTL of src/policy/ttl.rs.
use egressdns.Prelude.{arith, false, some, true, ℕ, ◌≡◌, ◌≤◌, ◌⊎◌}
use egressdns.Ttl.{
  TtlConfig, TtlReason, serve_stale, network_change, cloudflare_augment, cloudflare_preserve,
  optimized_multi, default, TtlInputs, choose_cap, effective_client_ttl,
}

-- The cap that goes with a reason.
abbrev pub cap_of : TtlConfig → TtlReason → ℕ
cap_of cfg serve_stale = cfg.cap_serve_stale
cap_of cfg network_change = cfg.cap_network_change
cap_of cfg cloudflare_augment = cfg.cap_cloudflare_augment
cap_of cfg cloudflare_preserve = cfg.cap_cloudflare_preserve
cap_of cfg optimized_multi = cfg.cap_optimized_multi
cap_of cfg default = cfg.cap_default

-- What a reason claims about the inputs.
abbrev pub Applies : TtlInputs → TtlReason → Type 0
Applies i serve_stale = i.is_stale ≡ true
Applies i network_change = i.recent_network_change ≡ true
Applies i cloudflare_augment = i.cloudflare_augmented ≡ true
Applies i cloudflare_preserve = i.cloudflare_preserved ≡ true
Applies i optimized_multi = i.optimized_multi ≡ true
Applies i default =
    (i.is_stale ≡ false)
    × (i.cloudflare_augmented ≡ false)
    × (i.recent_network_change ≡ false)
    × (i.cloudflare_preserved ≡ false)
    × (i.optimized_multi ≡ false)

-- `n` is below every bound that is in force, and no smaller than it has to be.
pub record IsTightest (cfg : TtlConfig) (i : TtlInputs) (reason : TtlReason) (n : ℕ) : Type 0 where
  pub authoritative : n ≤ i.remaining_authoritative
  pub signature : (s : ℕ) → i.remaining_signature ≡ some s → n ≤ s
  pub capped : n ≤ cap_of cfg reason
  pub changed : i.recent_network_change ≡ true → n ≤ cfg.cap_network_change
  pub reached :
      (n ≡ i.remaining_authoritative)
      ⊎ (i.remaining_signature ≡ some n)
      ⊎ (n ≡ cap_of cfg reason)
      ⊎ ((i.recent_network_change ≡ true) × (n ≡ cfg.cap_network_change))

choose_cap-cap_of :
    (cfg : TtlConfig) (i : TtlInputs) → (choose_cap cfg i).0 ≡ cap_of cfg (choose_cap cfg i).1
unfolding choose_cap
choose_cap-cap_of cfg i = ground arith

choose_cap-Applies : (cfg : TtlConfig) (i : TtlInputs) → Applies i (choose_cap cfg i).1
unfolding choose_cap
choose_cap-Applies cfg i = ground arith

effective_client_ttl-Applies :
    (cfg : TtlConfig) (i : TtlInputs) → Applies i (effective_client_ttl cfg i).1
unfolding effective_client_ttl
effective_client_ttl-Applies cfg i = choose_cap-Applies cfg i

module _ (cfg : TtlConfig) (i : TtlInputs) where
  ttl-signature : (s : ℕ) → i.remaining_signature ≡ some s → (effective_client_ttl cfg i).0 ≤ s
  unfolding effective_client_ttl
  ttl-signature s h = rw (h, effective_client_ttl) (omega arith)

  ttl_bounds :
      let (ttl, reason) = effective_client_ttl cfg i in
      (ttl ≤ i.remaining_authoritative)
      × (ttl ≤ cap_of cfg reason)
      × (i.recent_network_change ≡ true → ttl ≤ cfg.cap_network_change)
  unfolding effective_client_ttl
  ttl_bounds = ground (arith, choose_cap-cap_of cfg i)

  ttl_reached :
      let (ttl, reason) = effective_client_ttl cfg i in
      (ttl ≡ i.remaining_authoritative)
      ⊎ (i.remaining_signature ≡ some ttl)
      ⊎ (ttl ≡ cap_of cfg reason)
      ⊎ ((i.recent_network_change ≡ true) × (ttl ≡ cfg.cap_network_change))
  unfolding effective_client_ttl
  ttl_reached = ground (arith, choose_cap-cap_of cfg i)

-- The client's TTL is the tightest of the bounds in force: the remaining authoritative TTL, the
-- remaining signature life of a signed answer, the cap of the reason, and after a recent network
-- change that cap too. It is never more than any of them and equals one. The reason applies to the
-- inputs.
pub effective_client_ttl-IsTightest :
    (cfg : TtlConfig) (i : TtlInputs)
    → let (ttl, reason) = effective_client_ttl cfg i in
      IsTightest cfg i reason ttl × Applies i reason
effective_client_ttl-IsTightest cfg i =
    let (authoritative, capped, changed) = ttl_bounds cfg i in
    (
      record {
        authoritative = authoritative;
        signature = ttl-signature cfg i;
        capped = capped;
        changed = changed;
        reached = ttl_reached cfg i;
      },
      effective_client_ttl-Applies cfg i,
    )
