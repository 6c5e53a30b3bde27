-- ===== src/Cloudflare/Tests.antt =====
-- A concrete run of the override of src/cloudflare/state.rs.
use egressdns.Prelude.{List, [], true, ◌∷◌, ◌≤◌}
use egressdns.Policy.{CloudflareMode}
use egressdns.Cloudflare.{CloudflareConfig, configured_mode, effective_mode, mode, mode_rank, new}
use egressdns.Cloudflare.Weakens.{Call, overrides, reconfigures, run, run_weakens}

abbrev strong : CloudflareConfig
strong = record { enabled = true; mode = CloudflareMode.verified_augment }

abbrev calls : List Call
calls =
    overrides CloudflareMode.preserve
    ∷ reconfigures (record strong { mode = CloudflareMode.off })
    ∷ []

run_weakens_example :
    (mode_rank (mode (run (new strong) calls))
      ≤ mode_rank (configured_mode (run (new strong) calls)))
    × ((c : CloudflareMode) → mode_rank (effective_mode (run (new strong) calls) c) ≤ mode_rank c)
run_weakens_example = run_weakens strong calls
