-- ===== src/Cloudflare.antt =====
-- src/cloudflare/state.rs: the configured mode and its runtime override. The atomics are fields; a `u8` is a
-- number.
pub mod Weakens
mod Tests
use mathlib.Core.Option
use egressdns.Prelude.{Bool, Option, false, if◌then◌else◌, leb, ltb, none, some, true, ℕ, ◌+◌, ◌==◌}
use egressdns.Policy.{CloudflareMode}

-- The fields of `CloudflareConfig` that the state reads.
pub record CloudflareConfig : Type 0 where
  pub enabled : Bool
  pub mode : CloudflareMode

pub record CloudflareState : Type 0 where
  pub enabled : Bool
  pub mode_raw : ℕ
  pub override_raw : ℕ

unfoldable pub mode_rank : CloudflareMode → ℕ
mode_rank CloudflareMode.off = 0
mode_rank CloudflareMode.preserve = 1
mode_rank CloudflareMode.verified_augment = 2

unfoldable pub mode_to_u8 : CloudflareMode → ℕ
mode_to_u8 m = mode_rank m + 1

unfoldable pub mode_from_u8 : ℕ → Option CloudflareMode
mode_from_u8 raw =
    if raw == 1
    then some CloudflareMode.off
    else if raw == 2
    then some CloudflareMode.preserve
    else if raw == 3
    then some CloudflareMode.verified_augment
    else none

unfoldable pub new : CloudflareConfig → CloudflareState
new cfg = record { enabled = cfg.enabled; mode_raw = mode_to_u8 cfg.mode; override_raw = 0 }

unfoldable pub configured_mode : CloudflareState → CloudflareMode
configured_mode st = Option.get_or (mode_from_u8 st.mode_raw) CloudflareMode.off

unfoldable pub mode_override : CloudflareState → Option CloudflareMode
mode_override st = mode_from_u8 st.override_raw

unfoldable pub mode : CloudflareState → CloudflareMode
mode st = elim (mode_from_u8 st.override_raw) [ some m ↦ m | none ↦ configured_mode st ]

unfoldable pub reconfigure : CloudflareState → CloudflareConfig → CloudflareState
reconfigure st cfg =
    let stored = record st { enabled = cfg.enabled; mode_raw = mode_to_u8 cfg.mode } in
    elim (mode_override stored) [
      | none ↦ stored
      | some over ↦
          if ltb (mode_rank cfg.mode) (mode_rank over)
          then record stored { override_raw = 0 }
          else stored
    ]

unfoldable pub effective_mode : CloudflareState → CloudflareMode → CloudflareMode
effective_mode st configured = elim (mode_override st) [
  | some over ↦ if leb (mode_rank over) (mode_rank configured) then over else configured
  | none ↦ configured
]

-- The state, and whether the call succeeds.
unfoldable pub set_mode_override : CloudflareState → CloudflareMode → CloudflareState × Bool
set_mode_override st m =
    if ltb (mode_rank (configured_mode st)) (mode_rank m)
    then (st, false)
    else (record st { override_raw = mode_to_u8 m }, true)

unfoldable pub clear_mode_override : CloudflareState → CloudflareState
clear_mode_override st = record st { override_raw = 0 }
