-- ===== src/Float.antt =====
-- The `f64` arithmetic of the daemon, as a parameter: a type of floats and the operations that the code
-- calls. Nothing is assumed of them. `ranking::unit_from_seed` stands below it.
pub mod Whole
use egressdns.Util.{fnv1a64, to_le_bytes}
use egressdns.Prelude.{Bool, not, ℕ, ◌&&◌, ◌/◌, ◌^◌}

pub record Floats : Type 1 where
  pub F : Type 0
  -- `lit n d` is the literal n / d.
  pub lit : ℕ → ℕ → F
  pub of_ℕ : ℕ → F
  pub add : F → F → F
  pub sub : F → F → F
  pub mul : F → F → F
  pub div : F → F → F
  pub pow : F → F → F
  pub powi : F → ℕ → F
  pub abs : F → F
  pub sqrt : F → F
  -- `a <= b` and `a == b`.
  pub le : F → F → Bool
  pub eq : F → F → Bool
  -- `as f32` followed by the widening that a later read makes.
  pub as_f32 : F → F
  -- `total_cmp` is not `Greater`.
  pub total_le : F → F → Bool
  pub ceil_usize : F → ℕ
  -- `round().max(1.0) as u64`.
  pub round_u64 : F → ℕ
  -- `Duration::as_secs_f64` and `Duration::mul_f64`.
  pub as_secs_f64 : ℕ → F
  pub mul_f64 : ℕ → F → ℕ
  -- `f64::clamp(lo, hi)`.
  pub clamp : F → F → F → F
  -- `f64::max`, `f64::min`, `f64::INFINITY`, `is_finite` and `as u32`.
  pub fmax : F → F → F
  pub fmin : F → F → F
  pub infinity : F
  pub is_finite : F → Bool
  pub as_u32 : F → ℕ

-- `a < b`.
unfoldable pub lt : (fl : Floats) → fl.F → fl.F → Bool
lt fl a b = fl.le a b && not (fl.eq a b)

-- A number in [0, 1) from a seed: the top 53 bits of its hash.
unfoldable pub unit_from_seed : (fl : Floats) → ℕ → fl.F
unit_from_seed fl seed =
    let mixed = fnv1a64 (to_le_bytes 8 seed) in fl.div (fl.of_ℕ (mixed / 2 ^ 11)) (fl.of_ℕ (2 ^ 53))
