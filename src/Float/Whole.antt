-- ===== src/Float/Whole.antt =====
-- Whole numbers in the place of floats, for concrete runs.
use egressdns.Prelude.{leb, ltb, max, min, nanos_per_sec, ℕ, ◌*◌, ◌+◌, ◌-◌, ◌/◌, ◌==◌, ◌^◌}
use egressdns.Float.{Floats}

abbrev pub whole : Floats
whole = record {
  F = ℕ;
  lit = λ n d. n / d;
  of_ℕ = λ n. n;
  add = λ a b. a + b;
  sub = λ a b. a - b;
  mul = λ a b. a * b;
  div = λ a b. a / b;
  pow = λ a b. a ^ b;
  powi = λ a n. a ^ n;
  abs = λ a. a;
  sqrt = λ a. a;
  le = leb;
  eq = λ a b. a == b;
  as_f32 = λ a. a;
  total_le = leb;
  ceil_usize = λ a. a;
  round_u64 = λ a. max a 1;
  as_secs_f64 = λ d. d / nanos_per_sec;
  mul_f64 = λ d a. d * a;
  clamp = λ a lo hi. max lo (min a hi);
  fmax = max;
  fmin = min;
  infinity = 2 ^ 60;
  is_finite = λ a. ltb a (2 ^ 60);
  as_u32 = λ a. a;
}
