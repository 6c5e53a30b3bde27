-- ===== src/Upstream/Hedge.antt =====
-- `HedgeBudget` of src/upstream/scheduler.rs: how often a group has hedged.
use egressdns.Prelude.{Bool, false, if◌then◌else◌, max, true, ℕ, ◌%◌, ◌+◌, ◌^◌}
use egressdns.Float.{Floats, lt}

pub record HedgeBudget : Type 0 where
  pub queries : ℕ
  pub hedges : ℕ

-- `fetch_add` wraps.
unfoldable pub record_query : HedgeBudget → HedgeBudget
record_query b = record b { queries = (b.queries + 1) % 2 ^ 64 }

unfoldable pub record_hedge : HedgeBudget → HedgeBudget
record_hedge b = record b { hedges = (b.hedges + 1) % 2 ^ 64 }

unfoldable pub rate : (fl : Floats) → HedgeBudget → fl.F
rate fl b = fl.div (fl.of_ℕ b.hedges) (fl.of_ℕ (max b.queries 1))

unfoldable pub allows : (fl : Floats) → HedgeBudget → fl.F → Bool
unfolding lt rate
allows fl b fraction =
    if fl.le fraction (fl.lit 0 1)
    then false
    else if fl.le (fl.lit 1 1) fraction
    then true
    else lt fl (rate fl b) fraction
