-- ===== src/Guard/Admission.antt =====
-- The admission check of src/probe/safety.rs, gate by gate, and the daily budget.
use egressdns.Prelude.{
  Bool, List, Option, dict_get, dict_insert, false, if◌then◌else◌, leb, length, ltb, max, min,
  nanos_per_sec, none, not, some, true, ℕ, ℕ_discrete, ◌*◌, ◌+◌, ◌-◌, ◌^◌,
}
use egressdns.Net.{IpAddr, IpAddr-discrete}
use egressdns.IpClass.{IpnetCrate}
use egressdns.Guard.{
  GuardLimits, GuardState, Refusal, address_allowed, address_cooldown, bandwidth_budget,
  covering_prefix, domain_cooldown, port_allowed, port_not_allowed, prefix_cooldown, prune,
  rate_limited, special_use,
}

unfoldable pub prefix_discrete : Discrete (IpAddr × ℕ)
prefix_discrete = hlevel (IpAddr-discrete, ℕ_discrete)

unfoldable pub domain_discrete : Discrete (List ℕ × IpAddr)
domain_discrete = hlevel (IpAddr-discrete, ℕ_discrete)

-- One call.
pub record Probe : Type 0 where
  pub addr : IpAddr
  pub port : ℕ
  pub declared_port : Bool
  pub hostname : Option (List ℕ)
  pub now : ℕ

-- A step that may refuse, and what follows when it does not.
unfoldable pub and_then :
    GuardState × Option Refusal
    → (GuardState → GuardState × Option Refusal)
    → GuardState × Option Refusal
and_then (st, some refusal) next = (st, some refusal)
and_then (st, none) next = next st

-- Nothing was recorded, or it is at least so long ago.
unfoldable pub elapsed : ℕ → Option ℕ → ℕ → Bool
elapsed now none duration = true
elapsed now (some start) duration = leb duration (now - start)

abbrev pub day : ℕ
day = 86400 * nanos_per_sec

unfoldable pub bandwidth_gate : GuardLimits → GuardState → ℕ → GuardState × Option Refusal
unfolding elapsed
bandwidth_gate limits st now =
    if leb limits.daily_bandwidth st.bandwidth_used
    then if elapsed now st.bandwidth_day day
      then (record st { bandwidth_day = some now; bandwidth_used = 0 }, none)
      else (st, some bandwidth_budget)
    else (st, none)

unfoldable pub open_window : GuardState → ℕ → GuardState
unfolding elapsed
open_window st now =
    if elapsed now st.window_start nanos_per_sec
    then record st { window_start = some now; window_count = 0 }
    else st

unfoldable pub rate_gate : GuardLimits → GuardState → ℕ → GuardState × Option Refusal
unfolding open_window
rate_gate limits st now =
    let opened = open_window st now in
    if leb limits.connections_per_second opened.window_count
    then (opened, some rate_limited)
    else (opened, none)

-- The entry is still inside the cooldown.
unfoldable pub cools : ℕ → Option ℕ → ℕ → Bool
cools now none cooldown = false
cools now (some last) cooldown = ltb (now - last) cooldown

unfoldable pub domain_cools : GuardLimits → GuardState → Probe → Bool
unfolding cools
domain_cools limits st p = elim p.hostname [
  | none ↦ false
  | some host ↦
      cools p.now (dict_get domain_discrete (host, p.addr) st.domain_seen) limits.per_domain
]

unfoldable pub cooldown_gate : GuardLimits → GuardState → Probe → GuardState × Option Refusal
unfolding cools covering_prefix domain_cools
cooldown_gate limits st p =
    if cools p.now (dict_get IpAddr-discrete p.addr st.ip_seen) limits.per_ip
    then (st, some address_cooldown)
    else if cools p.now (dict_get prefix_discrete (covering_prefix p.addr) st.prefix_seen)
        limits.per_prefix
    then (st, some prefix_cooldown)
    else if domain_cools limits st p
    then (st, some domain_cooldown)
    else (st, none)

-- The entries of an admission.
unfoldable pub recorded : GuardState → Probe → GuardState
unfolding covering_prefix
recorded st p = record st {
  window_count = st.window_count + 1;
  ip_seen = dict_insert IpAddr-discrete p.addr p.now st.ip_seen;
  prefix_seen = dict_insert prefix_discrete (covering_prefix p.addr) p.now st.prefix_seen;
  domain_seen = elim p.hostname [
    | none ↦ st.domain_seen
    | some host ↦ dict_insert domain_discrete (host, p.addr) p.now st.domain_seen
  ];
}

unfoldable pub record_admission : GuardLimits → GuardState → Probe → GuardState
unfolding recorded
record_admission limits st p = prune (recorded st p) p.now (max limits.per_ip limits.per_domain)

-- The checks under the lock.
unfoldable pub admit_locked : GuardLimits → GuardState → Probe → GuardState × Option Refusal
admit_locked limits st p = and_then (bandwidth_gate limits st p.now) λ st1.
    and_then (rate_gate limits st1 p.now)
      λ st2. and_then (cooldown_gate limits st2 p) λ st3. (record_admission limits st3 p, none)

-- The result is the refusal, if any.
unfoldable pub admit : IpnetCrate → GuardLimits → GuardState → Probe → GuardState × Option Refusal
admit crate limits st p =
    if not (address_allowed crate limits p.addr)
    then (st, some special_use)
    else if not (port_allowed limits p.port p.declared_port)
    then (st, some port_not_allowed)
    else admit_locked limits st p

-- The state, and the budget that remains. The budget counts at 64 bits.
unfoldable pub consume_bandwidth : GuardLimits → GuardState → ℕ → ℕ → GuardState × ℕ
unfolding elapsed
consume_bandwidth limits st bytes now =
    let opened =
      if elapsed now st.bandwidth_day day
      then record st { bandwidth_day = some now; bandwidth_used = 0 }
      else st in
    let used = min (opened.bandwidth_used + bytes) (2 ^ 64 - 1) in
    (record opened { bandwidth_used = used }, limits.daily_bandwidth - used)

unfoldable pub tracked : GuardState → ℕ
tracked st = length st.ip_seen + length st.prefix_seen + length st.domain_seen
