-- ===== src/Guard.antt =====
-- src/probe/safety.rs: what may be dialled, how often. Hostnames are their bytes.
pub mod Admission
pub mod Safety
pub mod Window
pub mod Sweep
pub mod Cooldown
mod Tests
use egressdns.Prelude.{
  Bool, List, Option, [], false, get_or, if◌then◌else◌, leb, length, ltb, map, nanos_per_sec, none,
  not, some, sort, true, ℕ, ◌&&◌, ◌*◌, ◌-◌, ◌==◌, ◌^◌, ◌||◌, ◌∷◌,
}
use egressdns.Net.{IpAddr, v4, v6}
use egressdns.IpClass.{IpnetCrate, SpecialUse, classify}
use Prim.Native.Nat.{bit_and}

pub data Refusal : Type 0 where
  special_use port_not_allowed address_cooldown prefix_cooldown domain_cooldown rate_limited
        bandwidth_budget :
      Refusal

unfoldable pub is_cooldown : Refusal → Bool
is_cooldown Refusal.address_cooldown = true
is_cooldown Refusal.prefix_cooldown = true
is_cooldown Refusal.domain_cooldown = true
is_cooldown _ = false

-- `IpNet`: a network and its length.
pub data IpNet : Type 0 where
  net4 net6 : ℕ → ℕ → IpNet

-- `IpNet::contains`: a network holds addresses of its family only.
unfoldable pub net_contains : IpnetCrate → IpNet → IpAddr → Bool
net_contains crate (net4 net len) (v4 a) = crate.contains4 net len a
net_contains crate (net6 net len) (v6 a) = crate.contains6 net len a
net_contains crate _ _ = false

-- Durations are nanoseconds.
pub record GuardLimits : Type 0 where
  pub allow_special : List IpNet
  pub allowed_ports : List ℕ
  pub per_ip : ℕ
  pub per_prefix : ℕ
  pub per_domain : ℕ
  pub connections_per_second : ℕ
  pub daily_bandwidth : ℕ

-- The fields of `ProbeConfig` that the guard reads.
pub record ProbeConfig : Type 0 where
  pub extra_ports : List ℕ
  pub allow_special_use_targets : List IpNet
  pub per_ip_cooldown : ℕ
  pub per_prefix_cooldown : ℕ
  pub per_domain_cooldown : ℕ
  pub global_connections_per_second : ℕ
  pub daily_bandwidth_budget_bytes : ℕ

-- `Vec::dedup`, after a first element.
dedup_from : ℕ → List ℕ → List ℕ
dedup_from x [] = x ∷ []
dedup_from x (y ∷ ys) =
    let same = dedup_from x ys in let other = dedup_from y ys in if x == y then same else x ∷ other

unfoldable pub dedup : List ℕ → List ℕ
unfolding dedup_from
dedup [] = []
dedup (x ∷ xs) = dedup_from x xs

unfoldable pub from_config : ProbeConfig → GuardLimits
unfolding sort dedup
from_config cfg = record {
  allow_special = cfg.allow_special_use_targets;
  allowed_ports = dedup (sort leb cfg.extra_ports);
  per_ip = cfg.per_ip_cooldown;
  per_prefix = cfg.per_prefix_cooldown;
  per_domain = cfg.per_domain_cooldown;
  connections_per_second = cfg.global_connections_per_second;
  daily_bandwidth = cfg.daily_bandwidth_budget_bytes;
}

pub record GuardState : Type 0 where
  pub ip_seen : List (IpAddr × ℕ)
  pub prefix_seen : List ((IpAddr × ℕ) × ℕ)
  pub domain_seen : List ((List ℕ × IpAddr) × ℕ)
  pub window_start : Option ℕ
  pub window_count : ℕ
  pub bandwidth_day : Option ℕ
  pub bandwidth_used : ℕ
  pub last_prune : Option ℕ

abbrev pub new : GuardState
new = record {
  ip_seen = [];
  prefix_seen = [];
  domain_seen = [];
  window_start = none;
  window_count = 0;
  bandwidth_day = none;
  bandwidth_used = 0;
  last_prune = none;
}

-- The classes that no exception opens.
unfoldable pub is_forbidden : SpecialUse → Bool
is_forbidden SpecialUse.link_local = true
is_forbidden SpecialUse.cloud_metadata = true
is_forbidden SpecialUse.loopback = true
is_forbidden SpecialUse.multicast = true
is_forbidden SpecialUse.unspecified = true
is_forbidden _ = false

unfoldable pub any_net : IpnetCrate → List IpNet → IpAddr → Bool
any_net crate [] addr = false
any_net crate (n ∷ ns) addr = net_contains crate n addr || any_net crate ns addr

unfoldable pub has_port : ℕ → List ℕ → Bool
has_port port [] = false
has_port port (p ∷ ps) = p == port || has_port port ps

unfoldable pub address_allowed : IpnetCrate → GuardLimits → IpAddr → Bool
unfolding is_forbidden any_net
address_allowed crate limits addr = elim (classify crate addr) [
  | none ↦ true
  | some class ↦ if is_forbidden class then false else any_net crate limits.allow_special addr
]

unfoldable pub port_allowed : GuardLimits → ℕ → Bool → Bool
unfolding has_port
port_allowed limits port declared =
    not (port == 0) && (declared || has_port port limits.allowed_ports)

-- The mask of a /24, and of a /48.
unfoldable pub covering_prefix : IpAddr → IpAddr × ℕ
covering_prefix (v4 a) = (v4 (bit_and a 0xffffff00), 24)
covering_prefix (v6 a) = (v6 (bit_and a (2 ^ 128 - 2 ^ 80)), 48)

abbrev pub max_entries : ℕ
max_entries = 50000

abbrev pub sweep_interval : ℕ
sweep_interval = 30 * nanos_per_sec

-- `HashMap::retain` by age.
unfoldable pub retain_young : {K : Type 0} → ℕ → ℕ → List (K × ℕ) → List (K × ℕ)
retain_young now horizon [] = []
retain_young now horizon ((key, t) ∷ seen) =
    let rest = retain_young now horizon seen in
    if ltb (now - t) horizon then (key, t) ∷ rest else rest

unfoldable pub retain_from : {K : Type 0} → ℕ → List (K × ℕ) → List (K × ℕ)
retain_from cutoff [] = []
retain_from cutoff ((key, t) ∷ seen) =
    let rest = retain_from cutoff seen in if leb cutoff t then (key, t) ∷ rest else rest

unfoldable pub truncate_oldest : {K : Type 0} → List (K × ℕ) → ℕ → List (K × ℕ)
unfolding retain_from sort
truncate_oldest seen limit =
    if leb (length seen) limit
    then seen
    else let times = sort leb (map (λ e. e.1) seen) in
      retain_from (get_or times (length seen - limit) 0) seen

unfoldable pub prune_now : {K : Type 0} → ℕ → ℕ → List (K × ℕ) → List (K × ℕ)
unfolding retain_young truncate_oldest
prune_now now horizon seen = truncate_oldest (retain_young now horizon seen) max_entries

unfoldable pub is_sweep : GuardState → ℕ → Bool
is_sweep st now =
    elim st.last_prune [ none ↦ true | some last ↦ leb sweep_interval (now - last) ]
    || (ltb max_entries (length st.ip_seen)
        || (ltb max_entries (length st.prefix_seen) || ltb max_entries (length st.domain_seen)))

unfoldable pub prune : GuardState → ℕ → ℕ → GuardState
unfolding is_sweep prune_now
prune st now horizon = if not (is_sweep st now) then st else record st {
  last_prune = some now;
  ip_seen = prune_now now horizon st.ip_seen;
  prefix_seen = prune_now now horizon st.prefix_seen;
  domain_seen = prune_now now horizon st.domain_seen;
}
