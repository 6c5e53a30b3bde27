-- ===== src/Guard/Tests.antt =====
-- Concrete admissions of src/probe/safety.rs.
use egressdns.Prelude.{
  [], arith, dict_get, false, nanos_per_sec, none, refl, some, true, ℕ, ◌*◌, ◌-◌, ◌/◌, ◌==◌, ◌^◌,
  ◌∷◌, ◌≡◌, ◌≢◌, ◌≤◌, ◌⊎◌,
}
use egressdns.Net.{v4}
use egressdns.IpClass.{IpnetCrate, SpecialUse, classify, classify_v4}
use egressdns.Guard.{
  GuardLimits, any_net, has_port, is_forbidden, new, address_allowed, port_allowed,
}
use egressdns.Guard.Admission.{
  Probe, admit, admit_locked, and_then, bandwidth_gate, rate_gate, cooldown_gate,
}
use egressdns.Guard.Safety.{admit_safe}
use egressdns.Guard.Window.{admitted, admitted-le}
use egressdns.Guard.Cooldown.{admit-cooldown, run}

abbrev by_prefix : IpnetCrate
by_prefix = record {
  contains4 = λ net len addr. addr / 2 ^ (32 - len) == net / 2 ^ (32 - len);
  contains6 = λ net len addr. addr / 2 ^ (128 - len) == net / 2 ^ (128 - len);
}

abbrev limits : GuardLimits
limits = record {
  allow_special = [];
  allowed_ports = 443 ∷ [];
  per_ip = 300 * nanos_per_sec;
  per_prefix = 30 * nanos_per_sec;
  per_domain = 600 * nanos_per_sec;
  connections_per_second = 2;
  daily_bandwidth = 1000000;
}

abbrev probe_at : ℕ → Probe
probe_at now = record {
  addr = v4 0x68100001;
  port = 443;
  declared_port = false;
  hostname = none;
  now = now;
}

is_admitted : (admit by_prefix limits new (probe_at 5)).1 ≡ none
unfolding admit address_allowed classify classify_v4 port_allowed admit_locked and_then
    bandwidth_gate rate_gate cooldown_gate dict_get
is_admitted = refl

admit_safe_example :
    ((probe_at 5).port ≢ 0)
    × ((false ≡ true) ⊎ (has_port 443 limits.allowed_ports ≡ true))
    × ((classify by_prefix (v4 0x68100001) ≡ none)
        ⊎ ((class : SpecialUse) × (classify by_prefix (v4 0x68100001) ≡ some class)
            × (is_forbidden class ≡ false)
            × (any_net by_prefix limits.allow_special (v4 0x68100001) ≡ true)))
admit_safe_example = admit_safe by_prefix limits new (probe_at 5) is_admitted

admitted-le_example :
    admitted by_prefix limits
      (record new { window_start = some 3; window_count = 1 })
      (probe_at 5 ∷ probe_at 6 ∷ [])
    ≤ 2 - 1
admitted-le_example =
    admitted-le by_prefix limits (record new { window_start = some 3; window_count = 1 }) 3
      (probe_at 5 ∷ probe_at 6 ∷ []) refl (omega arith, (omega arith, tt))

abbrev elsewhere : Probe
elsewhere = record (probe_at 7) { addr = v4 0x68200001 }

admit-cooldown_example :
    (admit by_prefix limits
      (run by_prefix limits
        (admit by_prefix limits new (probe_at 5)).0
        (probe_at 6 ∷ elsewhere ∷ []))
      (probe_at 9)).1
    ≢ none
admit-cooldown_example =
    admit-cooldown by_prefix limits new (probe_at 5) (probe_at 6 ∷ elsewhere ∷ []) (probe_at 9)
      is_admitted (omega arith) (omega arith, (omega arith, tt)) refl (omega arith)
