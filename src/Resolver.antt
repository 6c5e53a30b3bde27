-- ===== src/Resolver.antt =====
-- src/dns/resolver.rs: what the resolver makes of a failure (`ResolveError` of src/error.rs), and the table
-- of refresh attempts. Texts are bytes; the decimal form of a number is a parameter.
pub mod Stale
pub mod Misses
pub mod Refreshes
pub mod Waiters
pub mod Remember
mod Tests
use egressdns.Prelude.{Bool, List, false, not, true, ℕ, ◌++◌}
use egressdns.Flight.{FlightError, leader_gone, failed, transient}
use egressdns.SpecialUse.{bytes}

pub data ResolveError : Type 0 where
  no_route : List ℕ → ResolveError
  all_failed : List ℕ → ResolveError
  timeout : ℕ → ResolveError
  invalid_response : List ℕ → ResolveError
  dnssec_bogus : ResolveError
  proof_incomplete : List ℕ → ResolveError
  shutting_down : ResolveError
  overloaded : ℕ → ResolveError

unfoldable pub is_transient : ResolveError → Bool
is_transient (proof_incomplete outcome) = true
is_transient _ = false

-- The `Display` of the errors.
unfoldable pub describe : (ℕ → List ℕ) → ResolveError → List ℕ
describe digits (no_route group) =
    bytes "no upstream route available in group `" ++ (group ++ bytes "`")
describe digits (all_failed detail) = bytes "all upstreams failed: " ++ detail
describe digits (timeout elapsed_ms) =
    bytes "foreground budget exceeded after " ++ (digits elapsed_ms ++ bytes " ms")
describe digits (invalid_response reason) = bytes "upstream response rejected: " ++ reason
describe digits dnssec_bogus = bytes "DNSSEC validation failed (bogus)"
describe digits (proof_incomplete outcome) =
    bytes "DNSSEC proof could not be completed (" ++ (outcome ++ bytes ")")
describe digits shutting_down = bytes "resolver shutting down"
describe digits (overloaded limit) =
    bytes "upstream concurrency ceiling reached (" ++ (digits limit ++ bytes " permits configured)")

-- `FlightError::detail`.
unfoldable pub flight_detail : FlightError → List ℕ
flight_detail leader_gone = bytes "the leading query was cancelled"
flight_detail (failed reason) = reason
flight_detail (transient reason) = reason

pub data ExtendedError : Type 0 where
  other stale_answer forged_answer dnssec_indeterminate bogus signature_expired
        signature_not_yet_valid nsec_missing not_ready blocked prohibited stale_nxdomain
        no_reachable_authority network_error :
      ExtendedError

unfoldable pub code : ExtendedError → ℕ
code other = 0
code stale_answer = 3
code forged_answer = 4
code dnssec_indeterminate = 5
code bogus = 6
code signature_expired = 7
code signature_not_yet_valid = 8
code nsec_missing = 12
code not_ready = 14
code blocked = 15
code prohibited = 18
code stale_nxdomain = 19
code no_reachable_authority = 22
code network_error = 23

pub record FailureReport : Type 0 where
  pub detail : List ℕ
  pub remember : Bool
  pub ede : ExtendedError

unfoldable pub report_code : ResolveError → ExtendedError
report_code dnssec_bogus = bogus
report_code _ = no_reachable_authority

unfoldable pub from_error : (ℕ → List ℕ) → ResolveError → FailureReport
unfolding report_code
from_error digits e = record {
  detail = describe digits e;
  remember = not (is_transient e);
  ede = report_code e;
}

-- `FailureReport::upstream`.
unfoldable pub upstream : List ℕ → FailureReport
upstream detail = record { detail = detail; remember = true; ede = no_reachable_authority }

-- `Result`.
pub data Result (V E : Type 0) : Type 0 where
  ok : V → Result V E
  err : E → Result V E
