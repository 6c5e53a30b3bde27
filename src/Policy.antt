-- ===== src/Policy.antt =====
-- src/policy/: what may be done to the answer of an upstream. This file models src/policy/cloudflare.rs,
-- which says whether Cloudflare's addresses may be reordered or added to.
pub mod Answer
pub mod Apply
pub mod Reorder
pub mod Groups
pub mod Loops
pub mod Covers
pub mod Eligible
pub mod Permitted
pub mod Steps
pub mod Refines
pub mod Positions
pub mod Domains
pub mod Excluded
pub mod Corroborate
pub mod Suffix
pub mod Terminal
pub mod Compatible
mod Tests
pub mod Choose
use egressdns.Prelude.{
  Bool, List, Option, [], false, if◌then◌else◌, none, not, some, true, ℕ, ◌&&◌, ◌++◌, ◌==◌, ◌||◌,
  ◌∷◌,
}
use egressdns.Net.{IpAddr}
use egressdns.Cache.Entry.{DnssecStatus}
use egressdns.Prefixes.{PrefixSnapshot, contains}
use egressdns.Message.{Hickory, Message, Record, https_data, svcb_data, type_a, type_aaaa}

pub data CloudflareMode : Type 0 where
  off preserve verified_augment : CloudflareMode

pub data Eligibility : Type 0 where
  off preserve augment : Eligibility

pub data FallbackReason : Type 0 where
  disabled not_cloudflare record_type domain_excluded dnssec_secure dnssec_unknown ech_unvalidatable
        no_baseline no_verified_candidate complex_answer mode_is_preserve :
      FallbackReason

pub record EligibilityInputs : Type 0 where
  pub mode : CloudflareMode
  pub enabled : Bool
  pub qtype : ℕ
  pub dnssec : DnssecStatus
  pub snapshot : Option PrefixSnapshot
  pub original : List IpAddr
  pub single_rrset : Bool
  pub excluded : Bool
  pub publishes_ech : Bool
  pub can_validate_ech : Bool
  pub baseline_validated : Bool
  pub has_verified_candidate : Bool

unfoldable pub is_off : CloudflareMode → Bool
is_off CloudflareMode.off = true
is_off _ = false

unfoldable pub is_eligibility_off : Eligibility → Bool
is_eligibility_off Eligibility.off = true
is_eligibility_off _ = false

unfoldable pub is_preserve : CloudflareMode → Bool
is_preserve CloudflareMode.preserve = true
is_preserve _ = false

unfoldable pub any_contained : PrefixSnapshot → List IpAddr → Bool
any_contained s [] = false
any_contained s (a ∷ rest) = contains s a || any_contained s rest

-- The match on the DNSSEC status.
unfoldable pub dnssec_fallback : DnssecStatus → Option FallbackReason
dnssec_fallback DnssecStatus.secure = some dnssec_secure
dnssec_fallback DnssecStatus.indeterminate = some dnssec_unknown
dnssec_fallback DnssecStatus.bogus = some dnssec_unknown
dnssec_fallback DnssecStatus.insecure = none

-- The conditions of the verified-augment mode.
unfoldable pub evaluate_augment : EligibilityInputs → Eligibility × Option FallbackReason
unfolding dnssec_fallback
evaluate_augment i =
    if not i.single_rrset
    then (preserve, some complex_answer)
    else elim (dnssec_fallback i.dnssec) [
      | some reason ↦ (preserve, some reason)
      | none ↦
          if i.publishes_ech && not i.can_validate_ech
          then (preserve, some ech_unvalidatable)
          else if not i.baseline_validated
          then (preserve, some no_baseline)
          else if not i.has_verified_candidate
          then (preserve, some no_verified_candidate)
          else (augment, none)
    ]

unfoldable pub evaluate : EligibilityInputs → Eligibility × Option FallbackReason
unfolding is_off is_preserve any_contained evaluate_augment
evaluate i =
    if not i.enabled || is_off i.mode
    then (off, some disabled)
    else if not (i.qtype == type_a || i.qtype == type_aaaa)
    then (off, some record_type)
    else if i.excluded
    then (off, some domain_excluded)
    else elim i.snapshot [
      | none ↦ (off, some not_cloudflare)
      | some snapshot ↦
          if not (any_contained snapshot i.original)
          then (off, some not_cloudflare)
          else if is_preserve i.mode
          then (preserve, some mode_is_preserve)
          else evaluate_augment i
    ]

-- `SvcParamKey::EchConfigList`.
abbrev pub ech_config_list : ℕ
ech_config_list = 5

unfoldable pub has_key : ℕ → List ℕ → Bool
has_key k [] = false
has_key k (key ∷ rest) = key == k || has_key k rest

module _ {k : Hickory} where
  unfoldable pub any_ech : List (Record k) → Bool
  unfolding has_key
  any_ech [] = false
  any_ech (r ∷ rs) =
      let rest = any_ech rs in
      elim r.rdata [
        | https_data params x ↦ has_key ech_config_list params || rest
        | svcb_data params x ↦ has_key ech_config_list params || rest
        | _ ↦ rest
      ]

  unfoldable pub publishes_ech : Message k → Bool
  unfolding any_ech
  publishes_ech m = any_ech (m.answers ++ (m.additionals ++ m.authorities))
