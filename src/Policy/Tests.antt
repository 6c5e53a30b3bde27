-- ===== src/Policy/Tests.antt =====
-- A concrete run of the answer policy that adds an address.
use egressdns.Policy.Corroborate.{registrable_suffix, answers_are_compatible, terminal}
use egressdns.Policy.Compatible.{Supports, answers_are_compatible_iff}
use egressdns.Cache.Name.{to_ascii_lowercase, str_eq, ends_with}
use egressdns.SpecialUse.{bytes, trim_dots}
use egressdns.Policy.Excluded.{Covered, is_excluded_iff}
use egressdns.Policy.Domains.{folded, matches_folded, matches_domain, any_matches, is_excluded}
use egressdns.Policy.Positions.{apply_answer_policy-position}
use egressdns.Prelude.{
  List, [], arith, false, get_elem?, if◌then◌else◌, nanos_per_sec, none, refl, some, true, ℕ,
  ℕ_discrete, ◌*◌, ◌-◌, ◌/◌, ◌==◌, ◌^◌, ◌↔◌, ◌∷◌, ◌≡◌, ◌⊎◌,
}
use egressdns.Net.{v4}
use egressdns.Float.Whole.{whole}
use egressdns.Cache.Entry.{DnssecStatus}
use egressdns.IpClass.{IpnetCrate}
use egressdns.Prefixes.{PrefixSnapshot, contains}
use egressdns.Message.{Hickory, Message, Proof, Record, a_data, other_data, type_a, record_type}
use egressdns.Policy.{CloudflareMode, Eligibility, EligibilityInputs, evaluate}
use egressdns.Policy.Answer.{AnswerContext, rrset_groups}
use egressdns.Policy.Apply.{
  apply_answer_policy, apply_groups, second_step, eligibility_inputs, conclude,
}
use egressdns.Policy.Permitted.{Permitted, cap_record}
use egressdns.Policy.Refines.{apply_answer_policy-Permitted}
use egressdns.Policy.Eligible.{Eligible, evaluate-Eligible_iff}

abbrev names : Hickory
names = record {
  Name = ℕ;
  name_discrete = ℕ_discrete;
  Payload = ℕ;
  payload_type = λ n. n;
  default_proof = Proof.indeterminate;
  to_string = λ n. n ∷ [];
  Edns = List ℕ;
  option = λ e code. none;
  insert_option = λ e code bytes. bytes;
}

abbrev by_prefix : IpnetCrate
by_prefix = record {
  contains4 = λ net len addr. addr / 2 ^ (32 - len) == net / 2 ^ (32 - len);
  contains6 = λ net len addr. addr / 2 ^ (128 - len) == net / 2 ^ (128 - len);
}

abbrev at : ℕ → Record names
at a = record { name = 7; ttl = 300; rdata = a_data a; proof = Proof.insecure }

abbrev alias : Record names
alias = record { name = 6; ttl = 300; rdata = other_data 5; proof = Proof.insecure }

-- 104.16.0.1 and 104.16.0.2, and 104.16.0.9 as the candidate.
abbrev answer : Message names
answer = record {
  is_response = true;
  op_code = 0;
  truncation = false;
  queries = [];
  edns = none;
  response_code = 0;
  authentic_data = false;
  answers = alias ∷ at 0x68100001 ∷ at 0x68100002 ∷ [];
  authorities = [];
  additionals = [];
}

abbrev snapshot : PrefixSnapshot
snapshot = record { v4_masks = (0x68100000, 0xfff80000) ∷ []; v6_masks = [] }

abbrev ctx : AnswerContext whole
ctx = record {
  qtype = type_a;
  dnssec = DnssecStatus.insecure;
  cloudflare_enabled = true;
  cloudflare_mode = CloudflareMode.verified_augment;
  snapshot = some snapshot;
  domain_excluded = false;
  baseline_validated = true;
  verified =
      record { addr = v4 0x68100009; successes = 3; cost_ms = 5; samples = 9; fresh = true } ∷ [];
  can_validate_ech = false;
  quality = [];
  ranking = record {
    enabled = true;
    neutral_cost_ms = 50;
    hysteresis = 0;
    min_successes_to_lead = 1;
    exploration_rate = 0;
    failure_penalty_ms = 400;
    tail_weight = 0;
    jitter_weight = 0;
    uncertainty_penalty_ms = 40;
    stale_sample_penalty_ms = 20;
    sample_max_age = 900 * nanos_per_sec;
    evidence_half_life = 600 * nanos_per_sec;
    consecutive_failure_base = 2;
  };
  augment = record { max_added = 1; min_validations = 2; min_advantage = 0; min_samples = 4 };
  ttl = record {
    cap_serve_stale = 30;
    cap_cloudflare_augment = 30;
    cap_network_change = 10;
    cap_cloudflare_preserve = 60;
    cap_optimized_multi = 120;
    cap_default = 900;
  };
  remaining_authoritative = 200;
  remaining_signature = none;
  is_stale = false;
  recent_network_change = false;
  explore_seed = 3;
}

apply_answer_policy-Permitted_example :
    Permitted by_prefix ctx answer
      (apply_answer_policy by_prefix ctx answer).0
      (apply_answer_policy by_prefix ctx answer).1
apply_answer_policy-Permitted_example = apply_answer_policy-Permitted by_prefix ctx answer

abbrev inputs : EligibilityInputs
inputs = record {
  mode = CloudflareMode.verified_augment;
  enabled = true;
  qtype = type_a;
  dnssec = DnssecStatus.insecure;
  snapshot = some snapshot;
  original = v4 0x68100001 ∷ [];
  single_rrset = true;
  excluded = false;
  publishes_ech = false;
  can_validate_ech = false;
  baseline_validated = true;
  has_verified_candidate = true;
}

evaluate-Eligible_iff_example : ((evaluate inputs).0 ≡ Eligibility.augment) ↔ Eligible inputs
evaluate-Eligible_iff_example = evaluate-Eligible_iff inputs

abbrev preserving : AnswerContext whole
preserving = record ctx { cloudflare_mode = CloudflareMode.preserve }

adds_nothing : (apply_answer_policy by_prefix preserving answer).1.modified ≡ false
unfolding apply_answer_policy rrset_groups ℕ_discrete apply_groups second_step evaluate
    eligibility_inputs contains conclude
adds_nothing = refl

apply_answer_policy-position_example :
    get_elem? (apply_answer_policy by_prefix preserving answer).0.answers 0
    ≡ some (cap_record (apply_answer_policy by_prefix preserving answer).1.client_ttl alias)
unfolding record_type
apply_answer_policy-position_example =
    apply_answer_policy-position by_prefix preserving answer 0 alias refl (omega arith) adds_nothing

abbrev deny_list : List (List ℕ)
deny_list = bytes ".Internal.test." ∷ bytes "bank.example" ∷ []

abbrev host : List ℕ
host = bytes "a.internal.test"

abbrev no_restriction : List (List ℕ)
no_restriction = []

is_excluded_iff_example : (is_excluded host no_restriction deny_list ≡ false) ↔ (
    (¬ Covered (folded host) deny_list)
    × ((no_restriction ≡ []) ⊎ Covered (folded host) no_restriction))
is_excluded_iff_example = is_excluded_iff host no_restriction deny_list

beneath_denied : is_excluded (bytes "A.internal.test.") [] deny_list ≡ true
unfolding is_excluded any_matches matches_domain matches_folded folded to_ascii_lowercase trim_dots
    str_eq ends_with
beneath_denied = refl

whole_labels : is_excluded (bytes "notbank.example") [] deny_list ≡ false
unfolding is_excluded any_matches matches_domain matches_folded folded to_ascii_lowercase trim_dots
    str_eq ends_with
whole_labels = refl

-- Two names under "akamaiedge.net", and one elsewhere.
abbrev printed : ℕ → List ℕ
printed n =
    if n == 7
    then bytes "e1.dscb.akamaiedge.net."
    else if n == 8
    then bytes "e2.dsca.AKAMAIEDGE.net."
    else bytes "edge.attacker.test."

abbrev answer_of : ℕ → Message names
answer_of n = record {
  is_response = true;
  op_code = 0;
  truncation = false;
  queries = [];
  edns = none;
  response_code = 0;
  authentic_data = false;
  answers = alias ∷ record { name = n; ttl = 60; rdata = a_data 5; proof = Proof.insecure } ∷ [];
  authorities = [];
  additionals = [];
}

suffix_of_edge : registrable_suffix printed 7 ≡ bytes "akamaiedge.net"
unfolding registrable_suffix folded to_ascii_lowercase trim_dots
suffix_of_edge = refl

variation : answers_are_compatible printed (answer_of 7) (answer_of 8) ≡ true
unfolding answers_are_compatible terminal record_type str_eq registrable_suffix folded
    to_ascii_lowercase trim_dots
variation = refl

hijacked : answers_are_compatible printed (answer_of 7) (answer_of 9) ≡ false
unfolding answers_are_compatible terminal record_type str_eq registrable_suffix folded
    to_ascii_lowercase trim_dots
hijacked = refl

answers_are_compatible_iff_example :
    (answers_are_compatible printed (answer_of 7) (answer_of 8) ≡ true) ↔ (
      (type : ℕ) × (suffix : List ℕ) × Supports printed (answer_of 7) type suffix
      × Supports printed (answer_of 8) type suffix)
answers_are_compatible_iff_example = answers_are_compatible_iff printed (answer_of 7) (answer_of 8)
