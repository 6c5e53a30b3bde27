-- ===== src/Dnssec.antt =====
-- src/policy/dnssec.rs: one DNSSEC state for a whole answer, and what it means for the cache, a retry and
-- the AD bit. `ProofFailure` is that of src/dns/proofwatch.rs.
pub mod Secure
mod Tests
use egressdns.Prelude.{
  Bool, List, Option, [], false, if◌then◌else◌, ltb, min, none, not, some, true, ℕ, ◌&&◌, ◌++◌,
  ◌==◌, ◌∷◌,
}
use egressdns.Cache.Entry.{DnssecStatus, is_authentic}
use egressdns.Message.{Hickory, Message, Proof, Record, record_type, rrsig_data, type_opt}

pub data ProofFailure : Type 0 where
  nothing deadline transport refused : ProofFailure

pub data ValidationOutcome : Type 0 where
  secure proven_insecure bogus incomplete_proof transport_failure timeout indeterminate :
      ValidationOutcome

-- The fields of `DnssecConfig` that the policy reads; `off` is that the mode is `DnssecMode::Off`.
pub record DnssecConfig : Type 0 where
  pub off : Bool
  pub trust_upstream_ad : Bool

unfoldable pub is_retryable : ValidationOutcome → Bool
is_retryable ValidationOutcome.incomplete_proof = true
is_retryable ValidationOutcome.transport_failure = true
is_retryable ValidationOutcome.timeout = true
is_retryable _ = false

unfoldable pub cache_status : ValidationOutcome → DnssecStatus
cache_status ValidationOutcome.secure = DnssecStatus.secure
cache_status ValidationOutcome.proven_insecure = DnssecStatus.insecure
cache_status ValidationOutcome.bogus = DnssecStatus.bogus
cache_status _ = DnssecStatus.indeterminate

-- The order of `Proof`.
unfoldable pub strength : Proof → ℕ
strength Proof.indeterminate = 0
strength Proof.bogus = 1
strength Proof.insecure = 2
strength Proof.secure = 3

unfoldable pub status_of : Proof → DnssecStatus
status_of Proof.secure = DnssecStatus.secure
status_of Proof.insecure = DnssecStatus.insecure
status_of Proof.bogus = DnssecStatus.bogus
status_of Proof.indeterminate = DnssecStatus.indeterminate

-- The match of `classify`.
unfoldable pub explained : DnssecStatus → ProofFailure → ValidationOutcome
explained DnssecStatus.secure observed = ValidationOutcome.secure
explained DnssecStatus.insecure observed = ValidationOutcome.proven_insecure
explained DnssecStatus.indeterminate observed = ValidationOutcome.indeterminate
explained DnssecStatus.bogus ProofFailure.nothing = ValidationOutcome.bogus
explained DnssecStatus.bogus ProofFailure.deadline = ValidationOutcome.timeout
explained DnssecStatus.bogus ProofFailure.transport = ValidationOutcome.transport_failure
explained DnssecStatus.bogus ProofFailure.refused = ValidationOutcome.incomplete_proof

-- The end of `dnssec_status`.
unfoldable pub verdict : Bool × Proof → DnssecStatus
unfolding status_of
verdict (true, worst) = status_of worst
verdict (false, worst) = DnssecStatus.indeterminate

module _ {k : Hickory} where
  -- The loop over the records: whether one was seen, and the weakest proof.
  unfoldable pub weakest : List (Record k) → Bool → Proof → Bool × Proof
  unfolding record_type strength
  weakest [] saw_record worst = (saw_record, worst)
  weakest (r ∷ rs) saw_record worst =
      let skipped = weakest rs saw_record worst in
      let lowered = weakest rs true r.proof in
      let kept = weakest rs true worst in
      if record_type r == type_opt
      then skipped
      else if ltb (strength r.proof) (strength worst)
      then lowered
      else kept

  unfoldable pub dnssec_status : Message k → DnssecConfig → Bool → DnssecStatus
  unfolding weakest verdict
  dnssec_status m cfg upstream_trusted_ad =
      if cfg.off
      then if cfg.trust_upstream_ad && (upstream_trusted_ad && m.authentic_data)
        then DnssecStatus.secure
        else DnssecStatus.indeterminate
      else verdict (weakest (m.answers ++ m.authorities) false Proof.secure)

  unfoldable pub classify : Message k → DnssecConfig → Bool → ProofFailure → ValidationOutcome
  unfolding dnssec_status explained
  classify m cfg upstream_trusted_ad observed =
      explained (dnssec_status m cfg upstream_trusted_ad) observed

  -- The loop of `earliest_rrsig_expiry`.
  unfoldable pub earliest : List (Record k) → Option ℕ → Option ℕ
  earliest [] found = found
  earliest (r ∷ rs) found = elim r.rdata [
    | rrsig_data exp x ↦ earliest rs (elim found [ some e ↦ some (min e exp) | none ↦ some exp ])
    | _ ↦ earliest rs found
  ]

  unfoldable pub earliest_rrsig_expiry : Message k → Option ℕ
  unfolding earliest
  earliest_rrsig_expiry m = earliest (m.answers ++ (m.authorities ++ m.additionals)) none

unfoldable pub may_set_ad : DnssecStatus → Bool → Bool → Bool
unfolding is_authentic
may_set_ad status client_asked modified = client_asked && (is_authentic status && not modified)
