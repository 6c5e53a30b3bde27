-- ===== src/Dnssec/Tests.antt =====
-- Concrete answers for src/policy/dnssec.rs.
use egressdns.Prelude.{List, [], false, none, refl, true, ℕ, ℕ_discrete, ◌↔◌, ◌∷◌, ◌≡◌}
use egressdns.Cache.Entry.{DnssecStatus}
use egressdns.Message.{Hickory, Message, Proof, a_data}
use egressdns.Dnssec.{DnssecConfig, dnssec_status}
use egressdns.Dnssec.Secure.{AllSecure, SomeReal, dnssec_status-secure_iff}

abbrev names : Hickory
names = record {
  Name = ℕ;
  name_discrete = ℕ_discrete;
  Payload = ℕ;
  payload_type = λ n. n;
  default_proof = Proof.indeterminate;
  to_string = λ n. n ∷ [];
  Edns = List ℕ;
  option = λ e code. none;
  insert_option = λ e code bytes. bytes;
}

abbrev one_answer : Proof → Message names
one_answer proof = record {
  is_response = true;
  op_code = 0;
  truncation = false;
  queries = [];
  edns = none;
  response_code = 0;
  authentic_data = false;
  answers = record { name = 7; ttl = 300; rdata = a_data 1; proof = proof } ∷ [];
  authorities = [];
  additionals = [];
}

abbrev validating : DnssecConfig
validating = record { off = false; trust_upstream_ad = false }

dnssec_status-secure_iff_example :
    (dnssec_status (one_answer Proof.secure) validating false ≡ DnssecStatus.secure)
    ↔ (SomeReal (one_answer Proof.secure).answers × AllSecure (one_answer Proof.secure).answers)
dnssec_status-secure_iff_example =
    dnssec_status-secure_iff (one_answer Proof.secure) validating false refl
