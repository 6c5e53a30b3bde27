-- ===== src/Message.antt =====
-- The parts of a DNS message that the daemon's own code reads and writes, and the TTL functions of
-- src/dns/message.rs. Messages are the hickory crate's; its names, and record data that the code passes
-- on unread, are parameters.
pub mod Replies
use egressdns.Prelude.{
  Bool, List, Option, [], if◌then◌else◌, map, max, min, none, some, ℕ, ◌++◌, ◌-◌, ◌==◌, ◌∷◌,
}

-- `Proof`, weakest claim first.
pub data Proof : Type 0 where
  indeterminate bogus insecure secure : Proof

pub record Hickory : Type 1 where
  pub Name : Type 0
  pub name_discrete : Discrete Name
  pub Payload : Type 0
  -- The record type of other data.
  pub payload_type : Payload → ℕ
  -- The proof of a record that `Record::from_rdata` builds.
  pub default_proof : Proof
  -- `Name::to_string`.
  pub to_string : Name → List ℕ
  -- The EDNS options: the first one of a code, with its bytes if the crate leaves it unparsed, and the
  -- options with another one.
  pub Edns : Type 0
  pub option : Edns → ℕ → Option (Option (List ℕ))
  pub insert_option : Edns → ℕ → List ℕ → Edns

module _ (k : Hickory) where
  -- Addresses; HTTPS and SVCB with the keys of their parameters; a signature with its expiry; the rest.
  pub data RData : Type 0 where
    a_data : ℕ → RData
    aaaa_data : ℕ → RData
    https_data : List ℕ → k.Payload → RData
    svcb_data : List ℕ → k.Payload → RData
    rrsig_data : ℕ → k.Payload → RData
    other_data : k.Payload → RData

  pub record Record : Type 0 where
    pub name : k.Name
    pub ttl : ℕ
    pub rdata : RData
    pub proof : Proof

  pub record Query : Type 0 where
    pub name : k.Name
    pub query_type : ℕ
    pub query_class : ℕ

  pub record Message : Type 0 where
    pub is_response : Bool
    pub op_code : ℕ
    pub truncation : Bool
    pub queries : List Query
    pub edns : Option k.Edns
    pub response_code : ℕ
    pub authentic_data : Bool
    pub answers : List Record
    pub authorities : List Record
    pub additionals : List Record

-- `RecordType`.
abbrev pub type_a : ℕ
type_a = 1

abbrev pub type_cname : ℕ
type_cname = 5

abbrev pub type_aaaa : ℕ
type_aaaa = 28

abbrev pub type_opt : ℕ
type_opt = 41

abbrev pub type_rrsig : ℕ
type_rrsig = 46

abbrev pub type_svcb : ℕ
type_svcb = 64

abbrev pub type_https : ℕ
type_https = 65

module _ {k : Hickory} where
  -- `Record::record_type`.
  unfoldable pub record_type : Record k → ℕ
  record_type r = elim r.rdata [
    | a_data x ↦ type_a
    | aaaa_data x ↦ type_aaaa
    | https_data ps x ↦ type_https
    | svcb_data ps x ↦ type_svcb
    | rrsig_data e x ↦ type_rrsig
    | other_data x ↦ k.payload_type x
  ]

  unfoldable pub map_ttls : Message k → (ℕ → ℕ) → Message k
  map_ttls m f =
      let change = λ (r : Record k). record r { ttl = f r.ttl } in
      record m {
        answers = map change m.answers;
        authorities = map change m.authorities;
        additionals = map change m.additionals;
      }

  unfoldable pub cap_ttls : Message k → ℕ → Message k
  unfolding map_ttls
  cap_ttls m cap = map_ttls m (λ ttl. min ttl cap)

  unfoldable pub age_ttls : Message k → ℕ → Message k
  unfolding map_ttls
  age_ttls m elapsed = map_ttls m (λ ttl. ttl - elapsed)

  -- The records of all sections.
  abbrev pub records : Message k → List (Record k)
  records m = m.answers ++ (m.authorities ++ m.additionals)

  -- The TTLs of the records that are no OPT pseudo-record.
  unfoldable pub real_ttls : List (Record k) → List ℕ
  unfolding record_type
  real_ttls [] = []
  real_ttls (r ∷ rs) =
      let rest = real_ttls rs in if record_type r == type_opt then rest else r.ttl ∷ rest

-- `Iterator::min` and `max`.
unfoldable pub minimum : List ℕ → Option ℕ
minimum [] = none
minimum (x ∷ xs) = elim (minimum xs) [ none ↦ some x | some y ↦ some (min x y) ]

unfoldable pub maximum : List ℕ → Option ℕ
maximum [] = none
maximum (x ∷ xs) = elim (maximum xs) [ none ↦ some x | some y ↦ some (max x y) ]

module _ {k : Hickory} where
  unfoldable pub min_ttl : Message k → Option ℕ
  unfolding real_ttls minimum
  min_ttl m = minimum (real_ttls (records m))

  unfoldable pub max_ttl : Message k → Option ℕ
  unfolding real_ttls maximum
  max_ttl m = maximum (real_ttls (records m))
