-- ===== src/Cache/Entry.antt =====
-- The data of src/cache/mod.rs: keys, entries, failures, variants, and their clocks.
-- `Msg` stands for `hickory_proto::op::Message`. Record types, classes and response codes are their
-- numbers on the wire, fingerprints their `u64`.
use egressdns.Prelude.{
  Bool, List, Option, [], as_secs, false, ltb, min, none, saturating_add32, set, true, u32_max,
  u32_mod, ℕ, ℕ_discrete, ◌%◌, ◌*◌, ◌-◌, ◌∷◌,
}
use mathlib.Core.Option
use egressdns.Cache.Name.{normalize_name}

pub data DnssecStatus : Type 0 where
  secure insecure bogus indeterminate : DnssecStatus

unfoldable pub DnssecStatus-discrete : Discrete DnssecStatus
DnssecStatus-discrete = hlevel

unfoldable pub is_authentic : DnssecStatus → Bool
is_authentic DnssecStatus.secure = true
is_authentic _ = false

pub data EntryKind : Type 0 where
  positive no_data nx_domain : EntryKind

pub record PolicyView : Type 0 where
  pub group : List ℕ
  pub ecs_identity : Option (List ℕ)

unfoldable pub plain : List ℕ → PolicyView
plain group = record { group = group; ecs_identity = none }

pub record DnssecMode : Type 0 where
  pub dnssec_ok : Bool
  pub checking_disabled : Bool

pub record CacheKey : Type 0 where
  pub name : List ℕ
  pub qtype : ℕ
  pub qclass : ℕ
  pub view : PolicyView
  pub mode : DnssecMode

unfoldable pub CacheKey-discrete : Discrete CacheKey
CacheKey-discrete = hlevel ℕ_discrete

-- `CacheKey::new`.
unfoldable pub new_key : List ℕ → ℕ → ℕ → PolicyView → DnssecMode → CacheKey
new_key name qtype qclass view mode = record {
  name = normalize_name name;
  qtype = qtype;
  qclass = qclass;
  view = view;
  mode = mode;
}

pub data TransportKind : Type 0 where
  udp tcp dot doh2 doh3 doq : TransportKind

pub record AnswerSource : Type 0 where
  pub server : List ℕ
  pub transport : TransportKind

module _ (Msg : Type 0) where
  pub record CacheEntry : Type 0 where
    pub message : Msg
    pub received_at : ℕ
    pub received_unix : ℕ
    pub ttl : ℕ
    pub kind : EntryKind
    pub dnssec : DnssecStatus
    pub source : AnswerSource
    pub fingerprint : ℕ
    pub rrsig_expiry_unix : Option ℕ
    pub approx_bytes : ℕ

  pub data Lookup : Type 0 where
    fresh : CacheEntry → ℕ → Lookup
    stale : CacheEntry → ℕ → Lookup
    miss : Lookup

  pub record VariantRecord : Type 0 where
    pub fingerprint : ℕ
    pub message : Msg
    pub source : AnswerSource
    pub observed_at : ℕ
    pub ttl : ℕ
    pub dnssec : DnssecStatus

  pub record VariantSet : Type 0 where
    pub variants : List VariantRecord
    pub selected : Option ℕ
    pub selected_at : Option ℕ

pub record FailureEntry : Type 0 where
  pub recorded_at : ℕ
  pub ttl : ℕ
  pub rcode : ℕ
  pub reason : List ℕ
  pub consecutive : ℕ

-- The failure suppresses upstream work while it is younger than its `ttl`.
unfoldable pub is_active : FailureEntry → ℕ → Bool
is_active f now = ltb (now - f.recorded_at) f.ttl

module _ {Msg : Type 0} where
  -- `as u32` drops what lies above 32 bits.
  unfoldable pub age_secs : CacheEntry Msg → ℕ → ℕ
  age_secs e now = as_secs (now - e.received_at) % u32_mod

  unfoldable pub remaining_ttl : CacheEntry Msg → ℕ → ℕ
  unfolding age_secs
  remaining_ttl e now = e.ttl - age_secs e now

  unfoldable pub is_fresh : CacheEntry Msg → ℕ → Bool
  unfolding remaining_ttl
  is_fresh e now = ltb 0 (remaining_ttl e now)

  unfoldable pub staleness_secs : CacheEntry Msg → ℕ → ℕ
  unfolding age_secs
  staleness_secs e now = age_secs e now - e.ttl

  unfoldable pub remaining_signature_secs : CacheEntry Msg → ℕ → Option ℕ
  remaining_signature_secs e now_unix =
      Option.map (λ expiry. min (expiry - now_unix) u32_max % u32_mod) e.rrsig_expiry_unix

  unfoldable pub is_valid : VariantRecord Msg → ℕ → Bool
  is_valid v now = ltb (as_secs (now - v.observed_at)) v.ttl

  -- `VariantSet::default()`.
  abbrev pub no_variants : VariantSet Msg
  no_variants = record { variants = []; selected = none; selected_at = none }

  module _ (wire_len : Msg → Option ℕ) where
    -- `wire_len` is `msg.to_vec().map(|v| v.len())`; a message that cannot be encoded counts 512.
    unfoldable pub estimate_bytes : Msg → ℕ
    estimate_bytes m =
        let wire = Option.get_or (wire_len m) 512 in
        saturating_add32 (min (wire % u32_mod * 4) u32_max) 512

    add_estimates : ℕ → List (VariantRecord Msg) → ℕ
    unfolding estimate_bytes
    add_estimates acc [] = acc
    add_estimates acc (v ∷ vs) = add_estimates (saturating_add32 acc (estimate_bytes v.message)) vs

    unfoldable pub variant_set_bytes : VariantSet Msg → ℕ
    unfolding add_estimates
    variant_set_bytes set = add_estimates 256 set.variants
