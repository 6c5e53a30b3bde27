-- ===== src/SpecialUse.antt =====
-- src/dns/specialuse.rs: the names that the daemon answers itself. A name is its bytes.
pub mod Laws
mod Tests
use Prim.Native.Char.{code}
use Prim.Native.String
use Prim.Native.String.{String}
use egressdns.Prelude.{
  Bool, List, Option, [], false, get_or, if◌then◌else◌, leb, length, ltb, none, some, true, ℕ, ◌&&◌,
  ◌++◌, ◌-◌, ◌==◌, ◌∷◌,
}
use egressdns.Cache.Name.{to_ascii_lowercase, ends_with_dot, str_eq, ends_with}

-- The bytes of an ASCII literal.
abbrev pub bytes : String → List ℕ
bytes String.[] = []
bytes (String.◌∷◌ c s) = code c ∷ bytes s

pub data Disposition : Type 0 where
  forward loopback nx_domain loop_marker : Disposition

pub data Registry : Type 0 where
  localhost invalid test multicast_dns home_arpa onion private_reverse : Registry

-- `NXDOMAIN_SUFFIXES`.
unfoldable pub nxdomain_suffixes : List (List ℕ × Registry)
nxdomain_suffixes =
    (bytes "invalid.", invalid)
    ∷ (bytes "local.", multicast_dns)
    ∷ (bytes "home.arpa.", home_arpa)
    ∷ (bytes "onion.", onion)
    ∷ (bytes "10.in-addr.arpa.", private_reverse)
    ∷ (bytes "16.172.in-addr.arpa.", private_reverse)
    ∷ (bytes "17.172.in-addr.arpa.", private_reverse)
    ∷ (bytes "18.172.in-addr.arpa.", private_reverse)
    ∷ (bytes "19.172.in-addr.arpa.", private_reverse)
    ∷ (bytes "20.172.in-addr.arpa.", private_reverse)
    ∷ (bytes "21.172.in-addr.arpa.", private_reverse)
    ∷ (bytes "22.172.in-addr.arpa.", private_reverse)
    ∷ (bytes "23.172.in-addr.arpa.", private_reverse)
    ∷ (bytes "24.172.in-addr.arpa.", private_reverse)
    ∷ (bytes "25.172.in-addr.arpa.", private_reverse)
    ∷ (bytes "26.172.in-addr.arpa.", private_reverse)
    ∷ (bytes "27.172.in-addr.arpa.", private_reverse)
    ∷ (bytes "28.172.in-addr.arpa.", private_reverse)
    ∷ (bytes "29.172.in-addr.arpa.", private_reverse)
    ∷ (bytes "30.172.in-addr.arpa.", private_reverse)
    ∷ (bytes "31.172.in-addr.arpa.", private_reverse)
    ∷ (bytes "168.192.in-addr.arpa.", private_reverse)
    ∷ (bytes "254.169.in-addr.arpa.", private_reverse)
    ∷ (bytes "8.e.f.ip6.arpa.", private_reverse)
    ∷ (bytes "9.e.f.ip6.arpa.", private_reverse)
    ∷ (bytes "a.e.f.ip6.arpa.", private_reverse)
    ∷ (bytes "b.e.f.ip6.arpa.", private_reverse)
    ∷ (bytes "c.f.ip6.arpa.", private_reverse)
    ∷ (bytes "d.f.ip6.arpa.", private_reverse)
    ∷ []

unfoldable pub suffix_matches : List ℕ → List ℕ → Bool
suffix_matches name suffix =
    if str_eq name suffix
    then true
    else if ltb (length name) (length suffix)
    then false
    else let cut = length name - length suffix in
      if leb 2 cut then ends_with name suffix && get_or name (cut - 1) 0 == b'.' else false

-- `trim_end_matches('.')`.
unfoldable pub trim_dots : List ℕ → List ℕ
trim_dots [] = []
trim_dots (b ∷ s) = elim (trim_dots s) [ [] ↦ if b == b'.' then [] else b ∷ [] | c ∷ t ↦ b ∷ c ∷ t ]

-- `LOOP_MARKER_SUFFIX` and `is_loop_marker` of src/config/auto.rs.
abbrev pub loop_marker_suffix : List ℕ
loop_marker_suffix = bytes "loop-probe.egressdns.invalid"

unfoldable pub is_loop_marker : List ℕ → Bool
unfolding trim_dots
is_loop_marker name = ends_with (to_ascii_lowercase (trim_dots name)) loop_marker_suffix

-- The first suffix of the table that the name is under.
unfoldable pub nxdomain_registry : List (List ℕ × Registry) → List ℕ → Option Registry
unfolding suffix_matches
nxdomain_registry [] name = none
nxdomain_registry ((suffix, registry) ∷ rest) name =
    if suffix_matches name suffix then some registry else nxdomain_registry rest name

unfoldable pub qualified : List ℕ → List ℕ
qualified qname =
    let lowered = to_ascii_lowercase qname in
    if ends_with_dot lowered then lowered else lowered ++ b'.' ∷ []

unfoldable pub classify : List ℕ → Option (Registry × Disposition)
unfolding qualified nxdomain_registry
classify qname =
    let name = qualified qname in
    if suffix_matches name (bytes "localhost.")
    then some (localhost, loopback)
    else if is_loop_marker name
    then some (invalid, loop_marker)
    else elim (nxdomain_registry nxdomain_suffixes name) [
      | some registry ↦ some (registry, nx_domain)
      | none ↦ none
    ]
