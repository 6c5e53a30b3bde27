-- ===== src/IpClass.antt =====
-- src/util/ipclass.rs: the special-use address ranges that are never probed. An address is its number. The
-- `ipnet` crate's test of a network (its address and prefix length) for an address is a parameter; the
-- text of each network in the tables is written as its address and its length.
pub mod Laws
mod Tests
use egressdns.Prelude.{
  Bool, List, Option, [], false, if◌then◌else◌, none, some, true, ℕ, ◌*◌, ◌+◌, ◌==◌, ◌||◌, ◌∷◌,
}
use mathlib.Core.Option
use egressdns.Net.{IpAddr, v4, v6}
use egressdns.Acl.{to_ipv4_mapped}

pub data SpecialUse : Type 0 where
  unspecified loopback private shared_address_space link_local cloud_metadata documentation
        benchmarking protocol_assignment multicast reserved translation :
      SpecialUse

-- `Ipv4Addr::new`.
abbrev pub octets : ℕ → ℕ → ℕ → ℕ → ℕ
octets a b c d = ((a * 256 + b) * 256 + c) * 256 + d

-- `V4_TABLE`.
abbrev pub v4_table : List (ℕ × ℕ × SpecialUse)
v4_table =
    (octets 0 0 0 0, 8, unspecified)
    ∷ (octets 10 0 0 0, 8, private)
    ∷ (octets 100 64 0 0, 10, shared_address_space)
    ∷ (octets 127 0 0 0, 8, loopback)
    ∷ (octets 169 254 0 0, 16, link_local)
    ∷ (octets 172 16 0 0, 12, private)
    ∷ (octets 192 0 0 0, 24, protocol_assignment)
    ∷ (octets 192 0 2 0, 24, documentation)
    ∷ (octets 192 88 99 0, 24, translation)
    ∷ (octets 192 168 0 0, 16, private)
    ∷ (octets 198 18 0 0, 15, benchmarking)
    ∷ (octets 198 51 100 0, 24, documentation)
    ∷ (octets 203 0 113 0, 24, documentation)
    ∷ (octets 224 0 0 0, 4, multicast)
    ∷ (octets 240 0 0 0, 4, reserved)
    ∷ []

-- `V6_TABLE`.
abbrev pub v6_table : List (ℕ × ℕ × SpecialUse)
v6_table =
    (0x0, 128, unspecified)
    ∷ (0x1, 128, loopback)
    ∷ (0xffff00000000, 96, translation)
    ∷ (0x64ff9b000000000000000000000000, 96, translation)
    ∷ (0x64ff9b000100000000000000000000, 48, translation)
    ∷ (0x1000000000000000000000000000000, 64, reserved)
    ∷ (0x20010002000000000000000000000000, 48, benchmarking)
    ∷ (0x20010db8000000000000000000000000, 32, documentation)
    ∷ (0x20010000000000000000000000000000, 23, protocol_assignment)
    ∷ (0x20020000000000000000000000000000, 16, translation)
    ∷ (0xfc000000000000000000000000000000, 7, private)
    ∷ (0xfe800000000000000000000000000000, 10, link_local)
    ∷ (0xff000000000000000000000000000000, 8, multicast)
    ∷ []

-- `METADATA_V4`.
abbrev pub metadata_v4 : List ℕ
metadata_v4 =
    octets 169 254 169 254 ∷ octets 169 254 170 2 ∷ octets 100 100 100 200 ∷ octets 192 0 0 192 ∷ []

-- fd00:ec2::254, the metadata endpoint of `classify_v6`.
abbrev pub metadata_v6 : ℕ
metadata_v6 = 0xfd000ec2000000000000000000000254

unfoldable pub is_metadata : List ℕ → ℕ → Bool
is_metadata [] addr = false
is_metadata (m ∷ ms) addr = addr == m || is_metadata ms addr

-- `Ipv4Net::contains` and `Ipv6Net::contains`.
pub record IpnetCrate : Type 0 where
  pub contains4 : ℕ → ℕ → ℕ → Bool
  pub contains6 : ℕ → ℕ → ℕ → Bool

-- The class of the first network of a table that holds the address.
unfoldable pub first_class : (ℕ → ℕ → ℕ → Bool) → List (ℕ × ℕ × SpecialUse) → ℕ → Option SpecialUse
first_class contains [] addr = none
first_class contains ((net, len, class) ∷ table) addr =
    if contains net len addr then some class else first_class contains table addr

module _ (crate : IpnetCrate) where
  unfoldable pub classify_v4 : ℕ → Option SpecialUse
  unfolding is_metadata first_class
  classify_v4 addr =
      if is_metadata metadata_v4 addr
      then some cloud_metadata
      else if addr == 0xffffffff
      then some reserved
      else first_class crate.contains4 v4_table addr

  unfoldable pub classify_v6 : ℕ → Option SpecialUse
  unfolding first_class to_ipv4_mapped
  classify_v6 addr =
      if addr == metadata_v6 then some cloud_metadata else elim (to_ipv4_mapped addr) [
        | some mapped ↦ some (Option.get_or (classify_v4 mapped) translation)
        | none ↦ first_class crate.contains6 v6_table addr
      ]

  unfoldable pub classify : IpAddr → Option SpecialUse
  classify (v4 a) = classify_v4 a
  classify (v6 a) = classify_v6 a

  unfoldable pub is_global_unicast : IpAddr → Bool
  unfolding classify
  is_global_unicast addr = elim (classify addr) [ none ↦ true | some class ↦ false ]
