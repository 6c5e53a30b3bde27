-- ===== src/IpClass/Tests.antt =====
-- Addresses of src/util/ipclass.rs, with `ipnet` comparing network bits.
use egressdns.Prelude.{refl, some, true, ◌-◌, ◌/◌, ◌==◌, ◌^◌, ◌↔◌, ◌≡◌}
use egressdns.Net.{v4}
use egressdns.IpClass.{
  IpnetCrate, octets, classify, classify_v4, is_global_unicast, link_local, cloud_metadata,
}
use egressdns.IpClass.Laws.{ContainsByPrefix, OutsideRanges, is_global_unicast_iff}

abbrev by_prefix : IpnetCrate
by_prefix = record {
  contains4 = λ net len addr. addr / 2 ^ (32 - len) == net / 2 ^ (32 - len);
  contains6 = λ net len addr. addr / 2 ^ (128 - len) == net / 2 ^ (128 - len);
}

by_prefix-Contains : ContainsByPrefix by_prefix
by_prefix-Contains = record { contains4 = λ net len addr. refl; contains6 = λ net len addr. refl }

metadata : classify by_prefix (v4 (octets 169 254 169 254)) ≡ some cloud_metadata
unfolding classify classify_v4
metadata = refl

router : classify by_prefix (v4 (octets 169 254 7 1)) ≡ some link_local
unfolding classify classify_v4
router = refl

is_global_unicast_iff_example :
    (is_global_unicast by_prefix (v4 (octets 9 9 9 9)) ≡ true) ↔ OutsideRanges (v4 (octets 9 9 9 9))
is_global_unicast_iff_example =
    is_global_unicast_iff by_prefix by_prefix-Contains (v4 (octets 9 9 9 9))
