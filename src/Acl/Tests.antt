-- ===== src/Acl/Tests.antt =====
-- Concrete access decisions, over networks given by a prefix.
use egressdns.Prelude.{[], true, ℕ, ◌*◌, ◌+◌, ◌/◌, ◌==◌, ◌^◌, ◌↔◌, ◌∷◌, ◌≡◌}
use egressdns.Net.{v4}
use egressdns.Acl.{Networks, Acl, net4, normalise, permits, Holds, permits_iff}

abbrev prefixes : Networks
prefixes = record {
  Net4 = ℕ;
  Net6 = ℕ;
  contains4 = λ n a. a / 2 ^ 24 == n;
  contains6 = λ n a. a / 2 ^ 64 == n;
}

abbrev lan : Acl prefixes
lan = record { allow_from = net4 10 ∷ []; deny_from = net4 11 ∷ [] }

permits_iff_example : (permits lan (v4 (10 * 2 ^ 24 + 1)) ≡ true) ↔ (
    Holds lan.allow_from (normalise (v4 (10 * 2 ^ 24 + 1)))
    × (¬ Holds lan.deny_from (normalise (v4 (10 * 2 ^ 24 + 1)))))
permits_iff_example = permits_iff lan (v4 (10 * 2 ^ 24 + 1))
