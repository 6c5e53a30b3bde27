-- ===== src/Policy/Domains.antt =====
-- The allow and deny lists of domains: `is_excluded` and `matches_domain` of src/policy/cloudflare.rs.
use egressdns.Prelude.{Bool, List, [], false, if◌then◌else◌, not, true, ℕ, ◌==◌, ◌||◌, ◌∷◌}
use egressdns.Cache.Name.{ends_with, str_eq, to_ascii_lowercase}
use egressdns.SpecialUse.{trim_dots}

-- `trim_end_matches('.').to_ascii_lowercase()`.
unfoldable pub folded : List ℕ → List ℕ
folded name = to_ascii_lowercase (trim_dots name)

-- The tests of `matches_domain` on a folded pattern.
unfoldable pub matches_folded : List ℕ → List ℕ → Bool
matches_folded name [] = false
matches_folded name (b ∷ suffix) =
    if b == b'.'
    then str_eq name suffix || ends_with name (b'.' ∷ suffix)
    else str_eq name (b ∷ suffix)

unfoldable pub matches_domain : List ℕ → List ℕ → Bool
unfolding matches_folded
matches_domain name pattern = matches_folded name (folded pattern)

unfoldable pub any_matches : List ℕ → List (List ℕ) → Bool
any_matches name [] = false
any_matches name (d ∷ patterns) = matches_domain name d || any_matches name patterns

unfoldable pub is_excluded : List ℕ → List (List ℕ) → List (List ℕ) → Bool
is_excluded name allow deny =
    let n = folded name in
    if any_matches n deny
    then true
    else elim allow [ [] ↦ false | a ∷ rest ↦ not (any_matches n (a ∷ rest)) ]
