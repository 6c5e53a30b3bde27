-- ===== src/Acl.antt =====
-- src/dns/acl.rs: which clients may use the resolver. The networks are the `ipnet` crate's: an `IpNet` is
-- of a family, and its `contains` on addresses of that family is a parameter.
mod Tests
use egressdns.Prelude.{
  Bool, Bool-cases, List, Option, [], arith, false, if◌then◌else◌, inl, inr, none, refl, some, true,
  ℕ, ◌%◌, ◌*◌, ◌+◌, ◌/◌, ◌<◌, ◌==◌, ◌^◌, ◌||◌, ◌↔◌, ◌∷◌, ◌≡◌, ◌⊎◌,
}
use egressdns.Net.{IpAddr, v4, v6}

pub record Networks : Type 1 where
  pub Net4 : Type 0
  pub Net6 : Type 0
  pub contains4 : Net4 → ℕ → Bool
  pub contains6 : Net6 → ℕ → Bool

pub data IpNet (n : Networks) : Type 0 where
  net4 : Networks.Net4 n → IpNet n
  net6 : Networks.Net6 n → IpNet n

pub data AclDecision : Type 0 where
  allow denied not_allowed : AclDecision

-- `Ipv6Addr::to_ipv4_mapped`: the addresses ::ffff:0:0/96.
unfoldable pub to_ipv4_mapped : ℕ → Option ℕ
to_ipv4_mapped a = if a / 2 ^ 32 == 0xffff then some (a % 2 ^ 32) else none

unfoldable pub normalise : IpAddr → IpAddr
normalise (v4 a) = v4 a
normalise (v6 a) = elim (to_ipv4_mapped a) [ none ↦ v6 a | some b ↦ v4 b ]

normalise-mapped : (a : ℕ) → a < 2 ^ 32 → normalise (v6 (0xffff * 2 ^ 32 + a)) ≡ v4 a
unfolding normalise to_ipv4_mapped
normalise-mapped a h =
    let top : (0xffff * 2 ^ 32 + a) / 2 ^ 32 ≡ 0xffff = omega arith in
    let low : (0xffff * 2 ^ 32 + a) % 2 ^ 32 ≡ a = omega arith in ground arith

normalise-v4 : (a : ℕ) → normalise (v4 a) ≡ v4 a
unfolding normalise
normalise-v4 a = refl

pub record Acl (n : Networks) : Type 0 where
  pub allow_from : List (IpNet n)
  pub deny_from : List (IpNet n)

module _ {n : Networks} where
  unfoldable pub contains : IpNet n → IpAddr → Bool
  contains (net4 m) (v4 a) = n.contains4 m a
  contains (net6 m) (v6 a) = n.contains6 m a
  contains _ _ = false

  -- `.iter().any(|n| contains(n, addr))`.
  unfoldable pub any_contains : List (IpNet n) → IpAddr → Bool
  any_contains [] a = false
  any_contains (m ∷ ms) a = contains m a || any_contains ms a

  unfoldable pub evaluate : Acl n → IpAddr → AclDecision
  evaluate acl client =
      let addr = normalise client in
      if any_contains acl.deny_from addr
      then denied
      else if any_contains acl.allow_from addr
      then allow
      else not_allowed

  unfoldable pub permits : Acl n → IpAddr → Bool
  permits acl client = elim (evaluate acl client) [ allow ↦ true | _ ↦ false ]

  -- Some network of the list holds the address.
  abbrev pub Holds : List (IpNet n) → IpAddr → Type 0
  Holds [] a = ⊥
  Holds (m ∷ ms) a = (contains m a ≡ true) ⊎ Holds ms a

  any_contains_iff : (ms : List (IpNet n)) (a : IpAddr) → (any_contains ms a ≡ true) ↔ Holds ms a
  unfolding any_contains
  any_contains_iff [] a = (λ h. cc, λ h. absurd h)
  any_contains_iff (m ∷ ms) a = (
    λ h. elim (Bool-cases (contains m a)) [
      | inl e ↦ inl e
      | inr e ↦ inr ((any_contains_iff ms a).0 (ground arith))
    ],
    λ h. elim h [ inl e ↦ ground arith | inr r ↦ ground (arith, (any_contains_iff ms a).1 r) ],
  )

  -- A client is let in exactly when some allow entry holds its normalised address and no deny entry
  -- does: deny entries win, and an empty allow list refuses everybody.
  pub permits_iff :
      (acl : Acl n) (client : IpAddr)
      → (permits acl client ≡ true)
        ↔ (Holds acl.allow_from (normalise client) × (¬ Holds acl.deny_from (normalise client)))
  unfolding permits evaluate
  permits_iff acl client =
      let a = normalise client in
      (
        λ h. (
          (any_contains_iff acl.allow_from a).0 (ground arith),
          λ d. ground (arith, (any_contains_iff acl.deny_from a).1 d),
        ),
        λ h. elim (Bool-cases (any_contains acl.deny_from a)) [
          | inl d ↦ absurd (h.1 ((any_contains_iff acl.deny_from a).0 d))
          | inr d ↦ ground (arith, (any_contains_iff acl.allow_from a).1 h.0)
        ],
      )

  -- A client that arrives over a dual-stack socket, as an IPv4-mapped IPv6 address, gets the decision
  -- of its IPv4 address.
  pub evaluate-mapped :
      (acl : Acl n) (a : ℕ)
      → a < 2 ^ 32
      → evaluate acl (v6 (0xffff * 2 ^ 32 + a)) ≡ evaluate acl (v4 a)
  unfolding evaluate
  evaluate-mapped acl a h = rw (normalise-mapped a h, normalise-v4 a) refl
