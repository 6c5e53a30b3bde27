-- ===== src/IpClass/Laws.antt =====
-- Which addresses src/util/ipclass.rs lets the probes dial.
use egressdns.Prelude.{
  Bool, Bool-cases, List, [], arith, false, inl, inr, none, none≢some, refl, some, subst, sym, true,
  ℕ, ◌%◌, ◌*◌, ◌+◌, ◌-◌, ◌/◌, ◌<◌, ◌==◌, ◌^◌, ◌↔◌, ◌∙◌, ◌∷◌, ◌≡◌, ◌≢◌, ◌≤◌, ◌⊎◌,
}
use mathlib.Core.Option
use native.Mathlib.Nat.{div-lt_iff_lt-mul, le-div_iff_mul-le}
use egressdns.Net.{IpAddr, v4, v6}
use egressdns.Acl.{to_ipv4_mapped}
use egressdns.IpClass.{
  SpecialUse, v4_table, v6_table, IpnetCrate, first_class, classify_v4, classify_v6, classify,
  is_global_unicast, is_metadata, metadata_v4, metadata_v6, translation,
}

-- What the documentation of `ipnet` says of `contains`: the network bits agree.
pub record ContainsByPrefix (crate : IpnetCrate) : Type 0 where
  pub contains4 :
      (net len addr : ℕ)
      → crate.contains4 net len addr ≡ (addr / 2 ^ (32 - len) == net / 2 ^ (32 - len))
  pub contains6 :
      (net len addr : ℕ)
      → crate.contains6 net len addr ≡ (addr / 2 ^ (128 - len) == net / 2 ^ (128 - len))

-- The address lies in no range of the table: none from a network's first address to its last, for
-- addresses of `w` bits.
abbrev pub Outside : ℕ → List (ℕ × ℕ × SpecialUse) → ℕ → Type 0
Outside w [] addr = Unit {0}
Outside w ((net, len, class) ∷ table) addr =
    ((addr < net) ⊎ (net + 2 ^ (w - len) ≤ addr)) × Outside w table addr

apart_iff :
    (k net addr : ℕ)
    → 0 < k
    → net / k * k ≡ net
    → ((addr / k == net / k) ≡ false) ↔ ((addr < net) ⊎ (net + k ≤ addr))
apart_iff k net addr positive aligned =
    let p = net / k in
    let below = div-lt_iff_lt-mul {k = k} {x = addr} {y = p} positive in
    let above = le-div_iff_mul-le {k = k} {x = p + 1} {y = addr} positive in
    let next : (p + 1) * k ≡ net + k = grind arith in
    (
      λ h. elim (compare_cases (addr / k) p (ground arith)) [
        | inl less ↦ inl (subst (λ n. addr < n) aligned (below.0 less))
        | inr more ↦ inr (subst (λ n. n ≤ addr) next (above.0 more))
      ],
      λ h. elim h [
        | inl less ↦
            let q : addr / k < p = below.1 (subst (λ n. addr < n) (sym aligned) less) in
            ground arith
        | inr more ↦
            let q : p + 1 ≤ addr / k = above.1 (subst (λ n. n ≤ addr) (sym next) more) in
            ground arith
      ],
    )
  where
    compare_cases : (a b : ℕ) → a ≢ b → (a < b) ⊎ (b + 1 ≤ a)
    compare_cases a b h = omega arith

-- Each network of the table starts at a multiple of its size.
abbrev pub Aligned : ℕ → List (ℕ × ℕ × SpecialUse) → Type 0
Aligned w [] = Unit {0}
Aligned w ((net, len, class) ∷ table) =
    (0 < 2 ^ (w - len)) × (net / 2 ^ (w - len) * 2 ^ (w - len) ≡ net) × Aligned w table

first_class-none_iff :
    (contains : ℕ → ℕ → ℕ → Bool) (w : ℕ) (table : List (ℕ × ℕ × SpecialUse)) (addr : ℕ)
    → ((net len : ℕ) → contains net len addr ≡ (addr / 2 ^ (w - len) == net / 2 ^ (w - len)))
    → Aligned w table
    → (first_class contains table addr ≡ none) ↔ Outside w table addr
unfolding first_class
first_class-none_iff contains w [] addr law aligned = (λ h. tt, λ h. refl)
first_class-none_iff contains w ((net, len, class) ∷ table) addr law (positive, start, rest) =
    let here = apart_iff (2 ^ (w - len)) net addr positive start in
    let later = first_class-none_iff contains w table addr law rest in
    (
      λ h. elim (Bool-cases (contains net len addr)) [
        | inl e ↦ absurd (none≢some (sym (rw e at h)))
        | inr e ↦ (here.0 (sym (law net len) ∙ e), later.0 (rw e at h))
      ],
      λ (apart, outside).
          let e : contains net len addr ≡ false = law net len ∙ here.1 apart in
          rw e (later.1 outside),
    )

aligned4 : Aligned 32 v4_table
aligned4 = ground arith

aligned6 : Aligned 128 v6_table
aligned6 = ground arith

metadata_inside4 : (addr : ℕ) → Outside 32 v4_table addr → is_metadata metadata_v4 addr ≡ false
unfolding is_metadata
metadata_inside4 addr outside = ground arith

-- The ranges of an address's family.
abbrev pub OutsideRanges : IpAddr → Type 0
OutsideRanges (v4 a) = Outside 32 v4_table a
OutsideRanges (v6 a) = Outside 128 v6_table a

module _ (crate : IpnetCrate) (laws : ContainsByPrefix crate) where
  table4_iff :
      (addr : ℕ) → (first_class crate.contains4 v4_table addr ≡ none) ↔ Outside 32 v4_table addr
  table4_iff addr =
      first_class-none_iff crate.contains4 32 v4_table addr (λ net len. laws.contains4 net len addr)
        aligned4

  table6_iff :
      (addr : ℕ) → (first_class crate.contains6 v6_table addr ≡ none) ↔ Outside 128 v6_table addr
  table6_iff addr =
      first_class-none_iff crate.contains6 128 v6_table addr
        (λ net len. laws.contains6 net len addr) aligned6

  classify_v4-none_iff : (addr : ℕ) → (classify_v4 crate addr ≡ none) ↔ Outside 32 v4_table addr
  unfolding classify_v4
  classify_v4-none_iff addr = (
    λ h. (table4_iff addr).0 (ground arith),
    λ h.
        let m = metadata_inside4 addr h in
        let broadcast : (addr == 0xffffffff) ≡ false = ground arith in
        rw (m, broadcast) ((table4_iff addr).1 h),
  )

  classify_v6-none_iff : (addr : ℕ) → (classify_v6 crate addr ≡ none) ↔ Outside 128 v6_table addr
  unfolding classify_v6 to_ipv4_mapped
  classify_v6-none_iff addr = (
    λ h. (table6_iff addr).0 (ground arith),
    λ h.
        let m : (addr == metadata_v6) ≡ false = ground arith in
        let mapped : (addr / 2 ^ 32 == 0xffff) ≡ false = ground arith in
        rw (m, mapped) ((table6_iff addr).1 h),
  )

  -- Where `ipnet` compares network bits, an address counts as ordinary global unicast exactly when it
  -- lies in none of the special-use ranges of its family, each taken from its first to its last address:
  -- the metadata endpoints, the broadcast address and the IPv4-mapped addresses add nothing to them.
  pub is_global_unicast_iff :
      (addr : IpAddr) → (is_global_unicast crate addr ≡ true) ↔ OutsideRanges addr
  unfolding is_global_unicast
  is_global_unicast_iff (v4 a) = (
    λ h. (classify_v4-none_iff a).0 (ground arith),
    λ h. let e = (classify_v4-none_iff a).1 h in ground arith,
  )
  is_global_unicast_iff (v6 a) = (
    λ h. (classify_v6-none_iff a).0 (ground arith),
    λ h. let e = (classify_v6-none_iff a).1 h in ground arith,
  )

-- An IPv4-mapped IPv6 address has the class of its IPv4 address, or else counts as a translation range:
-- it is never global unicast.
pub classify-mapped :
    (crate : IpnetCrate) (a : ℕ)
    → a < 2 ^ 32
    → (classify crate (v6 (0xffff * 2 ^ 32 + a))
        ≡ some (Option.get_or (classify crate (v4 a)) translation))
      × (is_global_unicast crate (v6 (0xffff * 2 ^ 32 + a)) ≡ false)
unfolding classify classify_v6 to_ipv4_mapped is_global_unicast
classify-mapped crate a h =
    let top : (0xffff * 2 ^ 32 + a) / 2 ^ 32 ≡ 0xffff = omega arith in
    let low : (0xffff * 2 ^ 32 + a) % 2 ^ 32 ≡ a = omega arith in
    let other : (0xffff * 2 ^ 32 + a == metadata_v6) ≡ false = ground arith in
    (ground arith, ground arith)
