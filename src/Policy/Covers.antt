-- ===== src/Policy/Covers.antt =====
-- `rrset_groups` of src/policy/answer.rs misses no record of the queried type, and reordering keeps the
-- addresses of the only RRset.
use egressdns.Prelude.{
  ==_iff, Bool-cases, List, Option-cases, [], ap, arith, get_elem?, if_neg, if_pos, inl, inr,
  none≢some, refl, some, some-injective, subst, suc, sym, true, zero, ℕ, ℕ_discrete, ◌++◌, ◌+◌,
  ◌==◌, ◌>>=◌, ◌∙◌, ◌∷◌, ◌≡◌, ◌⊎◌,
}
use egressdns.Net.{IpAddr, same_address, same_address_self}
use egressdns.Message.{Hickory, Record, record_type}
use egressdns.Policy.Answer.{
  addresses_of, groups_from, holds, join_group, record_address, rrset_groups,
}
use egressdns.Policy.Reorder.{NotIn}

abbrev pub HasIndex : ℕ → List ℕ → Type 0
HasIndex j [] = ⊥
HasIndex j (i ∷ is) = (j ≡ i) ⊎ HasIndex j is

abbrev pub Covered : {A : Type 0} → ℕ → List (A × List ℕ) → Type 0
Covered j [] = ⊥
Covered j ((name, is) ∷ gs) = HasIndex j is ⊎ Covered j gs

HasIndex-snoc_new : (j : ℕ) (is : List ℕ) → HasIndex j (is ++ j ∷ [])
HasIndex-snoc_new j [] = inl refl
HasIndex-snoc_new j (i ∷ is) = inr (HasIndex-snoc_new j is)

HasIndex-snoc_old : (j n : ℕ) (is : List ℕ) → HasIndex j is → HasIndex j (is ++ n ∷ [])
HasIndex-snoc_old j n [] h = elim h [ ]
HasIndex-snoc_old j n (i ∷ is) (inl e) = inl e
HasIndex-snoc_old j n (i ∷ is) (inr h) = inr (HasIndex-snoc_old j n is h)

pub HasIndex-or_not : (j : ℕ) (is : List ℕ) → HasIndex j is ⊎ NotIn j is
HasIndex-or_not j [] = inr tt
HasIndex-or_not j (i ∷ is) = elim (ℕ_discrete j i) [
  | yes e ↦ inl (inl e)
  | no ne ↦ elim (HasIndex-or_not j is) [ inl h ↦ inl (inr h) | inr h ↦ inr (ne, h) ]
]

module _ (k : Hickory) (name : k.Name) (n : ℕ) where
  join_group-Covered_new : (gs : List (k.Name × List ℕ)) → Covered n (join_group k name n gs)
  unfolding join_group
  join_group-Covered_new [] = inl (inl refl)
  join_group-Covered_new ((m, is) ∷ gs) = elim (k.name_discrete m name) [
    | yes e ↦ rw (if_pos (k.name_discrete m name) e) (inl (HasIndex-snoc_new n is))
    | no e ↦ rw (if_neg (k.name_discrete m name) e) (inr (join_group-Covered_new gs))
  ]

  join_group-Covered_old :
      (j : ℕ) (gs : List (k.Name × List ℕ)) → Covered j gs → Covered j (join_group k name n gs)
  unfolding join_group
  join_group-Covered_old j [] h = elim h [ ]
  join_group-Covered_old j ((m, is) ∷ gs) h = elim (k.name_discrete m name) [
    | yes e ↦
        rw (if_pos (k.name_discrete m name) e)
          (elim h [ inl h' ↦ inl (HasIndex-snoc_old j n is h') | inr h' ↦ inr h' ])
    | no e ↦
        rw (if_neg (k.name_discrete m name) e)
          (elim h [ inl h' ↦ inl h' | inr h' ↦ inr (join_group-Covered_old j gs h') ])
  ]

module _ {k : Hickory} (rtype : ℕ) where
  groups_from-Covered_old :
      (i j : ℕ) (rs : List (Record k)) (gs : List (k.Name × List ℕ))
      → Covered j gs
      → Covered j (groups_from rtype i rs gs)
  unfolding groups_from
  groups_from-Covered_old i j [] gs h = h
  groups_from-Covered_old i j (r ∷ rs) gs h = elim (Bool-cases (record_type r == rtype)) [
    | inl e ↦ rw e (
        groups_from-Covered_old (i + 1) j rs (join_group k r.name i gs)
          (join_group-Covered_old k r.name i j gs h))
    | inr e ↦ rw e (groups_from-Covered_old (i + 1) j rs gs h)
  ]

  groups_from-Covered :
      (i j : ℕ) (rs : List (Record k)) (gs : List (k.Name × List ℕ)) (r : Record k)
      → get_elem? rs j ≡ some r
      → record_type r ≡ rtype
      → Covered (i + j) (groups_from rtype i rs gs)
  unfolding groups_from
  groups_from-Covered i j [] gs r h t = absurd (none≢some h)
  groups_from-Covered i zero (x ∷ rs) gs r h t =
      let here : record_type x ≡ rtype = ap record_type (some-injective h) ∙ t in
      let e : (record_type x == rtype) ≡ true = (==_iff (record_type x) rtype).1 here in
      let found =
        groups_from-Covered_old (i + 1) i rs (join_group k x.name i gs)
          (join_group-Covered_new k x.name i gs) in
      rw e (
        subst (λ n. Covered n (groups_from rtype (i + 1) rs (join_group k x.name i gs)))
          (omega arith) found)
  groups_from-Covered i (suc j) (x ∷ rs) gs r h t =
      let next : i + 1 + j ≡ i + suc j = omega arith in
      elim (Bool-cases (record_type x == rtype)) [
        | inl e ↦ rw e (
            subst (λ n. Covered n (groups_from rtype (i + 1) rs (join_group k x.name i gs))) next
              (groups_from-Covered (i + 1) j rs (join_group k x.name i gs) r h t))
        | inr e ↦ rw e (
            subst (λ n. Covered n (groups_from rtype (i + 1) rs gs)) next
              (groups_from-Covered (i + 1) j rs gs r h t))
      ]

  pub rrset_groups-Covered :
      (xs : List (Record k)) (j : ℕ) (r : Record k)
      → get_elem? xs j ≡ some r
      → record_type r ≡ rtype
      → Covered j (rrset_groups xs rtype)
  unfolding rrset_groups
  rrset_groups-Covered xs j r h t =
      subst (λ n. Covered n (groups_from rtype 0 xs [])) (omega arith)
        (groups_from-Covered 0 j xs [] r h t)

  pub holds-addresses_of :
      (xs : List (Record k)) (is : List ℕ) (j : ℕ) (r : Record k) (a : IpAddr)
      → HasIndex j is
      → get_elem? xs j ≡ some r
      → record_address r ≡ some a
      → holds (addresses_of xs is) a ≡ true
  unfolding addresses_of holds
  holds-addresses_of xs [] j r a m h e = elim m [ ]
  holds-addresses_of xs (i ∷ is) j r a (inl here) h e =
      let read : (get_elem? xs i >>= record_address) ≡ some a = rw (sym here, h) e in
      rw (read, same_address_self a, holds) refl
  holds-addresses_of xs (i ∷ is) j r a (inr later) h e =
      let rest = holds-addresses_of xs is j r a later h e in
      elim (Option-cases (get_elem? xs i >>= record_address)) [
        | inl none_here ↦ rw (none_here, holds) rest
        | inr (b, some_here) ↦ elim (Bool-cases (same_address b a)) [
          | inl eq ↦ rw (some_here, eq, holds) refl
          | inr ne ↦ rw (some_here, ne, holds) rest
        ]
      ]
