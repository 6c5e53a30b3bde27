-- ===== src/SpecialUse/Laws.antt =====
-- Which names src/dns/specialuse.rs answers.
use egressdns.Prelude.{
  Bool, Bool-cases, List, Option, Option-cases, [], ap, arith, false, if◌then◌else◌, inl, inr,
  length, length-append, none, none≢some, refl, some, suc, sym, true, ℕ, ◌++◌, ◌+◌, ◌<◌, ◌↔◌, ◌∙◌,
  ◌∷◌, ◌≡◌, ◌≢◌, ◌≤◌, ◌⊎◌,
}
use egressdns.Cache.Name.{str_eq}
use egressdns.Cache.Name.Laws.{str_eq_iff, ends_at_dot, ends_at_dot_sound, ends_at_dot_complete}
use egressdns.SpecialUse.{
  nxdomain_suffixes, suffix_matches, nxdomain_registry, qualified, is_loop_marker, classify, bytes,
  Registry, Disposition, localhost, invalid, loopback, loop_marker, nx_domain,
}

true≢false : true ≢ false
true≢false e = cc

-- At the suffix or beneath it, by whole labels.
abbrev pub AtOrBeneath : List ℕ → List ℕ → Type 0
AtOrBeneath name suffix =
    (name ≡ suffix) ⊎ ((p : List ℕ) × (0 < length p) × (name ≡ p ++ b'.' ∷ suffix))

suffix_matches_sound : (n s : List ℕ) → suffix_matches n s ≡ true → AtOrBeneath n s
unfolding suffix_matches
suffix_matches_sound n s h = elim (Bool-cases (str_eq n s)) [
  | inl e ↦ inl ((str_eq_iff n s).0 e)
  | inr e ↦
      let dotted : ends_at_dot n s ≡ true = unfold ends_at_dot in ground arith in
      let longer : length s + 2 ≤ length n = ground arith in
      let (p, q) = ends_at_dot_sound n s dotted in
      let size : length n ≡ length p + suc (length s) = ap length q ∙ length-append p (b'.' ∷ s) in
      inr (p, omega arith, q)
]

suffix_matches_complete : (n s : List ℕ) → AtOrBeneath n s → suffix_matches n s ≡ true
unfolding suffix_matches
suffix_matches_complete n s (inl e) = ground (arith, (str_eq_iff n s).1 e)
suffix_matches_complete n s (inr (p, some_label, q)) =
    let dotted : ends_at_dot n s ≡ true = rw q (ends_at_dot_complete p s) in
    let size : length n ≡ length p + suc (length s) = ap length q ∙ length-append p (b'.' ∷ s) in
    unfold ends_at_dot in ground arith

-- A name matches a suffix exactly when it is the suffix or has at least one more byte, and a dot, before
-- it: whole labels, never a part of one.
pub suffix_matches_iff : (n s : List ℕ) → (suffix_matches n s ≡ true) ↔ AtOrBeneath n s
suffix_matches_iff n s = (suffix_matches_sound n s, suffix_matches_complete n s)

-- Some suffix of the table has the name at or beneath it.
abbrev pub Listed : List (List ℕ × Registry) → List ℕ → Type 0
Listed [] name = ⊥
Listed ((suffix, registry) ∷ rest) name = AtOrBeneath name suffix ⊎ Listed rest name

nxdomain_registry-none :
    (table : List (List ℕ × Registry)) (name : List ℕ)
    → nxdomain_registry table name ≡ none
    → ¬ Listed table name
unfolding nxdomain_registry
nxdomain_registry-none [] name h l = l
nxdomain_registry-none ((suffix, registry) ∷ rest) name h l = elim l [
  | inl at ↦ ground (arith, suffix_matches_complete name suffix at)
  | inr later ↦ nxdomain_registry-none rest name (ground arith) later
]

nxdomain_registry-some :
    (table : List (List ℕ × Registry)) (name : List ℕ) {registry : Registry}
    → nxdomain_registry table name ≡ some registry
    → Listed table name
unfolding nxdomain_registry
nxdomain_registry-some [] name {registry} h = absurd (none≢some h)
nxdomain_registry-some ((suffix, r) ∷ rest) name {registry} h =
    elim (Bool-cases (suffix_matches name suffix)) [
      | inl e ↦ inl (suffix_matches_sound name suffix e)
      | inr e ↦ inr (nxdomain_registry-some rest name {registry = registry} (ground arith))
    ]

-- The three tests of `classify` in their order.
abbrev choose : Bool → Bool → Option Registry → Option (Registry × Disposition)
choose a b o =
    if a
    then some (localhost, loopback)
    else if b
    then some (invalid, loop_marker)
    else elim o [ some registry ↦ some (registry, nx_domain) | none ↦ none ]

choose-none :
    (a b : Bool) (o : Option Registry)
    → choose a b o ≡ none
    → (a ≡ false) × (b ≡ false) × (o ≡ none)
choose-none true b o h = absurd (none≢some (sym h))
choose-none false true o h = absurd (none≢some (sym h))
choose-none false false none h = (refl, refl, refl)
choose-none false false (some r) h = absurd (none≢some (sym h))

unlisted-none :
    (table : List (List ℕ × Registry)) (name : List ℕ)
    → (¬ Listed table name)
    → nxdomain_registry table name ≡ none
unlisted-none table name h = elim (Option-cases (nxdomain_registry table name)) [
  | inl e ↦ e
  | inr (registry, e) ↦ absurd (h (nxdomain_registry-some table name e))
]

unmatched :
    (name suffix : List ℕ) → (suffix_matches name suffix ≡ false) ↔ (¬ AtOrBeneath name suffix)
unmatched name suffix = (
  λ e at. true≢false (sym (suffix_matches_complete name suffix at) ∙ e),
  λ h. elim (Bool-cases (suffix_matches name suffix)) [
    | inl e ↦ absurd (h (suffix_matches_sound name suffix e))
    | inr e ↦ e
  ],
)

-- A query goes on to normal resolution exactly when its lower-case, dot-terminated name is not
-- localhost or beneath it, is no loop marker, and is neither a name of the NXDOMAIN table nor beneath
-- one.
pub classify-none_iff :
    (qname : List ℕ)
    → let name = qualified qname in
      (classify qname ≡ none) ↔ (
        (¬ AtOrBeneath name (bytes "localhost."))
        × (is_loop_marker name ≡ false)
        × (¬ Listed nxdomain_suffixes name))
unfolding classify
classify-none_iff qname =
    let name = qualified qname in
    let a = suffix_matches name (bytes "localhost.") in
    let o = nxdomain_registry nxdomain_suffixes name in
    (
      λ h.
          let (x, y, z) = choose-none a (is_loop_marker name) o h in
          (
            (unmatched name (bytes "localhost.")).0 x,
            y,
            nxdomain_registry-none nxdomain_suffixes name z,
          ),
      λ (h, y, l).
          let x = (unmatched name (bytes "localhost.")).1 h in
          let z = unlisted-none nxdomain_suffixes name l in rw (x, y, z) refl,
    )
