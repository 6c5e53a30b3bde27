-- ===== src/Policy/Excluded.antt =====
-- Which domains `is_excluded` of src/policy/cloudflare.rs excludes.
use egressdns.Prelude.{
  Bool-cases, List, [], ap, arith, drop, false, inl, inr, length, length-append, refl, sym, take,
  take-append-drop, true, ℕ, ◌++◌, ◌+◌, ◌-◌, ◌==◌, ◌↔◌, ◌∙◌, ◌∷◌, ◌≡◌, ◌⊎◌,
}
use egressdns.Cache.Name.{ends_with, str_eq}
use egressdns.Cache.Name.Laws.{str_eq_iff, drop-append}
use egressdns.Policy.Domains.{folded, matches_folded, matches_domain, any_matches, is_excluded}
use mathlib.Core.Bool.{true≢false}

ends_with_sound : (s t : List ℕ) → ends_with s t ≡ true → (p : List ℕ) × (s ≡ p ++ t)
unfolding ends_with
ends_with_sound s t h =
    let i = length s - length t in
    let tail_eq : drop i s ≡ t = (str_eq_iff _ _).0 (ground arith) in
    (take i s, sym (take-append-drop i s) ∙ ap (◌++◌ (take i s)) tail_eq)

ends_with-append : (p t : List ℕ) → ends_with (p ++ t) t ≡ true
unfolding ends_with
ends_with-append p t =
    let s = p ++ t in
    let size : length s ≡ length p + length t = length-append p t in
    let cut : length s - length t ≡ length p + 0 = omega arith in
    let tail_eq : drop (length s - length t) s ≡ t = ap (λ j. drop j s) cut ∙ drop-append p t 0 in
    let same : str_eq (drop (length s - length t) s) t ≡ true = (str_eq_iff _ _).1 tail_eq in
    ground arith

-- What a folded pattern covers: one that starts with a dot, the domain after the dot and all that ends
-- with the pattern; another one, itself.
pub data Covers (name : List ℕ) : List ℕ → Type 0 where
  apex : (suffix : List ℕ) → name ≡ suffix → Covers name (b'.' ∷ suffix)
  beneath : (suffix p : List ℕ) → name ≡ p ++ b'.' ∷ suffix → Covers name (b'.' ∷ suffix)
  exact : (b : ℕ) (rest : List ℕ) → (b == b'.') ≡ false → name ≡ b ∷ rest → Covers name (b ∷ rest)

matches_folded-Covers : (n p : List ℕ) → matches_folded n p ≡ true → Covers n p
unfolding matches_folded
matches_folded-Covers n [] h = absurd (true≢false (sym h))
matches_folded-Covers n (b ∷ s) h = elim (Bool-cases (b == b'.')) [
  | inl d ↦
      let at : b ≡ b'.' = ground arith in
      elim (Bool-cases (str_eq n s)) [
        | inl e ↦ rw at (apex s ((str_eq_iff n s).0 e))
        | inr e ↦
            let (q, tail) = ends_with_sound n (b'.' ∷ s) (ground arith) in rw at (beneath s q tail)
      ]
  | inr d ↦ exact b s d ((str_eq_iff n (b ∷ s)).0 (ground arith))
]

Covers-matches_folded : (n p : List ℕ) → Covers n p → matches_folded n p ≡ true
unfolding matches_folded
Covers-matches_folded n _ (apex s e) = ground (arith, (str_eq_iff n s).1 e)
Covers-matches_folded n _ (beneath s q e) =
    let t : ends_with n (b'.' ∷ s) ≡ true = rw e (ends_with-append q (b'.' ∷ s)) in ground arith
Covers-matches_folded n _ (exact b r ne e) = ground (arith, (str_eq_iff n (b ∷ r)).1 e)

-- Some pattern of the list covers the name.
abbrev pub Covered : List ℕ → List (List ℕ) → Type 0
Covered name [] = ⊥
Covered name (d ∷ patterns) = Covers name (folded d) ⊎ Covered name patterns

any_matches-Covered : (n : List ℕ) (ps : List (List ℕ)) → any_matches n ps ≡ true → Covered n ps
unfolding any_matches matches_domain
any_matches-Covered n [] h = absurd (true≢false (sym h))
any_matches-Covered n (d ∷ ps) h = elim (Bool-cases (matches_folded n (folded d))) [
  | inl e ↦ inl (matches_folded-Covers n (folded d) e)
  | inr e ↦ inr (any_matches-Covered n ps (ground arith))
]

Covered-any_matches : (n : List ℕ) (ps : List (List ℕ)) → Covered n ps → any_matches n ps ≡ true
unfolding any_matches matches_domain
Covered-any_matches n [] h = elim h [ ]
Covered-any_matches n (d ∷ ps) (inl c) =
    let t = Covers-matches_folded n (folded d) c in ground arith
Covered-any_matches n (d ∷ ps) (inr c) = let t = Covered-any_matches n ps c in ground arith

-- A domain is not excluded exactly when no pattern of the deny list covers its folded name and either the
-- allow list is empty or one of its patterns covers it.
pub is_excluded_iff :
    (name : List ℕ) (allow deny : List (List ℕ))
    → (is_excluded name allow deny ≡ false)
      ↔ ((¬ Covered (folded name) deny) × ((allow ≡ []) ⊎ Covered (folded name) allow))
unfolding is_excluded
is_excluded_iff name [] deny = (
  λ h. (λ c. true≢false (sym (Covered-any_matches _ deny c) ∙ ground arith), inl refl),
  λ h. elim (Bool-cases (any_matches (folded name) deny)) [
    | inl e ↦ absurd (h.0 (any_matches-Covered _ deny e))
    | inr e ↦ ground arith
  ],
)
is_excluded_iff name (a ∷ rest) deny = (
  λ h. (
    λ c. true≢false (sym (Covered-any_matches _ deny c) ∙ ground arith),
    inr (any_matches-Covered _ (a ∷ rest) (ground arith)),
  ),
  λ h. elim (Bool-cases (any_matches (folded name) deny)) [
    | inl e ↦ absurd (h.0 (any_matches-Covered _ deny e))
    | inr e ↦ elim h.1 [
      | inl none_allowed ↦ cc
      | inr c ↦ let t = Covered-any_matches _ (a ∷ rest) c in ground arith
    ]
  ],
)
