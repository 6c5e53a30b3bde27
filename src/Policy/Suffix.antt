-- ===== src/Policy/Suffix.antt =====
-- The last two labels of a name, as src/policy/corroborate.rs takes them.
use egressdns.Prelude.{
  Bool-cases, List, [], ap, arith, drop, drop-length_append, false, if◌then◌else◌, inl, inr, leb,
  length, length-append, refl, subst, sym, ℕ, ◌++◌, ◌+◌, ◌-◌, ◌<◌, ◌==◌, ◌∙◌, ◌∷◌, ◌≡◌, ◌≤◌, ◌⊎◌,
}
use egressdns.Policy.Corroborate.{join_dots, last_two, split_dots}

unfoldable pub dots : List ℕ → ℕ
dots [] = 0
dots (b ∷ s) = let n = dots s in if b == b'.' then n + 1 else n

-- All of a text with one dot at most, or what follows a dot and has one dot itself.
abbrev pub IsLastTwo : List ℕ → List ℕ → Type 0
IsLastTwo text s =
    ((dots text ≤ 1) × (s ≡ text)) ⊎ ((p : List ℕ) × (text ≡ p ++ b'.' ∷ s) × (dots s ≡ 1))

abbrev labels : List ℕ → List (List ℕ)
labels s = (split_dots s).0 ∷ (split_dots s).1

length-labels : (s : List ℕ) → length (labels s) ≡ dots s + 1
unfolding split_dots dots
length-labels [] = refl
length-labels (b ∷ s) = ground (arith, length-labels s)

join-cons :
    (b : ℕ) (l : List ℕ) (ls : List (List ℕ)) → join_dots ((b ∷ l) ∷ ls) ≡ b ∷ join_dots (l ∷ ls)
unfolding join_dots
join-cons b l [] = refl
join-cons b l (m ∷ ls) = refl

join-labels : (s : List ℕ) → join_dots (labels s) ≡ s
unfolding split_dots join_dots
join-labels [] = refl
join-labels (b ∷ s) = elim (Bool-cases (b == b'.')) [
  | inl e ↦
      let dot : b'.' ≡ b = ground arith in
      rw e (ap (λ t. b'.' ∷ t) (join-labels s) ∙ ap (λ c. c ∷ s) dot)
  | inr e ↦ rw e (join-cons b _ _ ∙ ap (λ t. b ∷ t) (join-labels s))
]

split-append :
    (p s : List ℕ) → split_dots (p ++ b'.' ∷ s) ≡ ((split_dots p).0, (split_dots p).1 ++ labels s)
unfolding split_dots
split-append [] s = refl
split-append (b ∷ p) s =
    let below = split-append p s in
    elim (Bool-cases (b == b'.')) [ inl e ↦ rw (below, e) refl | inr e ↦ rw (below, e) refl ]

labels-append : (p s : List ℕ) → labels (p ++ b'.' ∷ s) ≡ labels p ++ labels s
labels-append p s = ap (λ (x : List ℕ × List (List ℕ)). x.0 ∷ x.1) (split-append p s)

-- There is one last part with a single dot in a text with more.
cut : (text : List ℕ) → 1 < dots text → (p s : List ℕ) × (text ≡ p ++ b'.' ∷ s) × (dots s ≡ 1)
unfolding dots
cut [] h = absurd (omega arith)
cut (b ∷ t) h = elim (Bool-cases (leb (dots t) 1)) [
  | inl few ↦ let dot : b ≡ b'.' = ground arith in ([], t, ap (λ c. c ∷ t) dot, ground arith)
  | inr many ↦ let (p, s, e, one) = cut t (ground arith) in (b ∷ p, s, ap (λ x. b ∷ x) e, one)
]

pub last_two_unique : (text s : List ℕ) → IsLastTwo text s → last_two text ≡ s
unfolding last_two
last_two_unique text s (inl (few, same)) = let n = length-labels text in ground arith
last_two_unique text s (inr (p, e, one)) =
    let parts : labels text ≡ labels p ++ labels s = ap (λ t. labels t) e ∙ labels-append p s in
    let two = length-labels s in
    let all = ap (λ (x : List (List ℕ)). length x) parts ∙ length-append (labels p) (labels s) in
    let three : leb (length (labels text)) 2 ≡ false = ground arith in
    let front : length (labels text) - 2 ≡ length (labels p) = omega arith in
    let last : drop (length (labels text) - 2) (labels text) ≡ labels s =
      ap (λ n. drop n (labels text)) front
      ∙ ap (λ x. drop (length (labels p)) x) parts
      ∙ drop-length_append (labels p) (labels s) in
    rw three (ap join_dots last ∙ join-labels s)

pub last_two-IsLastTwo : (text : List ℕ) → IsLastTwo text (last_two text)
last_two-IsLastTwo text = elim (Bool-cases (leb (dots text) 1)) [
  | inl few ↦ let e = last_two_unique text text (inl (ground arith, refl)) in inl (ground arith, e)
  | inr many ↦
      let (p, s, e, one) = cut text (ground arith) in
      subst (IsLastTwo text) (sym (last_two_unique text s (inr (p, e, one)))) (inr (p, e, one))
]
