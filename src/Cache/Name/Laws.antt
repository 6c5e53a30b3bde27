-- ===== src/Cache/Name/Laws.antt =====
-- `normalize_name` and `name_in_suffix` of src/cache/mod.rs.
use egressdns.Prelude.{
  Bool, Bool-cases, List, [], ap, arith, drop, false, get_or, inl, inr, length, length-append, ltb,
  refl, suc, sym, take, take-append-drop, true, zero, ℕ, ◌&&◌, ◌++◌, ◌+◌, ◌-◌, ◌<◌, ◌==◌, ◌↔◌, ◌∙◌,
  ◌∷◌, ◌≡◌, ◌⊎◌,
}
use native.Mathlib.Nat.{zero-add, suc-add}
use egressdns.Cache.Name.{
  lower_byte, to_ascii_lowercase, ends_with_dot, normalize_name, str_eq, ends_with, name_in_suffix,
}

abbrev pub dot : List ℕ
dot = b'.' ∷ []

lower_byte_idem : (x : ℕ) → lower_byte (lower_byte x) ≡ lower_byte x
unfolding lower_byte
lower_byte_idem x = ground arith

lower_byte-dot : (x : ℕ) → (lower_byte x == b'.') ≡ (x == b'.')
unfolding lower_byte
lower_byte-dot x = ground arith

to_ascii_lowercase_idem :
    (s : List ℕ) → to_ascii_lowercase (to_ascii_lowercase s) ≡ to_ascii_lowercase s
unfolding to_ascii_lowercase
to_ascii_lowercase_idem [] = refl
to_ascii_lowercase_idem (x ∷ s) = cc (lower_byte_idem x, to_ascii_lowercase_idem s)

ends_with_dot-append : (s : List ℕ) → ends_with_dot (s ++ dot) ≡ true
unfolding ends_with_dot
ends_with_dot-append [] = refl
ends_with_dot-append (x ∷ []) = refl
ends_with_dot-append (x ∷ y ∷ s) = ends_with_dot-append (y ∷ s)

ends_with_dot-lower : (s : List ℕ) → ends_with_dot (to_ascii_lowercase s) ≡ ends_with_dot s
unfolding ends_with_dot to_ascii_lowercase
ends_with_dot-lower [] = refl
ends_with_dot-lower (x ∷ []) = lower_byte-dot x
ends_with_dot-lower (x ∷ y ∷ s) = ends_with_dot-lower (y ∷ s)

lower-append_dot : (s : List ℕ) → to_ascii_lowercase (s ++ dot) ≡ to_ascii_lowercase s ++ dot
unfolding to_ascii_lowercase lower_byte
lower-append_dot [] = refl
lower-append_dot (x ∷ s) = ap (◌∷◌ (lower_byte x)) (lower-append_dot s)

ends_with_dot-normalize : (s : List ℕ) → ends_with_dot (normalize_name s) ≡ true
unfolding normalize_name
ends_with_dot-normalize s = ground (arith, ends_with_dot-append (to_ascii_lowercase s))

to_ascii_lowercase-normalize :
    (s : List ℕ) → to_ascii_lowercase (normalize_name s) ≡ normalize_name s
unfolding normalize_name
to_ascii_lowercase-normalize s =
    ground (arith, to_ascii_lowercase_idem s, lower-append_dot (to_ascii_lowercase s))

normalize_name-fixed :
    (n : List ℕ) → to_ascii_lowercase n ≡ n → ends_with_dot n ≡ true → normalize_name n ≡ n
unfolding normalize_name
normalize_name-fixed n h d = ground arith

normalize_name-dot :
    (s : List ℕ) → ends_with_dot s ≡ false → normalize_name (s ++ dot) ≡ normalize_name s
unfolding normalize_name
normalize_name-dot s h =
    ground (
      arith,
      ends_with_dot-lower s,
      lower-append_dot s,
      ends_with_dot-append (to_ascii_lowercase s),
    )

normalize_name-lower : (s : List ℕ) → normalize_name (to_ascii_lowercase s) ≡ normalize_name s
unfolding normalize_name
normalize_name-lower s = ground (arith, to_ascii_lowercase_idem s)

-- A normalised name ends with a dot and is a fixed point: spelling in capitals, or leaving the final
-- dot away, makes no other key.
pub normalize_name-canonical :
    (s : List ℕ)
    → (ends_with_dot (normalize_name s) ≡ true)
      × (normalize_name (normalize_name s) ≡ normalize_name s)
      × (normalize_name (to_ascii_lowercase s) ≡ normalize_name s)
      × (ends_with_dot s ≡ false → normalize_name (s ++ dot) ≡ normalize_name s)
normalize_name-canonical s = (
  ends_with_dot-normalize s,
  normalize_name-fixed _ (to_ascii_lowercase-normalize s) (ends_with_dot-normalize s),
  normalize_name-lower s,
  normalize_name-dot s,
)

pub str_eq_iff : (s t : List ℕ) → (str_eq s t ≡ true) ↔ (s ≡ t)
unfolding str_eq
str_eq_iff [] [] = (λ _. refl, λ _. refl)
str_eq_iff [] (y ∷ t) = (λ h. cc, λ h. cc)
str_eq_iff (x ∷ s) [] = (λ h. cc, λ h. cc)
str_eq_iff (x ∷ s) (y ∷ t) =
    (λ h. ground (arith, str_eq_iff s t), λ h. ground (arith, str_eq_iff s t))

drop-suc : (s : List ℕ) (i : ℕ) → i < length s → drop i s ≡ get_or s i 0 ∷ drop (suc i) s
drop-suc [] i h = elim h [ ]
drop-suc (x ∷ s) zero h = refl
drop-suc (x ∷ s) (suc i) h = drop-suc s i (omega arith)

pub drop-append : (p s : List ℕ) (i : ℕ) → drop (length p + i) (p ++ s) ≡ drop i s
drop-append [] s i = rw zero-add refl
drop-append (x ∷ p) s i = rw suc-add (drop-append p s i)

get_or-append : (p s : List ℕ) (x : ℕ) → get_or (p ++ x ∷ s) (length p) 0 ≡ x
get_or-append [] s x = refl
get_or-append (y ∷ p) s x = get_or-append p s x

-- What follows a dot is the suffix, and the name is longer than it.
unfoldable pub ends_at_dot : List ℕ → List ℕ → Bool
ends_at_dot name suffix =
    ends_with name suffix
    && (ltb (length suffix) (length name)
        && get_or name (length name - length suffix - 1) 0 == b'.')

pub ends_at_dot_sound : (n s : List ℕ) → ends_at_dot n s ≡ true → (p : List ℕ) × (n ≡ p ++ b'.' ∷ s)
unfolding ends_at_dot ends_with
ends_at_dot_sound n s h =
    let i = length n - length s - 1 in
    let tail_eq : drop (length n - length s) n ≡ s = (str_eq_iff _ _).0 (ground arith) in
    let byte : get_or n i 0 ≡ b'.' = ground arith in
    let len : length s < length n = ground arith in
    let k : suc i ≡ length n - length s = omega arith in
    let split : drop i n ≡ b'.' ∷ s =
      cc (drop-suc n i (omega arith), byte, ap (λ j. drop j n) k, tail_eq) in
    (take i n, sym (take-append-drop i n) ∙ ap (◌++◌ (take i n)) split)

pub ends_at_dot_complete : (p s : List ℕ) → ends_at_dot (p ++ b'.' ∷ s) s ≡ true
unfolding ends_at_dot ends_with
ends_at_dot_complete p s =
    let n = p ++ b'.' ∷ s in
    let len : length n - length s ≡ length p + 1 = omega (arith, length-append p (b'.' ∷ s)) in
    let before : length n - length s - 1 ≡ length p = omega arith in
    let tail_eq : drop (length n - length s) n ≡ s =
      ap (λ j. drop j n) len ∙ drop-append p (b'.' ∷ s) 1 in
    let byte : get_or n (length n - length s - 1) 0 ≡ b'.' =
      ap (λ j. get_or n j 0) before ∙ get_or-append p s b'.' in
    let same : str_eq (drop (length n - length s) n) s ≡ true = (str_eq_iff _ _).1 tail_eq in
    ground arith

-- A name is in a suffix exactly when the suffix is the root, or the name itself, or what follows one
-- of the name's dots: whole labels, never a part of one.
pub name_in_suffix_iff :
    (n s : List ℕ)
    → (name_in_suffix n s ≡ true) ↔ ((n ≡ s) ⊎ (s ≡ dot) ⊎ ((p : List ℕ) × (n ≡ p ++ b'.' ∷ s)))
name_in_suffix_iff n s = (sound, complete)
  where
    sound : name_in_suffix n s ≡ true → (n ≡ s) ⊎ (s ≡ dot) ⊎ ((p : List ℕ) × (n ≡ p ++ b'.' ∷ s))
    sound h = elim (Bool-cases (str_eq n s)) [
      | inl e ↦ inl ((str_eq_iff n s).0 e)
      | inr e ↦ elim (Bool-cases (str_eq s dot)) [
        | inl d ↦ inr (inl ((str_eq_iff s dot).0 d))
        | inr d ↦
            inr (inr (ends_at_dot_sound n s (unfold name_in_suffix ends_at_dot in ground arith)))
      ]
    ]

    complete :
        (n ≡ s) ⊎ (s ≡ dot) ⊎ ((p : List ℕ) × (n ≡ p ++ b'.' ∷ s)) → name_in_suffix n s ≡ true
    complete (inl e) = unfold name_in_suffix in ground (arith, (str_eq_iff n s).1 e)
    complete (inr (inl d)) = unfold name_in_suffix in ground (arith, (str_eq_iff s dot).1 d)
    complete (inr (inr (p, e))) =
        let t : ends_at_dot n s ≡ true = rw e (ends_at_dot_complete p s) in
        unfold name_in_suffix ends_at_dot in ground arith
