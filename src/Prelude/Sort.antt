-- ===== src/Prelude/Sort.antt =====
-- Sorting by a comparison: `sort_by` is stable, and so is insertion.
use Prim.Native.Nat.{ℕ, zero, suc, ◌+◌, ◌<◌}
use mathlib.Core.Path.{◌≡◌, refl, sym, ap, ◌∙◌}
use mathlib.Core.Logic.{◌⊎◌, inl, inr}
use mathlib.Core.Bool.{Bool}
use mathlib.Core.List.{List, [], ◌∷◌, Perm}
use mathlib.Core.List.Perm
use mathlib.Core.List
use native.Mathlib.Omega.{arith}
use egressdns.Prelude.Tests.{if◌then◌else◌, Bool-cases}
use egressdns.Prelude.Lists.{length, get_or}

-- `le a b` is that `a` does not compare greater than `b`.
module _ {A : Type 0} (le : A → A → Bool) where
  unfoldable pub insert_sorted : A → List A → List A
  insert_sorted x [] = x ∷ []
  insert_sorted x (y ∷ ys) = if le x y then x ∷ y ∷ ys else y ∷ insert_sorted x ys

  unfoldable pub sort : List A → List A
  unfolding insert_sorted
  sort [] = []
  sort (x ∷ xs) = insert_sorted x (sort xs)

  insert_sorted-Perm : (x : A) (ys : List A) → Perm (insert_sorted x ys) (x ∷ ys)
  unfolding insert_sorted
  insert_sorted-Perm x [] = Perm.refl _
  insert_sorted-Perm x (y ∷ ys) =
      let swapped = Perm.trans (Perm.cons y (insert_sorted-Perm x ys)) (Perm.swap x y ys) in
      elim (Bool-cases (le x y)) [
        | inl first ↦ rw first (Perm.refl _)
        | inr later ↦ rw later swapped
      ]

  pub sort-Perm : (xs : List A) → Perm (sort xs) xs
  unfolding sort
  sort-Perm [] = Perm.refl _
  sort-Perm (x ∷ xs) = Perm.trans (insert_sorted-Perm x (sort xs)) (Perm.cons x (sort-Perm xs))

  length-insert_sorted : (x : A) (ys : List A) → length (insert_sorted x ys) ≡ length ys + 1
  unfolding insert_sorted
  length-insert_sorted x [] = omega arith
  length-insert_sorted x (y ∷ ys) = ground (arith, length-insert_sorted x ys)

  pub length-sort : (xs : List A) → length (sort xs) ≡ length xs
  unfolding sort
  length-sort [] = refl
  length-sort (x ∷ xs) = omega (arith, length-insert_sorted x (sort xs), length-sort xs)

length-foldr : {A : Type 0} (xs : List A) → List.foldr (λ (x : A) (n : ℕ). suc n) 0 xs ≡ length xs
length-foldr [] = refl
length-foldr (x ∷ xs) = ap suc (length-foldr xs)

-- A permutation keeps the length.
pub length-Perm : {A : Type 0} {xs ys : List A} → Perm xs ys → length xs ≡ length ys
length-Perm {A} {xs} {ys} p =
    let is_set : IsSet ℕ = hlevel in
    sym (length-foldr xs)
    ∙ Perm.foldr-eq is_set (λ (x : A) (n : ℕ). suc n) (λ a b n. refl) p 0
    ∙ length-foldr ys

module _ {A : Type 0} where
  -- It stands in the list.
  abbrev pub In : A → List A → Type 0
  In x [] = ⊥
  In x (y ∷ ys) = (x ≡ y) ⊎ In x ys

  pub In-get_or : (ys : List A) (i : ℕ) (d : A) → i < length ys → In (get_or ys i d) ys
  In-get_or [] i d h = elim h [ ]
  In-get_or (y ∷ ys) zero d h = inl refl
  In-get_or (y ∷ ys) (suc i) d h = inr (In-get_or ys i d (omega arith))

module _ {A : Type 0} (le : A → A → Bool) where
  In-insert_sorted : (x y : A) (ys : List A) → In x (insert_sorted le y ys) → (x ≡ y) ⊎ In x ys
  unfolding insert_sorted
  In-insert_sorted x y [] h = h
  In-insert_sorted x y (z ∷ ys) h = elim (Bool-cases (le y z)) [
    | inl e ↦ rw e at h
    | inr e ↦
        let here : (x ≡ z) ⊎ In x (insert_sorted le y ys) = rw e at h in
        elim here [
          | inl p ↦ inr (inl p)
          | inr r ↦ elim (In-insert_sorted x y ys r) [ inl p ↦ inl p | inr q ↦ inr (inr q) ]
        ]
  ]

  pub In-sort : (x : A) (ys : List A) → In x (sort le ys) → In x ys
  unfolding sort
  In-sort x [] h = h
  In-sort x (y ∷ ys) h = elim (In-insert_sorted x y (sort le ys) h) [
    | inl p ↦ inl p
    | inr q ↦ inr (In-sort x ys q)
  ]
