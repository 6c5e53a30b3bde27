-- ===== src/Prelude/Members.antt =====
-- Members of a list by their positions, and of its permutations.
use Prim.Native.Nat.{ℕ, zero, suc}
use mathlib.Core.Path.{◌≡◌, refl, sym}
use mathlib.Core.Logic.{◌⊎◌, inl, inr, ∥∥₁_elim}
use mathlib.Core.Option.{some}
use mathlib.Core.List.{List, [], ◌∷◌, Memᴰ, Perm}
use mathlib.Core.List.Perm
use egressdns.Prelude.Lists.{get_elem?}
use egressdns.Prelude.Partial.{none≢some, some-injective}

pub List-cases {ℓ} :
    {A : Type ℓ} (xs : List A) → (xs ≡ []) ⊎ ((x : A) × (ys : List A) × (xs ≡ x ∷ ys))
List-cases [] = inl refl
List-cases (x ∷ xs) = inr (x, xs, refl)

module _ {A : Type 0} where
  Memᴰ-get_elem? : (xs : List A) (j : ℕ) {x : A} → get_elem? xs j ≡ some x → Memᴰ x xs
  Memᴰ-get_elem? [] j h = absurd (none≢some h)
  Memᴰ-get_elem? (y ∷ xs) zero h = Memᴰ.head (sym (some-injective h))
  Memᴰ-get_elem? (y ∷ xs) (suc j) h = Memᴰ.tail (Memᴰ-get_elem? xs j h)

  get_elem?-Memᴰ : (xs : List A) {x : A} → Memᴰ x xs → (j : ℕ) × (get_elem? xs j ≡ some x)
  get_elem?-Memᴰ [] m = elim m [ ]
  get_elem?-Memᴰ (y ∷ xs) (Memᴰ.head e) = (0, λ i. some (sym e i))
  get_elem?-Memᴰ (y ∷ xs) (Memᴰ.tail m) = let (j, h) = get_elem?-Memᴰ xs m in (suc j, h)

  -- A member of a list stands somewhere in each of its permutations.
  pub get_elem?-Perm :
      {xs ys : List A}
      → Perm xs ys
      → (j : ℕ) (x : A) → get_elem? xs j ≡ some x
      → {P : Type 0} → IsProp P
      → ((i : ℕ) → get_elem? ys i ≡ some x → P)
      → P
  get_elem?-Perm {xs} {ys} p j x h is_prop k =
      ∥∥₁_elim ((Perm.mem_iff p).0 ∣ Memᴰ-get_elem? xs j h ∣₁) is_prop
        (λ m. let (i, e) = get_elem?-Memᴰ ys m in k i e)
