-- ===== src/Policy/Reorder.antt =====
-- What `reorder_in_place` of src/policy/answer.rs keeps.
use egressdns.Prelude.{
  Bool-cases, List, Option, Option-cases, [], ap, arith, get_elem?, get_elem?-set_ne, inl, inr,
  length, length-Perm, length-set, map, none, none≢some, refl, set, some, some-injective, subst,
  suc, sym, zero, ℕ, ◌++◌, ◌<◌, ◌∙◌, ◌∷◌, ◌≡◌, ◌≢◌,
}
use egressdns.Net.{IpAddr, same_address}
use egressdns.Message.{Hickory, Record}
use egressdns.Policy.Answer.{
  passed, record_address, place, remaining, reorder_in_place, take_slot, write_at,
}
use mathlib.Core.List.{Perm, perm_middle, perm-append_left_iff}
use mathlib.Core.List.Perm

-- Distinct indices below a bound.
abbrev pub NotIn : ℕ → List ℕ → Type 0
NotIn i [] = Unit
NotIn i (j ∷ js) = (i ≢ j) × NotIn i js

abbrev pub Within : ℕ → List ℕ → Type 0
Within n [] = Unit
Within n (i ∷ is) = (i < n) × NotIn i is × Within n is

module _ {k : Hickory} where
  -- What a slot holds, in front of other records.
  abbrev held : Option (Record k) → List (Record k) → List (Record k)
  held none rs = rs
  held (some x) rs = x ∷ rs

  passed-Perm :
      (slot : Option (Record k)) (found : Option (Record k × List (Option (Record k))))
      (slots : List (Option (Record k))) (r : Record k) (rest : List (Option (Record k)))
      → passed slot found ≡ some (r, rest)
      → ((r' : Record k) (rest' : List (Option (Record k)))
          → found ≡ some (r', rest')
          → Perm (r' ∷ remaining rest') (remaining slots))
      → Perm (r ∷ remaining rest) (held slot (remaining slots))
  unfolding passed remaining
  passed-Perm slot none slots r rest h ih = absurd (none≢some h)
  passed-Perm none (some (r', rest')) slots r rest h ih =
      subst
        (λ (p : Record k × List (Option (Record k))). Perm (p.0 ∷ remaining p.1) (remaining slots))
        (some-injective h) (ih r' rest' refl)
  passed-Perm (some x) (some (r', rest')) slots r rest h ih =
      subst
        (λ (p : Record k × List (Option (Record k))).
          Perm (p.0 ∷ remaining p.1) (x ∷ remaining slots))
        (some-injective h)
        (Perm.trans (Perm.swap x r' (remaining rest')) (Perm.cons x (ih r' rest' refl)))

  take_slot-Perm :
      (want : IpAddr) (slots : List (Option (Record k))) (r : Record k)
      (rest : List (Option (Record k)))
      → take_slot want slots ≡ some (r, rest)
      → Perm (r ∷ remaining rest) (remaining slots)
  unfolding take_slot remaining
  take_slot-Perm want [] r rest h = absurd (none≢some h)
  take_slot-Perm want (none ∷ slots) r rest h =
      passed-Perm none (take_slot want slots) slots r rest h (take_slot-Perm want slots)
  take_slot-Perm want (some x ∷ slots) r rest h =
      let later : passed (some x) (take_slot want slots) ≡ some (r, rest)
          → Perm (r ∷ remaining rest) (x ∷ remaining slots) =
        λ h'.
          passed-Perm (some x) (take_slot want slots) slots r rest h' (take_slot-Perm want slots) in
      elim (Option-cases (record_address x)) [
        | inl e ↦ later (rw (take_slot, e) at h)
        | inr (a, e) ↦ elim (Bool-cases (same_address a want)) [
          | inl same ↦
              let here : some (x, none ∷ slots) ≡ some (r, rest) = rw (take_slot, e, same) at h in
              subst
                (λ (p : Record k × List (Option (Record k))).
                  Perm (p.0 ∷ remaining p.1) (x ∷ remaining slots))
                (some-injective here) (Perm.refl _)
          | inr differs ↦ later (rw (take_slot, e, differs) at h)
        ]
      ]

  place-Perm :
      (desired : List IpAddr) (slots : List (Option (Record k)))
      → Perm (place desired slots) (remaining slots)
  unfolding place
  place-Perm [] slots = Perm.refl _
  place-Perm (want ∷ desired) slots = elim (Option-cases (take_slot want slots)) [
    | inl e ↦ rw (e, place) (place-Perm desired slots)
    | inr ((r, rest), e) ↦
        rw (e, place)
          (Perm.trans (Perm.cons r (place-Perm desired rest)) (take_slot-Perm want slots r rest e))
  ]

  set-Perm :
      (xs : List (Record k)) (i : ℕ) (v : Record k) {x : Record k}
      → get_elem? xs i ≡ some x
      → Perm (v ∷ xs) (x ∷ set xs i v)
  set-Perm [] i v h = absurd (none≢some h)
  set-Perm (y ∷ xs) zero v {x = x} h =
      subst (λ z. Perm (v ∷ y ∷ xs) (z ∷ v ∷ xs)) (some-injective h) (Perm.swap y v xs)
  set-Perm (y ∷ xs) (suc i) v {x = x} h =
      Perm.trans (Perm.swap y v xs)
        (Perm.trans (Perm.cons y (set-Perm xs i v h)) (Perm.swap x y (set xs i v)))

  slots-set :
      (xs : List (Record k)) (i : ℕ) (v : Record k) (is : List ℕ)
      → NotIn i is
      → map (get_elem? (set xs i v)) is ≡ map (get_elem? xs) is
  slots-set xs i v [] h = refl
  slots-set xs i v (j ∷ is) (ne, h) =
      rw (get_elem?-set_ne xs v ne) (ap (◌∷◌ (get_elem? xs j)) (slots-set xs i v is h))

  pub length-write_at :
      (is : List ℕ) (vs xs : List (Record k)) → length (write_at is vs xs) ≡ length xs
  unfolding write_at
  length-write_at [] vs xs = refl
  length-write_at (i ∷ is) [] xs = refl
  length-write_at (i ∷ is) (v ∷ vs) xs = length-write_at is vs (set xs i v) ∙ length-set xs i v

  pub get_elem?-write_at :
      (is : List ℕ) (vs xs : List (Record k)) (j : ℕ)
      → NotIn j is
      → get_elem? (write_at is vs xs) j ≡ get_elem? xs j
  unfolding write_at
  get_elem?-write_at [] vs xs j h = refl
  get_elem?-write_at (i ∷ is) [] xs j h = refl
  get_elem?-write_at (i ∷ is) (v ∷ vs) xs j (ne, h) =
      get_elem?-write_at is vs (set xs i v) j h ∙ get_elem?-set_ne xs v (λ e. ne (sym e))

  get_elem?-some :
      (xs : List (Record k)) (i : ℕ) → i < length xs → (x : Record k) × (get_elem? xs i ≡ some x)
  get_elem?-some [] i h = elim h [ ]
  get_elem?-some (x ∷ xs) zero h = (x, refl)
  get_elem?-some (x ∷ xs) (suc i) h = get_elem?-some xs i (omega arith)

  write_at-Perm :
      (is : List ℕ) (vs xs : List (Record k))
      → Within (length xs) is
      → length vs ≡ length is
      → Perm (vs ++ xs) (remaining (map (get_elem? xs) is) ++ write_at is vs xs)
  unfolding write_at remaining
  write_at-Perm [] [] xs w e = Perm.refl _
  write_at-Perm [] (v ∷ vs) xs w e = absurd (omega (arith, e))
  write_at-Perm (i ∷ is) [] xs w e = absurd (omega (arith, e))
  write_at-Perm (i ∷ is) (v ∷ vs) xs (below, notin, w) e =
      let (x, read) = get_elem?-some xs i below in
      let xs' = set xs i v in
      let later : Perm (vs ++ xs') (remaining (map (get_elem? xs) is) ++ write_at is vs xs') =
        subst (λ l. Perm (vs ++ xs') (remaining l ++ write_at is vs xs'))
          (slots-set xs i v is notin)
          (write_at-Perm is vs xs' (subst (λ n. Within n is) (sym (length-set xs i v)) w)
            (omega (arith, e))) in
      rw read (
        Perm.trans (Perm.symm (perm_middle vs xs)) (
          Perm.trans (Perm.append_left vs (set-Perm xs i v read))
            (Perm.trans (perm_middle vs xs') (Perm.cons x later))))

  remaining_slots_length :
      (xs : List (Record k)) (is : List ℕ)
      → Within (length xs) is
      → length (remaining (map (get_elem? xs) is)) ≡ length is
  unfolding remaining
  remaining_slots_length xs [] w = refl
  remaining_slots_length xs (i ∷ is) (below, notin, w) =
      let (x, read) = get_elem?-some xs i below in rw read (ap suc (remaining_slots_length xs is w))

  -- The records of the answer section are kept, each once, whatever addresses are desired.
  pub reorder_in_place-Perm :
      (xs : List (Record k)) (is : List ℕ) (desired : List IpAddr)
      → Within (length xs) is
      → Perm (reorder_in_place xs is desired) xs
  unfolding reorder_in_place
  reorder_in_place-Perm xs is desired w =
      let slots = map (get_elem? xs) is in
      let placed = place-Perm desired slots in
      let size = length-Perm placed ∙ remaining_slots_length xs is w in
      Perm.symm (
        (perm-append_left_iff (remaining slots)).0 (
          Perm.trans (Perm.symm (Perm.append_right xs placed))
            (write_at-Perm is (place desired slots) xs w size)))
