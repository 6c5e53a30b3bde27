-- ===== src/Policy/Terminal.antt =====
-- The terminal record of an answer, as src/policy/corroborate.rs finds it.
use egressdns.Prelude.{
  Bool, Bool-cases, List, Option, [], ap, arith, false, if◌then◌else◌, inl, inr, none, none≢some,
  refl, some, some-injective, subst, true, ℕ, ◌++◌, ◌==◌, ◌↔◌, ◌∙◌, ◌∷◌, ◌≡◌, ◌≢◌, ◌⊎◌,
}
use egressdns.Message.{Hickory, Message, Record, record_type}
use egressdns.Policy.Corroborate.{is_alias, is_data, last_where, terminal}

module _ {k : Hickory} where
  -- A predicate of all records of a list.
  abbrev pub All : (Record k → Type 0) → List (Record k) → Type 0
  All P [] = Unit
  All P (r ∷ rs) = P r × All P rs

  -- Where there is a record that is neither a CNAME nor a signature, the last of these; else the last CNAME.
  pub data Terminal (rs : List (Record k)) : k.Name × ℕ → Type 0 where
    data_last :
        (before after : List (Record k)) (r : Record k)
        → rs ≡ before ++ r ∷ after
        → (record_type r ≢ 5) × (record_type r ≢ 46)
        → All (λ x. (record_type x ≡ 5) ⊎ (record_type x ≡ 46)) after
        → Terminal rs (r.name, record_type r)
    alias_last :
        (before after : List (Record k)) (r : Record k)
        → All (λ x. (record_type x ≡ 5) ⊎ (record_type x ≡ 46)) rs
        → rs ≡ before ++ r ∷ after
        → record_type r ≡ 5
        → All (λ x. record_type x ≢ 5) after
        → Terminal rs (r.name, record_type r)

  All-map :
      {P Q : Record k → Type 0} (rs : List (Record k))
      → ((r : Record k) → P r → Q r)
      → All P rs
      → All Q rs
  All-map [] f h = tt
  All-map (r ∷ rs) f (p, h) = (f r p, All-map rs f h)

  -- What the search finds, with its place.
  data Found (p : Record k → Bool) (rs : List (Record k)) : Option (k.Name × ℕ) → Type 0 where
    nowhere : All (λ x. p x ≡ false) rs → Found p rs none
    at :
        (before after : List (Record k)) (r : Record k)
        → rs ≡ before ++ r ∷ after
        → p r ≡ true
        → All (λ x. p x ≡ false) after
        → Found p rs (some (r.name, record_type r))

  last_where-none :
      (p : Record k → Bool) (rs : List (Record k))
      → All (λ x. p x ≡ false) rs
      → last_where p rs ≡ none
  unfolding last_where
  last_where-none p [] h = refl
  last_where-none p (r ∷ rs) (q, h) = rw (last_where-none p rs h, q) refl

  last_where-some :
      (p : Record k → Bool) (before after : List (Record k)) (r : Record k)
      → p r ≡ true
      → All (λ x. p x ≡ false) after
      → last_where p (before ++ r ∷ after) ≡ some (r.name, record_type r)
  unfolding last_where
  last_where-some p [] after r q h = rw (last_where-none p after h, q) refl
  last_where-some p (x ∷ before) after r q h = rw (last_where-some p before after r q h) refl

  Found-cons :
      (p : Record k → Bool) (r : Record k) (rs : List (Record k)) (o : Option (k.Name × ℕ))
      → Found p rs o
      → Found p
          (r ∷ rs)
          (elim o [ some t ↦ some t | none ↦ if p r then some (r.name, record_type r) else none ])
  Found-cons p r rs _ (nowhere h) = elim (Bool-cases (p r)) [
    | inl q ↦ rw q (at [] rs r refl q h)
    | inr q ↦ rw q (nowhere (q, h))
  ]
  Found-cons p r rs _ (at before after x e q h) = at (r ∷ before) after x (ap (λ l. r ∷ l) e) q h

  last_where-Found : (p : Record k → Bool) (rs : List (Record k)) → Found p rs (last_where p rs)
  unfolding last_where
  last_where-Found p [] = nowhere tt
  last_where-Found p (r ∷ rs) = Found-cons p r rs (last_where p rs) (last_where-Found p rs)

  data_types : (r : Record k) → is_data r ≡ true → (record_type r ≢ 5) × (record_type r ≢ 46)
  unfolding is_data
  data_types r h = (λ e. ground arith, λ e. ground arith)

  types_data : (r : Record k) → (record_type r ≢ 5) × (record_type r ≢ 46) → is_data r ≡ true
  unfolding is_data
  types_data r h = ground arith

  other_types : (r : Record k) → is_data r ≡ false → (record_type r ≡ 5) ⊎ (record_type r ≡ 46)
  unfolding is_data
  other_types r h = elim (Bool-cases (record_type r == 5)) [
    | inl e ↦ inl (ground arith)
    | inr e ↦ inr (ground arith)
  ]

  types_other : (r : Record k) → (record_type r ≡ 5) ⊎ (record_type r ≡ 46) → is_data r ≡ false
  unfolding is_data
  types_other r (inl e) = ground arith
  types_other r (inr e) = ground arith

  alias_type : (r : Record k) → is_alias r ≡ true → record_type r ≡ 5
  unfolding is_alias
  alias_type r h = ground arith

  type_alias : (r : Record k) → record_type r ≡ 5 → is_alias r ≡ true
  unfolding is_alias
  type_alias r h = ground arith

  no_alias : (r : Record k) → is_alias r ≡ false → record_type r ≢ 5
  unfolding is_alias
  no_alias r h = λ e. ground arith

  not_type : (r : Record k) → record_type r ≢ 5 → is_alias r ≡ false
  unfolding is_alias
  not_type r h = ground arith

  Found-Terminal :
      (rs : List (Record k)) (o o' : Option (k.Name × ℕ)) (t : k.Name × ℕ)
      → Found is_data rs o
      → Found is_alias rs o'
      → elim o [ some u ↦ some u | none ↦ o' ] ≡ some t
      → Terminal rs t
  Found-Terminal rs _ _ t (at before after r e q h) f g =
      subst (Terminal rs) (some-injective g)
        (data_last before after r e (data_types r q) (All-map after other_types h))
  Found-Terminal rs _ _ t (nowhere n) (nowhere m) g = absurd (none≢some g)
  Found-Terminal rs _ _ t (nowhere n) (at before after r e q h) g =
      subst (Terminal rs) (some-injective g) (
        alias_last before after r (All-map rs other_types n) e (alias_type r q)
          (All-map after no_alias h))

  terminal_complete : (m : Message k) (t : k.Name × ℕ) → Terminal m.answers t → terminal m ≡ some t
  unfolding terminal
  terminal_complete m _ (data_last before after r e q h) =
      let f : last_where is_data m.answers ≡ some (r.name, record_type r) =
        ap (last_where is_data) e
        ∙ last_where-some is_data before after r (types_data r q) (All-map after types_other h) in
      rw (f, terminal) refl
  terminal_complete m _ (alias_last before after r n e q h) =
      let f = last_where-none is_data m.answers (All-map m.answers types_other n) in
      let g : last_where is_alias m.answers ≡ some (r.name, record_type r) =
        ap (last_where is_alias) e
        ∙ last_where-some is_alias before after r (type_alias r q) (All-map after not_type h) in
      rw (f, terminal) (rw g refl)

  pub terminal_iff : (m : Message k) (t : k.Name × ℕ) → (terminal m ≡ some t) ↔ Terminal m.answers t
  unfolding terminal
  terminal_iff m t = (
    Found-Terminal m.answers (last_where is_data m.answers) (last_where is_alias m.answers) t
        (last_where-Found is_data m.answers) (last_where-Found is_alias m.answers),
    terminal_complete m t,
  )
