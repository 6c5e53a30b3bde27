-- ===== src/Policy/Groups.antt =====
-- The RRsets that `rrset_groups` of src/policy/answer.rs finds.
use egressdns.Prelude.{
  ==_iff, Bool-cases, List, [], ap, arith, get_elem?, if_neg, if_pos, inl, inr, length,
  length-append, some, subst, suc, sym, ℕ, ◌++◌, ◌+◌, ◌<◌, ◌==◌, ◌∙◌, ◌∷◌, ◌≡◌,
}
use egressdns.Message.{Hickory, Record, record_type}
use egressdns.Policy.Answer.{groups_from, join_group, rrset_groups}
use egressdns.Policy.Reorder.{NotIn, Within}

NotIn-snoc : (i n : ℕ) (is : List ℕ) → NotIn i is → i < n → NotIn i (is ++ n ∷ [])
NotIn-snoc i n [] h below = (omega arith, tt)
NotIn-snoc i n (j ∷ is) (ne, h) below = (ne, NotIn-snoc i n is h below)

Within-snoc : (n : ℕ) (is : List ℕ) → Within n is → Within (n + 1) (is ++ n ∷ [])
Within-snoc n [] w = (omega arith, tt, tt)
Within-snoc n (i ∷ is) (below, notin, w) =
    (omega arith, NotIn-snoc i n is notin below, Within-snoc n is w)

Within-later : (n : ℕ) (is : List ℕ) → Within n is → Within (n + 1) is
Within-later n [] w = tt
Within-later n (i ∷ is) (below, notin, w) = (omega arith, notin, Within-later n is w)

module _ {k : Hickory} (xs : List (Record k)) (rtype : ℕ) where
  -- The record at an index is of the type.
  abbrev pub Entry : ℕ → Type 0
  Entry i = (r : Record k) × (get_elem? xs i ≡ some r) × (record_type r ≡ rtype)

  abbrev pub Typed : List ℕ → Type 0
  Typed [] = Unit
  Typed (i ∷ is) = Entry i × Typed is

  -- A group of the records before a position: not empty, distinct, all of the type.
  abbrev pub IsGroup : ℕ → k.Name × List ℕ → Type 0
  IsGroup n (name, is) = (0 < length is) × Within n is × Typed is

  abbrev pub AreGroups : ℕ → List (k.Name × List ℕ) → Type 0
  AreGroups n [] = Unit
  AreGroups n (g ∷ gs) = IsGroup n g × AreGroups n gs

  Typed-snoc : (n : ℕ) (is : List ℕ) → Typed is → Entry n → Typed (is ++ n ∷ [])
  Typed-snoc n [] t e = (e, tt)
  Typed-snoc n (i ∷ is) (here, t) e = (here, Typed-snoc n is t e)

  AreGroups-later : (n : ℕ) (gs : List (k.Name × List ℕ)) → AreGroups n gs → AreGroups (n + 1) gs
  AreGroups-later n [] h = tt
  AreGroups-later n ((name, is) ∷ gs) ((some_index, w, t), h) =
      ((some_index, Within-later n is w, t), AreGroups-later n gs h)

  join_group-AreGroups :
      (name : k.Name) (n : ℕ) (gs : List (k.Name × List ℕ))
      → AreGroups n gs
      → Entry n
      → AreGroups (n + 1) (join_group k name n gs)
  unfolding join_group
  join_group-AreGroups name n [] h e = ((omega arith, (omega arith, tt, tt), (e, tt)), tt)
  join_group-AreGroups name n ((m, is) ∷ gs) ((some_index, w, t), h) e =
      elim (k.name_discrete m name) [
        | yes same ↦ rw (if_pos (k.name_discrete m name) same) (
          ((omega (arith, length-append is (n ∷ []))), Within-snoc n is w, Typed-snoc n is t e),
          AreGroups-later n gs h,
        )
        | no differs ↦
            rw (if_neg (k.name_discrete m name) differs)
              ((some_index, Within-later n is w, t), join_group-AreGroups name n gs h e)
      ]

  groups_from-AreGroups :
      (i : ℕ) (rs : List (Record k)) (gs : List (k.Name × List ℕ))
      → ((j : ℕ) → get_elem? rs j ≡ get_elem? xs (i + j))
      → i + length rs ≡ length xs
      → AreGroups i gs
      → AreGroups (length xs) (groups_from rtype i rs gs)
  unfolding groups_from
  groups_from-AreGroups i [] gs at size h = subst (λ n. AreGroups n gs) (omega (arith, size)) h
  groups_from-AreGroups i (r ∷ rs) gs at size h =
      let shifted : (j : ℕ) → get_elem? rs j ≡ get_elem? xs (i + 1 + j) =
        λ j. at (suc j) ∙ ap (get_elem? xs) (omega arith) in
      let continue : (gs' : List (k.Name × List ℕ))
          → AreGroups (i + 1) gs'
          → AreGroups (length xs) (groups_from rtype (i + 1) rs gs') =
        λ gs' h'. groups_from-AreGroups (i + 1) rs gs' shifted (omega (arith, size)) h' in
      elim (Bool-cases (record_type r == rtype)) [
        | inl e ↦
            let zero_more : i + 0 ≡ i = omega arith in
            let entry : Entry i = (
              r,
              ap (get_elem? xs) (sym zero_more) ∙ sym (at 0),
              (==_iff (record_type r) rtype).0 e,
            ) in
            rw e (continue (join_group k r.name i gs) (join_group-AreGroups r.name i gs h entry))
        | inr e ↦ rw e (continue gs (AreGroups-later i gs h))
      ]

  pub rrset_groups-AreGroups : AreGroups (length xs) (rrset_groups xs rtype)
  unfolding rrset_groups
  rrset_groups-AreGroups =
      groups_from-AreGroups 0 xs [] (λ j. ap (get_elem? xs) (omega arith)) (omega arith) tt
