-- ===== src/Policy/Corroborate.antt =====
-- src/policy/corroborate.rs: when the answers of two upstreams support each other. The printed form of a
-- name (`Name::to_string`) is a parameter.
use egressdns.Prelude.{
  Bool, List, Option, [], drop, false, if◌then◌else◌, leb, length, none, not, some, ℕ, ◌&&◌, ◌++◌,
  ◌-◌, ◌==◌, ◌||◌, ◌∷◌,
}
use egressdns.Cache.Name.{str_eq}
use egressdns.Message.{Hickory, Message, Record, record_type, type_cname, type_rrsig}
use egressdns.Policy.Domains.{folded}

-- `split('.')`: the first label and the labels after it.
unfoldable pub split_dots : List ℕ → List ℕ × List (List ℕ)
split_dots [] = ([], [])
split_dots (b ∷ s) =
    let (label, labels) = split_dots s in
    if b == b'.' then ([], label ∷ labels) else (b ∷ label, labels)

-- `join(".")`.
unfoldable pub join_dots : List (List ℕ) → List ℕ
join_dots [] = []
join_dots (l ∷ []) = l
join_dots (l ∷ m ∷ ls) = l ++ b'.' ∷ join_dots (m ∷ ls)

module _ {k : Hickory} where
  -- `filter(p).next_back()`, with the name and the type of the record.
  unfoldable pub last_where : (Record k → Bool) → List (Record k) → Option (k.Name × ℕ)
  last_where p [] = none
  last_where p (r ∷ rs) = elim (last_where p rs) [
    | some t ↦ some t
    | none ↦ if p r then some (r.name, record_type r) else none
  ]

  unfoldable pub is_alias : Record k → Bool
  is_alias r = record_type r == type_cname

  unfoldable pub is_data : Record k → Bool
  is_data r = not (record_type r == type_cname || record_type r == type_rrsig)

  unfoldable pub terminal : Message k → Option (k.Name × ℕ)
  unfolding last_where is_alias is_data
  terminal m = elim (last_where is_data m.answers) [
    | some t ↦ some t
    | none ↦ last_where is_alias m.answers
  ]

unfoldable pub last_two : List ℕ → List ℕ
unfolding split_dots join_dots
last_two text =
    let (label, rest) = split_dots text in
    let labels = label ∷ rest in
    if leb (length labels) 2 then text else join_dots (drop (length labels - 2) labels)

module _ {Name : Type 0} (to_string : Name → List ℕ) where
  unfoldable pub registrable_suffix : Name → List ℕ
  unfolding last_two
  registrable_suffix name = last_two (folded (to_string name))

  unfoldable pub same_terminal : Name × ℕ → Name × ℕ → Bool
  same_terminal ta tb = ta.1 == tb.1 && str_eq (registrable_suffix ta.0) (registrable_suffix tb.0)

module _ {k : Hickory} (to_string : k.Name → List ℕ) where
  unfoldable pub answers_are_compatible : Message k → Message k → Bool
  unfolding same_terminal
  answers_are_compatible a b =
      if not (a.response_code == b.response_code)
      then false
      else if not (a.response_code == 0)
      then false
      else elim (terminal a) [
        | none ↦ false
        | some ta ↦ elim (terminal b) [ none ↦ false | some tb ↦ same_terminal to_string ta tb ]
      ]
