-- ===== src/Prelude/Dict.antt =====
-- `HashMap` as an association list: `get`, `insert`, `remove`, `len`, in no particular order.
use Prim.Native.Nat.{◌+◌, ◌≤◌}
use mathlib.Core.Path.{◌≡◌, refl}
use mathlib.Core.Logic.{ite}
use mathlib.Core.List.{List, [], ◌∷◌}
use mathlib.Core.Option.{Option, none, some}
use native.Mathlib.Omega.{arith}
use egressdns.Prelude.Lists.{length}

module _ {ℓ} {K V : Type ℓ} (dec : Discrete K) where
  unfoldable pub dict_get : K → List (K × V) → Option V
  dict_get k [] = none
  dict_get k ((j, v) ∷ m) = ite (dec k j) (some v) (dict_get k m)

  unfoldable pub dict_insert : K → V → List (K × V) → List (K × V)
  dict_insert k v [] = (k, v) ∷ []
  dict_insert k v ((j, w) ∷ m) = ite (dec k j) ((k, v) ∷ m) ((j, w) ∷ dict_insert k v m)

  unfoldable pub dict_remove : K → List (K × V) → List (K × V)
  dict_remove k [] = []
  dict_remove k ((j, w) ∷ m) = ite (dec k j) (dict_remove k m) ((j, w) ∷ dict_remove k m)

  pub dict_get-insert :
      (k j : K) (v : V) (m : List (K × V))
      → dict_get k (dict_insert j v m) ≡ ite (dec k j) (some v) (dict_get k m)
  unfolding dict_get dict_insert
  dict_get-insert k j v [] = refl
  dict_get-insert k j v ((i, w) ∷ m) = ground (arith, dict_get-insert k j v m)

  pub dict_get-remove :
      (k j : K) (m : List (K × V))
      → dict_get k (dict_remove j m) ≡ ite (dec k j) none (dict_get k m)
  unfolding dict_get dict_remove
  dict_get-remove k j [] = ground arith
  dict_get-remove k j ((i, w) ∷ m) = ground (arith, dict_get-remove k j m)

  pub length-dict_insert_new :
      (k : K) (v : V) (m : List (K × V))
      → dict_get k m ≡ none
      → length (dict_insert k v m) ≡ length m + 1
  unfolding dict_get dict_insert
  length-dict_insert_new k v [] h = omega arith
  length-dict_insert_new k v ((i, w) ∷ m) h = ground (arith, length-dict_insert_new k v m)

  pub length-dict_insert_old :
      (k : K) (v w : V) (m : List (K × V))
      → dict_get k m ≡ some w
      → length (dict_insert k v m) ≡ length m
  unfolding dict_get dict_insert
  length-dict_insert_old k v w [] h = cc
  length-dict_insert_old k v w ((i, u) ∷ m) h = ground (arith, length-dict_insert_old k v w m)

  pub length-dict_insert-le :
      (k : K) (v : V) (m : List (K × V)) → length (dict_insert k v m) ≤ length m + 1
  unfolding dict_insert
  length-dict_insert-le k v [] = omega arith
  length-dict_insert-le k v ((i, w) ∷ m) = ground (arith, length-dict_insert-le k v m)

  pub length-dict_remove-le : (k : K) (m : List (K × V)) → length (dict_remove k m) ≤ length m
  unfolding dict_remove
  length-dict_remove-le k [] = omega arith
  length-dict_remove-le k ((i, w) ∷ m) = ground (arith, length-dict_remove-le k m)
