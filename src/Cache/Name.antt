-- ===== src/Cache/Name.antt =====
-- Owner names in src/cache/mod.rs: `normalize_name`, `name_in_suffix`. A name is its bytes.
pub mod Laws
use egressdns.Prelude.{
  Bool, List, [], drop, false, get_or, if◌then◌else◌, leb, length, ltb, map, true, ℕ, ◌&&◌, ◌++◌,
  ◌+◌, ◌-◌, ◌==◌, ◌∷◌,
}

-- `u8::to_ascii_lowercase`.
unfoldable pub lower_byte : ℕ → ℕ
lower_byte b = if leb b'A' b && leb b b'Z' then b + 32 else b

-- `str::to_ascii_lowercase`.
unfoldable pub to_ascii_lowercase : List ℕ → List ℕ
unfolding lower_byte
to_ascii_lowercase s = map lower_byte s

-- `ends_with('.')`.
unfoldable pub ends_with_dot : List ℕ → Bool
ends_with_dot [] = false
ends_with_dot (b ∷ []) = b == b'.'
ends_with_dot (b ∷ c ∷ s) = ends_with_dot (c ∷ s)

unfoldable pub normalize_name : List ℕ → List ℕ
normalize_name name =
    let s = to_ascii_lowercase name in if ends_with_dot s then s else s ++ b'.' ∷ []

-- Equality of `str`, byte by byte.
unfoldable pub str_eq : List ℕ → List ℕ → Bool
str_eq [] [] = true
str_eq (a ∷ s) (b ∷ t) = a == b && str_eq s t
str_eq _ _ = false

-- `str::ends_with`.
unfoldable pub ends_with : List ℕ → List ℕ → Bool
ends_with s t = leb (length t) (length s) && str_eq (drop (length s - length t) s) t

-- The byte before the boundary must be a dot.
unfoldable pub name_in_suffix : List ℕ → List ℕ → Bool
name_in_suffix name suffix =
    if str_eq name suffix
    then true
    else if str_eq suffix (b'.' ∷ [])
    then true
    else ends_with name suffix
      && (ltb (length suffix) (length name)
          && get_or name (length name - length suffix - 1) 0 == b'.')
