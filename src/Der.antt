-- ===== src/Der.antt =====
-- src/util/der.rs: the DER walker that reads certificates. A buffer is a list of bytes, and a method that
-- advances the reader returns it; one that gives up returns `none`, after which nobody reads on.
pub mod Bounds
pub mod Decoding
pub mod Walk
mod Tests
use egressdns.Prelude.{
  Bool, List, Option, [], checked_add, drop, false, get_elem?, guard, if◌then◌else◌, leb, length,
  ltb, none, not, some, suc, take, true, zero, ℕ, ◌%◌, ◌&&◌, ◌*◌, ◌+◌, ◌-◌, ◌/◌, ◌==◌, ◌>>=◌, ◌^◌,
  ◌||◌, ◌∷◌,
}

pub record Reader : Type 0 where
  pub buf : List ℕ
  pub pos : ℕ

pub record Tlv : Type 0 where
  pub tag : ℕ
  pub value : List ℕ
  pub raw : List ℕ

unfoldable pub new : List ℕ → Reader
new buf = record { buf = buf; pos = 0 }

unfoldable pub is_empty : Reader → Bool
is_empty r = leb (length r.buf) r.pos

-- `&buf[a..b]`.
unfoldable pub slice : List ℕ → ℕ → ℕ → List ℕ
slice buf a b = take (b - a) (drop a buf)

-- The octets of a long length, most significant first: the new position and the number.
unfoldable pub read_octets : List ℕ → ℕ → ℕ → ℕ → Option (ℕ × ℕ)
read_octets buf zero pos v = some (pos, v)
read_octets buf (suc n) pos v = do
  b ← get_elem? buf pos
  pos' ← checked_add pos 1
  v' ← checked_add (v * 256 % 2 ^ 64) b
  read_octets buf n pos' v'

-- The length after its first octet, of which the top bit selects the long form.
unfoldable pub read_length : List ℕ → ℕ → ℕ → Option (ℕ × ℕ)
unfolding read_octets
read_length buf first pos =
    if first / 128 % 2 == 0
    then some (pos, first)
    else let n = first % 128 in if n == 0 || ltb 4 n then none else read_octets buf n pos 0

-- `read_tlv` up to the value: the tag, where the value starts and how long it is.
unfoldable pub read_header : Reader → Option (ℕ × ℕ × ℕ)
read_header r = do
  tag ← get_elem? r.buf r.pos
  pos ← checked_add r.pos 1
  _ ← guard (not (tag % 32 == 31))
  first ← get_elem? r.buf pos
  pos ← checked_add pos 1
  (start, len) ← read_length r.buf first pos
  some (tag, start, len)

unfoldable pub read_tlv : Reader → Option (Tlv × Reader)
unfolding read_header
read_tlv r = do
  (tag, start, len) ← read_header r
  stop ← checked_add start len
  _ ← guard (leb stop (length r.buf))
  some (
    record { tag = tag; value = slice r.buf start stop; raw = slice r.buf r.pos stop },
    record r { pos = stop },
  )

-- At most `n` values in a row.
unfoldable pub read_fields : ℕ → Reader → Option (List Tlv)
read_fields zero r = some []
read_fields (suc n) r =
    if is_empty r
    then some []
    else read_tlv r >>= λ (t, r'). read_fields n r' >>= λ ts. some (t ∷ ts)

unfoldable pub tbs_certificate : List ℕ → Option (List ℕ)
tbs_certificate cert_der = do
  (outer, _) ← read_tlv (new cert_der)
  _ ← guard (outer.tag == 0x30)
  (tbs, _) ← read_tlv (new outer.value)
  _ ← guard (tbs.tag == 0x30)
  some tbs.value

-- The field behind an explicit version tag, or at its place without one.
unfoldable pub field_at : List Tlv → ℕ → Option Tlv
field_at fields index = elim fields [
  | [] ↦ none
  | t ∷ ts ↦ get_elem? (t ∷ ts) (if t.tag == 0xa0 then index + 1 else index)
]

unfoldable pub spki_sha256 {ℓ} : {Digest : Type ℓ} → (List ℕ → Digest) → List ℕ → Option Digest
spki_sha256 sha256 cert_der = do
  tbs ← tbs_certificate cert_der
  fields ← read_fields 8 (new tbs)
  spki ← field_at fields 5
  _ ← guard (spki.tag == 0x30)
  some (sha256 spki.raw)

-- `OID_COMMON_NAME` and `MAX_DEPTH`.
abbrev pub oid_common_name : List ℕ
oid_common_name = 0x55 ∷ 0x04 ∷ 0x03 ∷ []

abbrev pub max_depth : ℕ
max_depth = 12

-- `Vec<u8>` equality.
unfoldable pub bytes_eq : List ℕ → List ℕ → Bool
bytes_eq [] [] = true
bytes_eq (a ∷ s) (b ∷ t) = a == b && bytes_eq s t
bytes_eq _ _ = false

unfoldable pub is_string_tag : ℕ → Bool
is_string_tag tag = tag == 0x13 || (tag == 0x0c || (tag == 0x16 || (tag == 0x14 || tag == 0x1e)))

unfoldable pub is_constructed_tag : ℕ → Bool
is_constructed_tag tag = tag == 0x30 || tag == 0x31

-- `String::from_utf8_lossy` is `text`.
module _ (text : List ℕ → List ℕ) where
  unfoldable pub text_of : List ℕ → Option (List ℕ)
  text_of value =
      if length (text value) == 0 || ltb 256 (length (text value)) then none else some (text value)

  -- What the loop has in `last_oid_was_cn` after a value.
  unfoldable pub next_flag : Tlv → Bool → Bool
  unfolding is_constructed_tag bytes_eq
  next_flag tlv last_oid_was_cn =
      if tlv.tag == 0x06
      then bytes_eq tlv.value oid_common_name
      else if is_constructed_tag tlv.tag
      then last_oid_was_cn
      else false

  -- The loop of `find_common_name`, which goes into a constructed value by `deeper`. The fuel is spent
  -- on the values read.
  unfoldable pub scan : (List ℕ → Option (List ℕ)) → ℕ → Reader → Bool → Option (List ℕ)
  unfolding next_flag is_string_tag is_constructed_tag text_of
  scan deeper zero r last_oid_was_cn = none
  scan deeper (suc fuel) r last_oid_was_cn =
      if is_empty r
      then none
      else read_tlv r >>= λ (tlv, r').
          let rest = scan deeper fuel r' (next_flag tlv last_oid_was_cn) in
          if tlv.tag == 0x06
          then rest
          else if is_string_tag tlv.tag && last_oid_was_cn
          then text_of tlv.value
          else if is_constructed_tag tlv.tag
          then elim (deeper tlv.value) [ some found ↦ some found | none ↦ rest ]
          else rest

  -- `find_common_name`, for the levels that are left: `max_depth + 1 - depth`.
  unfoldable pub find_common_name : ℕ → List ℕ → Option (List ℕ)
  unfolding scan
  find_common_name zero buf = none
  find_common_name (suc levels) buf =
      scan (find_common_name levels) (length buf + 1) (new buf) false

  unfoldable pub issuer_common_name : List ℕ → Option (List ℕ)
  issuer_common_name cert_der = do
    tbs ← tbs_certificate cert_der
    fields ← read_fields 6 (new tbs)
    issuer ← field_at fields 2
    find_common_name (max_depth + 1) issuer.value
