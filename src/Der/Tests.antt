-- ===== src/Der/Tests.antt =====
-- A small certificate for the walker of src/util/der.rs.
use egressdns.Prelude.{List, [], arith, false, length, refl, some, ℕ, ◌++◌, ◌+◌, ◌∷◌, ◌≡◌}
use egressdns.Der.{
  tbs_certificate, read_length, read_fields, is_empty, field_at, new, slice, read_tlv, scan,
  find_common_name, issuer_common_name, spki_sha256,
}
use egressdns.Der.Decoding.{long, read_tlv-decodes}
use egressdns.Der.Walk.{Ends, scan-Ends}

-- SEQUENCE of a SET of a SEQUENCE of the common name's OID and the UTF-8 string "ab".
abbrev issuer : List ℕ
issuer = 0x30 ∷ 13 ∷ 0x31 ∷ 11 ∷ 0x30 ∷ 9 ∷ 0x06 ∷ 3 ∷ 0x55 ∷ 0x04 ∷ 0x03 ∷ 0x0c ∷ 2 ∷ 97 ∷ 98 ∷ []

-- Serial number, signature, issuer, validity, subject and key, without an explicit version.
abbrev fields : List ℕ
fields = 0x02 ∷ 1 ∷ 7 ∷ 0x30 ∷ 0 ∷ (issuer ++ 0x30 ∷ 0 ∷ 0x30 ∷ 0 ∷ 0x30 ∷ 1 ∷ 5 ∷ [])

abbrev certificate : List ℕ
certificate = 0x30 ∷ 29 ∷ 0x30 ∷ 27 ∷ fields

abbrev plain_text : List ℕ → List ℕ
plain_text s = s

reports : issuer_common_name plain_text certificate ≡ some (97 ∷ 98 ∷ [])
unfolding issuer_common_name tbs_certificate read_tlv new read_length slice read_fields is_empty
    field_at find_common_name
reports = refl

pins : spki_sha256 plain_text certificate ≡ some (0x30 ∷ 1 ∷ 5 ∷ [])
unfolding spki_sha256 tbs_certificate read_tlv new read_length slice read_fields is_empty field_at
pins = refl

reads :
    read_tlv (new issuer)
    ≡ some (
      record { tag = 0x30; value = slice issuer 2 15; raw = issuer },
      record { buf = issuer; pos = 15 },
    )
unfolding read_tlv new slice read_length
reads = refl

scan-Ends_example :
    Ends plain_text
      (find_common_name plain_text 12)
      (new issuer)
      false
      (scan plain_text (find_common_name plain_text 12) (length issuer + 1) (new issuer) false)
unfolding new
scan-Ends_example = scan-Ends plain_text (find_common_name plain_text 12) (new issuer) false

-- A BIT STRING of three bytes with its length in the long form, between two other values.
read_tlv-decodes_example :
    read_tlv (record { buf = 0x05 ∷ 0 ∷ 0x03 ∷ 0x81 ∷ 3 ∷ 0 ∷ 1 ∷ 2 ∷ 0x05 ∷ 0 ∷ []; pos = 2 })
    ≡ some (
      record { tag = 0x03; value = 0 ∷ 1 ∷ 2 ∷ []; raw = 0x03 ∷ 0x81 ∷ 3 ∷ 0 ∷ 1 ∷ 2 ∷ [] },
      record { buf = 0x05 ∷ 0 ∷ 0x03 ∷ 0x81 ∷ 3 ∷ 0 ∷ 1 ∷ 2 ∷ 0x05 ∷ 0 ∷ []; pos = 8 },
    )
read_tlv-decodes_example =
    read_tlv-decodes (0x05 ∷ 0 ∷ []) (0 ∷ 1 ∷ 2 ∷ []) (0x05 ∷ 0 ∷ []) (0x81 ∷ 3 ∷ []) 0x03
      (ground arith) (long (3 ∷ []) (omega arith) (omega arith) (omega arith)) (omega arith)
