-- ===== src/Der/Decoding.antt =====
-- What src/util/der.rs makes of a well-formed encoding.
use egressdns.Prelude.{
  List, [], ap, arith, checked_add, checked_add-fits, drop, drop-drop, drop-length_append, false,
  get_elem?, get_elem?-drop, leb, length, length-append, ltb, refl, some, suc, sym,
  take-length_append, true, ℕ, ◌%◌, ◌*◌, ◌++◌, ◌+◌, ◌-◌, ◌/◌, ◌<◌, ◌==◌, ◌^◌, ◌∙◌, ◌∷◌, ◌≡◌, ◌≢◌,
  ◌≤◌,
}
use mathlib.Core.List.{append_assoc}
use egressdns.Der.{read_octets, read_length, read_header, read_tlv, slice}

-- A number from its octets, most significant first.
abbrev pub be_from : ℕ → List ℕ → ℕ
be_from v [] = v
be_from v (b ∷ bs) = be_from (v * 256 + b) bs

-- The length octets of X.690 for a number, in the short or the long form.
pub data IsLength : List ℕ → ℕ → Type 0 where
  short : (n : ℕ) → n < 128 → IsLength (n ∷ []) n
  long :
      (ds : List ℕ)
      → 0 < length ds
      → length ds ≤ 4
      → be_from 0 ds < 2 ^ 32
      → IsLength ((128 + length ds) ∷ ds) (be_from 0 ds)

be_from-le : (v : ℕ) (ds : List ℕ) → v ≤ be_from v ds
be_from-le v [] = omega arith
be_from-le v (b ∷ bs) = omega (arith, be_from-le (v * 256 + b) bs)

module _ (buf : List ℕ) (pos : ℕ) where
  first_at : {b : ℕ} {rest : List ℕ} → drop pos buf ≡ b ∷ rest → get_elem? buf pos ≡ some b
  first_at h = sym (get_elem?-drop pos buf) ∙ ap (λ xs. get_elem? xs 0) h

  rest_at : {b : ℕ} {rest : List ℕ} → drop pos buf ≡ b ∷ rest → drop (pos + 1) buf ≡ rest
  rest_at h = sym (drop-drop 1 pos buf) ∙ ap (drop 1) h

read_octets-decodes :
    (buf ds post : List ℕ) (pos v : ℕ)
    → drop pos buf ≡ ds ++ post
    → be_from v ds < 2 ^ 32
    → pos + length ds < 2 ^ 64
    → read_octets buf (length ds) pos v ≡ some (pos + length ds, be_from v ds)
unfolding read_octets
read_octets-decodes buf [] post pos v h small fits = ap (λ p. some (p, v)) (omega arith)
read_octets-decodes buf (b ∷ ds) post pos v h small fits =
    let below = be_from-le (v * 256 + b) ds in
    let sum : v * 256 % 2 ^ 64 + b ≡ v * 256 + b = omega arith in
    let next = checked_add-fits pos 1 (omega arith) in
    let added : checked_add (v * 256 % 2 ^ 64) b ≡ some (v * 256 + b) =
      checked_add-fits (v * 256 % 2 ^ 64) b (omega arith) ∙ ap some sum in
    let rest =
      read_octets-decodes buf ds post (pos + 1) (v * 256 + b) (rest_at buf pos h) small
        (omega arith) in
    let shift : pos + 1 + length ds ≡ pos + suc (length ds) = omega arith in
    rw (first_at buf pos h, next, added, rest, shift) refl

read_length-decodes :
    (buf post : List ℕ) {octets : List ℕ} {n : ℕ} (pos : ℕ)
    → IsLength octets n
    → drop pos buf ≡ octets ++ post
    → pos + length octets < 2 ^ 64
    → (first : ℕ) × (get_elem? buf pos ≡ some first)
      × (read_length buf first (pos + 1) ≡ some (pos + length octets, n))
unfolding read_length
read_length-decodes buf post pos (short n small) h fits = (n, first_at buf pos h, ground arith)
read_length-decodes buf post pos (long ds some_digits few small) h fits =
    let first = 128 + length ds in
    let n : first % 128 ≡ length ds = omega arith in
    let top : (first / 128 % 2 == 0) ≡ false = ground arith in
    let nonzero : (length ds == 0) ≡ false = ground arith in
    let short : ltb 4 (length ds) ≡ false = ground arith in
    let rest =
      read_octets-decodes buf ds post (pos + 1) 0 (rest_at buf pos h) small (omega arith) in
    let shift : pos + 1 + length ds ≡ pos + suc (length ds) = omega arith in
    (first, first_at buf pos h, rw (top, n, nonzero, short, rest, shift) refl)

abbrev pub encode : ℕ → List ℕ → List ℕ → List ℕ
encode tag octets value = tag ∷ octets ++ value

drop-append_more :
    (pre xs post : List ℕ) → drop (length pre + length xs) (pre ++ (xs ++ post)) ≡ post
drop-append_more pre xs post =
    sym (drop-drop (length xs) (length pre) (pre ++ (xs ++ post)))
    ∙ ap (drop (length xs)) (drop-length_append pre (xs ++ post))
    ∙ drop-length_append xs post

slice-at :
    (buf post : List ℕ) (pos stop : ℕ) {xs : List ℕ}
    → drop pos buf ≡ xs ++ post
    → stop ≡ pos + length xs
    → slice buf pos stop ≡ xs
unfolding slice
slice-at buf post pos stop {xs} h e =
    let n : stop - pos ≡ length xs = omega arith in rw (n, h) (take-length_append xs post)

length-IsLength : {octets : List ℕ} {n : ℕ} → IsLength octets n → 0 < length octets
length-IsLength (short n small) = omega arith
length-IsLength (long ds some_digits few small) = omega arith

read_header-decodes :
    (buf value post octets : List ℕ) (tag pos : ℕ)
    → tag % 32 ≢ 31
    → IsLength octets (length value)
    → drop pos buf ≡ encode tag octets value ++ post
    → pos + 1 + length octets < 2 ^ 64
    → read_header (record { buf = buf; pos = pos })
      ≡ some (tag, pos + 1 + length octets, length value)
unfolding read_header
read_header-decodes buf value post octets tag pos low is_length h fits =
    let next = checked_add-fits pos 1 (omega arith) in
    let next' = checked_add-fits (pos + 1) 1 (omega (arith, length-IsLength is_length)) in
    let passed : (tag % 32 == 31) ≡ false = ground arith in
    let (first, got, l) =
      read_length-decodes buf (value ++ post) (pos + 1) is_length
        (rest_at buf pos h ∙ append_assoc octets value post) fits in
    rw (first_at buf pos h, next, passed, got, next', l) refl

-- A value of any tag in the low form, with its length in the short or the long form, is read back
-- wherever it stands in a buffer of less than 2^64 bytes: its tag, its content and its whole encoding,
-- and the reader stands behind it.
pub read_tlv-decodes :
    (pre value post octets : List ℕ) (tag : ℕ)
    → tag % 32 ≢ 31
    → IsLength octets (length value)
    → length (pre ++ (encode tag octets value ++ post)) < 2 ^ 64
    → let buf = pre ++ (encode tag octets value ++ post) in
      read_tlv (record { buf = buf; pos = length pre })
      ≡ some (
        record { tag = tag; value = value; raw = encode tag octets value },
        record { buf = buf; pos = length pre + length (encode tag octets value) },
      )
unfolding read_tlv read_header slice
read_tlv-decodes pre value post octets tag low is_length fits =
    let buf = pre ++ (encode tag octets value ++ post) in
    let at = length pre in
    let whole : drop at buf ≡ encode tag octets value ++ post =
      drop-length_append pre (encode tag octets value ++ post) in
    let start = at + 1 + length octets in
    let size : length buf ≡ start + length value + length post = omega (
      arith,
      length-append pre (encode tag octets value ++ post),
      length-append (octets ++ value) post,
      length-append octets value,
    ) in
    let header =
      read_header-decodes buf value post octets tag at low is_length whole (omega arith) in
    let stop = checked_add-fits start (length value) (omega arith) in
    let within : leb (start + length value) (length buf) ≡ true = ground arith in
    let there : start + length value ≡ at + length (encode tag octets value) =
      omega (arith, length-append octets value) in
    let behind : drop start buf ≡ value ++ post =
      ap (λ n. drop n buf) {x = start} {y = at + suc (length octets)} (omega arith)
      ∙ sym (drop-drop (suc (length octets)) at buf)
      ∙ ap (drop (suc (length octets))) whole
      ∙ ap (drop (length octets)) (append_assoc octets value post)
      ∙ drop-length_append octets (value ++ post) in
    let content : slice buf start (start + length value) ≡ value =
      slice-at buf post start (start + length value) behind refl in
    let all : slice buf at (start + length value) ≡ encode tag octets value =
      slice-at buf post at (start + length value) whole there in
    rw (header, stop, within, content, all, there) refl
