-- ===== src/Der/Walk.antt =====
-- The search of src/util/der.rs for the issuer's common name.
use egressdns.Prelude.{
  ==_false, Bool, Bool-cases, List, Option, Option-cases, and_inv, ap, arith, bind_inv, false,
  if◌then◌else◌, inl, inr, length, none, none≢some, refl, some, subst, suc, true, zero, ℕ, ◌&&◌,
  ◌+◌, ◌-◌, ◌<◌, ◌==◌, ◌>>=◌, ◌≡◌, ◌≢◌, ◌≤◌, ◌⊎◌,
}
use egressdns.Der.{
  Reader, Tlv, new, is_empty, read_tlv, read_fields, tbs_certificate, field_at, text_of, next_flag,
  scan, find_common_name, issuer_common_name, is_string_tag, is_constructed_tag, bytes_eq,
  oid_common_name,
}
use egressdns.Der.Bounds.{read_tlv-bounds}

-- What is left to read.
abbrev pub left : Reader → ℕ
left r = length r.buf - r.pos

left-lt :
    (r : Reader) {t : Tlv} {r' : Reader}
    → is_empty r ≡ false
    → read_tlv r ≡ some (t, r')
    → left r' < left r
unfolding is_empty
left-lt r {r' = r'} more e =
    let (same, on, _, _, _, _, _, _) = read_tlv-bounds r e in
    let len : length r'.buf ≡ length r.buf = ap length same in ground arith

constructed : (tag : ℕ) → is_constructed_tag tag ≡ true → (tag ≡ 0x30) ⊎ (tag ≡ 0x31)
unfolding is_constructed_tag
constructed tag h = elim (Bool-cases (tag == 0x30)) [
  | inl e ↦ inl (ground arith)
  | inr e ↦ inr (ground arith)
]

not_constructed : (tag : ℕ) → is_constructed_tag tag ≡ false → (tag ≢ 0x30) × (tag ≢ 0x31)
unfolding is_constructed_tag
not_constructed tag h = (λ e. ground arith, λ e. ground arith)

module _ (text : List ℕ → List ℕ) where
  -- What a value makes of what the rest of the loop gives.
  abbrev pub settle : (List ℕ → Option (List ℕ)) → Tlv → Bool → Option (List ℕ) → Option (List ℕ)
  settle deeper tlv flag rest =
      if tlv.tag == 0x06
      then rest
      else if is_string_tag tlv.tag && flag
      then text_of text tlv.value
      else if is_constructed_tag tlv.tag
      then elim (deeper tlv.value) [ some found ↦ some found | none ↦ rest ]
      else rest

  -- The loop of the source with no bound on its rounds, from a state of the reader and of
  -- `last_oid_was_cn` to what it returns; `deeper` is the search in a constructed value.
  pub data Ends (deeper : List ℕ → Option (List ℕ)) : Reader → Bool → Option (List ℕ) → Type 0 where
    at_end : {r : Reader} {flag : Bool} → is_empty r ≡ true → Ends deeper r flag none
    unreadable :
        {r : Reader} {flag : Bool}
        → is_empty r ≡ false
        → read_tlv r ≡ none
        → Ends deeper r flag none
    after_oid :
        {r : Reader} {flag : Bool} {o : Option (List ℕ)} (t : Tlv) (r' : Reader)
        → is_empty r ≡ false
        → read_tlv r ≡ some (t, r')
        → t.tag ≡ 0x06
        → Ends deeper r' (bytes_eq t.value oid_common_name) o
        → Ends deeper r flag o
    at_name :
        {r : Reader} {flag : Bool} (t : Tlv) (r' : Reader)
        → is_empty r ≡ false
        → read_tlv r ≡ some (t, r')
        → t.tag ≢ 0x06
        → is_string_tag t.tag ≡ true
        → flag ≡ true
        → Ends deeper r flag (text_of text t.value)
    inside :
        {r : Reader} {flag : Bool} (t : Tlv) (r' : Reader) (found : List ℕ)
        → is_empty r ≡ false
        → read_tlv r ≡ some (t, r')
        → (t.tag ≡ 0x30) ⊎ (t.tag ≡ 0x31)
        → deeper t.value ≡ some found
        → Ends deeper r flag (some found)
    past :
        {r : Reader} {flag : Bool} {o : Option (List ℕ)} (t : Tlv) (r' : Reader)
        → is_empty r ≡ false
        → read_tlv r ≡ some (t, r')
        → (t.tag ≡ 0x30) ⊎ (t.tag ≡ 0x31)
        → deeper t.value ≡ none
        → Ends deeper r' flag o
        → Ends deeper r flag o
    skipped :
        {r : Reader} {flag : Bool} {o : Option (List ℕ)} (t : Tlv) (r' : Reader)
        → is_empty r ≡ false
        → read_tlv r ≡ some (t, r')
        → t.tag ≢ 0x06
        → t.tag ≢ 0x30
        → t.tag ≢ 0x31
        → (is_string_tag t.tag && flag) ≡ false
        → Ends deeper r' false o
        → Ends deeper r flag o

  next_flag-inside :
      (t : Tlv) (flag : Bool)
      → (t.tag == 0x06) ≡ false
      → is_constructed_tag t.tag ≡ true
      → next_flag text t flag ≡ flag
  next_flag-inside t flag p c = unfold next_flag in rw (p, c) refl

  next_flag-past :
      (t : Tlv) (flag : Bool)
      → (t.tag == 0x06) ≡ false
      → is_constructed_tag t.tag ≡ false
      → next_flag text t flag ≡ false
  next_flag-past t flag p c = unfold next_flag in rw (p, c) refl

  round-Ends :
      (deeper : List ℕ → Option (List ℕ)) (r : Reader) (flag : Bool) (t : Tlv) (r' : Reader)
      (rest : Bool → Option (List ℕ))
      → is_empty r ≡ false
      → read_tlv r ≡ some (t, r')
      → ((b : Bool) → Ends deeper r' b (rest b))
      → Ends deeper r flag (settle deeper t flag (rest (next_flag text t flag)))
  round-Ends deeper r flag t r' rest more e h =
      let b = next_flag text t flag in
      let goes : (b' : Bool) → b ≡ b' → Ends deeper r' b' (rest b) =
        λ b' q. subst (λ x. Ends deeper r' x (rest b)) q (h b) in
      elim (Bool-cases (t.tag == 0x06)) [
        | inl p ↦
            rw p (after_oid t r' more e (ground arith) (goes _ (unfold next_flag in rw p refl)))
        | inr p ↦ elim (Bool-cases (is_string_tag t.tag && flag)) [
          | inl q ↦
              let (string, named) = and_inv (is_string_tag t.tag) flag q in
              rw (p, q) (at_name t r' more e (==_false t.tag 0x06 p) string named)
          | inr q ↦ elim (Bool-cases (is_constructed_tag t.tag)) [
            | inl c ↦ elim (Option-cases (deeper t.value)) [
              | inl n ↦
                  rw (p, q, c, n)
                    (past t r' more e (constructed t.tag c) n
                      (goes flag (next_flag-inside t flag p c)))
              | inr (found, n) ↦ rw (p, q, c, n) (inside t r' found more e (constructed t.tag c) n)
            ]
            | inr c ↦
                let (not_sequence, not_set) = not_constructed t.tag c in
                rw (p, q, c)
                  (skipped t r' more e (==_false t.tag 0x06 p) not_sequence not_set q
                    (goes false (next_flag-past t flag p c)))
          ]
        ]
      ]

  fuel-Ends :
      (deeper : List ℕ → Option (List ℕ)) (fuel : ℕ) (r : Reader) (flag : Bool)
      → left r < fuel
      → Ends deeper r flag (scan text deeper fuel r flag)
  unfolding scan
  fuel-Ends deeper zero r flag p = absurd (omega arith)
  fuel-Ends deeper (suc fuel) r flag p = elim (Bool-cases (is_empty r)) [
    | inl e ↦ rw e (at_end e)
    | inr e ↦ elim (Option-cases (read_tlv r)) [
      | inl n ↦ rw (e, n) (unreadable e n)
      | inr (x, q) ↦
          let less = left-lt r e q in
          rw (e, q)
            (round-Ends deeper r flag x.0 x.1 (scan text deeper fuel x.1) e q
              (λ b. fuel-Ends deeper fuel x.1 b (omega arith)))
    ]
  ]

  -- The loop of `find_common_name` ends from every state of the reader, whatever the search in a
  -- constructed value gives: after finitely many of the source's rounds, with the result that the model
  -- computes with its fuel.
  pub scan-Ends :
      (deeper : List ℕ → Option (List ℕ)) (r : Reader) (flag : Bool)
      → Ends deeper r flag (scan text deeper (length r.buf + 1) r flag)
  scan-Ends deeper r flag = fuel-Ends deeper (length r.buf + 1) r flag (omega arith)

  -- A text that may be reported.
  abbrev pub IsReportable : Option (List ℕ) → Type 0
  IsReportable o = (s : List ℕ) → o ≡ some s → (0 < length s) × (length s ≤ 256)

  text_of-IsReportable : (value : List ℕ) → IsReportable (text_of text value)
  unfolding text_of
  text_of-IsReportable value s h =
      let e : 0 < length (text value) = ground arith in
      let e' : length (text value) ≤ 256 = ground arith in
      let same : text value ≡ s = ground arith in
      subst (λ t. (0 < length t) × (length t ≤ 256)) same (e, e')

  settle-IsReportable :
      (deeper : List ℕ → Option (List ℕ)) (tlv : Tlv) (flag : Bool) (rest : Option (List ℕ))
      → IsReportable (deeper tlv.value)
      → IsReportable rest
      → IsReportable (settle deeper tlv flag rest)
  settle-IsReportable deeper tlv flag rest d g s h =
      ground (arith, d s, g s, text_of-IsReportable tlv.value s)

  scan-IsReportable :
      (deeper : List ℕ → Option (List ℕ))
      → ((buf : List ℕ) → IsReportable (deeper buf))
      → (fuel : ℕ) (r : Reader) (flag : Bool) → IsReportable (scan text deeper fuel r flag)
  unfolding scan
  scan-IsReportable deeper d zero r flag s h = absurd (none≢some h)
  scan-IsReportable deeper d (suc fuel) r flag s h = elim (Bool-cases (is_empty r)) [
    | inl e ↦ absurd (none≢some (rw e at h))
    | inr e ↦
        let h' : (read_tlv r >>= λ (tlv, r').
        settle deeper tlv flag (scan text deeper fuel r' (next_flag text tlv flag)))
            ≡ some s =
          rw e at h in
        bind_inv (read_tlv r) h' λ x _ k.
          settle-IsReportable deeper (x.0) flag
            (scan text deeper fuel (x.1) (next_flag text (x.0) flag)) (d x.0.value)
            (scan-IsReportable deeper d fuel (x.1) (next_flag text (x.0) flag)) s k
  ]

  find_common_name-IsReportable :
      (levels : ℕ) (buf : List ℕ) → IsReportable (find_common_name text levels buf)
  unfolding find_common_name
  find_common_name-IsReportable zero buf s h = absurd (none≢some h)
  find_common_name-IsReportable (suc levels) buf s h =
      scan-IsReportable (find_common_name text levels) (find_common_name-IsReportable levels)
        (length buf + 1) (new buf) false s h

  -- Whatever bytes it is given, a common name that the search reports has 1 to 256 bytes.
  pub issuer_common_name-bounds :
      (cert_der s : List ℕ)
      → issuer_common_name text cert_der ≡ some s
      → (0 < length s) × (length s ≤ 256)
  unfolding issuer_common_name
  issuer_common_name-bounds cert_der s h = bind_inv (tbs_certificate cert_der) h λ tbs _ h1.
      bind_inv (read_fields 6 (new tbs)) h1 λ fields _ h2.
        bind_inv (field_at fields 2) h2
          λ issuer _ h3. find_common_name-IsReportable 13 issuer.value s h3
