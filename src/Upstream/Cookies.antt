-- ===== src/Upstream/Cookies.antt =====
-- When src/dns/message.rs takes the cookie of a reply for an echo of the client's (RFC 7873).
use egressdns.Upstream.Attempt.{cookie_missing}
use egressdns.Prelude.{
  Bool-cases, List, Option, Option-cases, [], ap, arith, drop, drop-length_append, false, inl, inr,
  length, length-append, none, none≢some, refl, some, subst, sym, take, take-append-drop,
  take-length_append, true, ℕ, ◌++◌, ◌+◌, ◌<◌, ◌↔◌, ◌∙◌, ◌∷◌, ◌≡◌, ◌≤◌, ◌⊎◌,
}
use mathlib.Core.Bool.{true≢false}
use egressdns.Cache.Name.{str_eq}
use egressdns.Cache.Name.Laws.{str_eq_iff}
use egressdns.Message.{Hickory, Message}
use egressdns.Message.Replies.{cookie_option, extract_server_cookie, is_empty, server_part}

-- No server cookie, or one of 8 to 32 bytes.
abbrev pub IsSized : List ℕ → Type 0
IsSized server = (length server ≡ 0) ⊎ ((8 ≤ length server) × (length server ≤ 32))

empty_or_longer :
    (s : List ℕ) → ((is_empty s ≡ true) × (length s ≡ 0)) ⊎ ((is_empty s ≡ false) × (0 < length s))
unfolding is_empty
empty_or_longer [] = inl (refl, refl)
empty_or_longer (b ∷ s) = inr (refl, omega arith)

-- A cookie that is taken is the client's bytes before a server cookie of a proper size.
pub server_part-inv :
    (bytes client s : List ℕ)
    → server_part bytes client ≡ some s
    → (bytes ≡ client ++ drop 8 bytes) × IsSized (drop 8 bytes)
unfolding server_part
server_part-inv bytes client s h = elim (Bool-cases (str_eq (take 8 bytes) client)) [
  | inr e ↦ absurd (none≢some {a = s} (ground arith))
  | inl e ↦
      let same : take 8 bytes ≡ client = (str_eq_iff _ _).0 e in
      let whole : bytes ≡ client ++ drop 8 bytes =
        sym (take-append-drop 8 bytes) ∙ ap (λ c. c ++ drop 8 bytes) same in
      elim (empty_or_longer (drop 8 bytes)) [
        | inl (_, none_there) ↦ (whole, inl none_there)
        | inr (some_there, _) ↦ (whole, inr (ground arith))
      ]
]

-- And each such cookie is taken.
pub server_part-echo :
    (client server : List ℕ)
    → length client ≡ 8
    → IsSized server
    → (s : List ℕ) × (server_part (client ++ server) client ≡ some s)
unfolding server_part
server_part-echo client server eight sized =
    let bytes = client ++ server in
    let t : take 8 bytes ≡ client =
      subst (λ n. take n bytes ≡ client) eight (take-length_append client server) in
    let d : drop 8 bytes ≡ server =
      subst (λ n. drop n bytes ≡ server) eight (drop-length_append client server) in
    let same : str_eq (take 8 bytes) client ≡ true = (str_eq_iff _ _).1 t in
    let l : length bytes ≡ 8 + length server =
      length-append client server ∙ ap (λ n. n + length server) eight in
    let ld : length (drop 8 bytes) ≡ length server = ap (λ (x : List ℕ). length x) d in
    elim (empty_or_longer (drop 8 bytes)) [
      | inl (e, _) ↦ ([], ground arith)
      | inr (e, longer) ↦ (drop 8 bytes, ground arith)
    ]

module _ {k : Hickory} where
  -- The cookie option of a response is not there, or is the client's bytes and a server cookie that is
  -- empty or of 8 to 32 bytes.
  pub data CookieFits (client : List ℕ) (m : Message k) : Type 0 where
    no_edns : m.edns ≡ none → CookieFits client m
    no_cookie : (e : k.Edns) → m.edns ≡ some e → k.option e 10 ≡ none → CookieFits client m
    echoed :
        (e : k.Edns) (server : List ℕ)
        → m.edns ≡ some e
        → k.option e 10 ≡ some (some (client ++ server))
        → IsSized server
        → CookieFits client m

  option-edns : (m : Message k) (e : k.Edns) → m.edns ≡ some e → cookie_option m ≡ k.option e 10
  unfolding cookie_option
  option-edns m e h = rw h refl

  extract-unparsed :
      (m : Message k) (client bytes : List ℕ)
      → cookie_option m ≡ some (some bytes)
      → extract_server_cookie m client ≡ server_part bytes client
  unfolding extract_server_cookie
  extract-unparsed m client bytes h = rw (h, extract_server_cookie) refl

  extract-parsed :
      (m : Message k) (client : List ℕ)
      → cookie_option m ≡ some none
      → extract_server_cookie m client ≡ none
  unfolding extract_server_cookie
  extract-parsed m client h = rw (h, extract_server_cookie) refl

  -- A cookie that is there and is not taken is missing, and only such a one.
  pub missing :
      (m : Message k) (client : List ℕ) (o : Option (List ℕ))
      → cookie_option m ≡ some o
      → extract_server_cookie m client ≡ none
      → cookie_missing m true client ≡ true
  unfolding cookie_missing
  missing m client o h n = rw (h, n) refl

  cookie-CookieFits :
      (m : Message k) (client : List ℕ) → cookie_missing m true client ≡ false → CookieFits client m
  cookie-CookieFits m client h = elim (Option-cases m.edns) [
    | inl e ↦ no_edns e
    | inr (d, e) ↦ elim (Option-cases (k.option d 10)) [
      | inl q ↦ no_cookie d e q
      | inr (none, q) ↦
          let c = option-edns m d e ∙ q in
          absurd (true≢false (sym (missing m client none c (extract-parsed m client c)) ∙ h))
      | inr (some bytes, q) ↦
          let c = option-edns m d e ∙ q in
          let x = extract-unparsed m client bytes c in
          elim (Option-cases (server_part bytes client)) [
            | inl n ↦ absurd (true≢false (sym (missing m client (some bytes) c (x ∙ n)) ∙ h))
            | inr (s, n) ↦
                let (whole, sized) = server_part-inv bytes client s n in
                echoed d (drop 8 bytes) e (q ∙ ap (λ b. some (some b)) whole) sized
          ]
    ]
  ]

  CookieFits-cookie :
      (m : Message k) (client : List ℕ)
      → length client ≡ 8
      → CookieFits client m
      → cookie_missing m true client ≡ false
  unfolding cookie_missing
  CookieFits-cookie m client eight (no_edns e) = unfold cookie_option in ground arith
  CookieFits-cookie m client eight (no_cookie d e q) = rw (option-edns m d e ∙ q) refl
  CookieFits-cookie m client eight (echoed d server e q sized) =
      let (s, n) = server_part-echo client server eight sized in
      let c = option-edns m d e ∙ q in
      rw (extract-unparsed m client (client ++ server) c ∙ n, c) refl

  -- With cookies, a response is not refused for its cookie exactly when its cookie fits.
  pub cookie_missing_iff :
      (m : Message k) (client : List ℕ)
      → length client ≡ 8
      → (cookie_missing m true client ≡ false) ↔ CookieFits client m
  cookie_missing_iff m client eight = (cookie-CookieFits m client, CookieFits-cookie m client eight)
