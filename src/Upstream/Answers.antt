-- ===== src/Upstream/Answers.antt =====
-- What an answer is that `resolve` of src/upstream/scheduler.rs returns.
use egressdns.Upstream.Cookies.{CookieFits, cookie_missing_iff}
use egressdns.Cache.Name.Laws.{str_eq_iff}
use egressdns.Cache.Name.{to_ascii_lowercase}
use egressdns.Prelude.{
  Bool, Bool-cases, List, Option, Option-cases, [], and_inv, arith, false, get_elem?, inl, inr,
  length, none, refl, some, sym, true, ℕ, ◌==◌, ◌↔◌, ◌∙◌, ◌∷◌, ◌≡◌, ◌⊎◌,
}
use mathlib.Core.Bool.{true≢false}
use egressdns.Float.{Floats}
use egressdns.Message.{Hickory, Message, Query}
use egressdns.Message.Replies.{question_matches, same_queries, same_query}
use egressdns.Upstream.{Route}
use egressdns.Upstream.Attempt.{
  Reply, cookie_missing, failed, finish_attempt, judge, judge_code, received, validate_response,
  with_cookie,
}

judge_code-none : (code : ℕ) → judge_code code ≡ none → (code ≡ 0) ⊎ (code ≡ 3)
unfolding judge_code
judge_code-none code h = elim (Bool-cases (code == 0)) [
  | inl e ↦ inl (ground arith)
  | inr e ↦ inr (ground arith)
]

judge_code-some : (code : ℕ) → (code ≡ 0) ⊎ (code ≡ 3) → judge_code code ≡ none
unfolding judge_code
judge_code-some code (inl e) = ground arith
judge_code-some code (inr e) = ground arith

module _ {k : Hickory} where
  -- A reply to the question, without an error of the server.
  pub record Fits (request m : Message k) : Type 0 where
    pub question : question_matches request m ≡ true
    pub reply : m.is_response ≡ true
    pub op_code : m.op_code ≡ request.op_code
    pub code : (m.response_code ≡ 0) ⊎ (m.response_code ≡ 3)

  validate_response-Fits :
      (request response : Message k) (cookies_enabled : Bool) (client : List ℕ)
      → (validate_response request response cookies_enabled client ≡ none)
        ↔ (Fits request response × (cookie_missing response cookies_enabled client ≡ false))
  unfolding validate_response
  validate_response-Fits request response cookies_enabled client = (
    λ h. ground (arith, judge_code-none response.response_code),
    λ h. ground (arith, judge_code-some response.response_code h.0.code),
  )

  -- The same question, record by record, with the names compared in lower case.
  abbrev pub SameQuestion : List (Query k) → List (Query k) → Type 0
  SameQuestion [] [] = Unit
  SameQuestion (a ∷ as') (b ∷ bs) =
      ((a.query_type ≡ b.query_type)
        × (a.query_class ≡ b.query_class)
        × (to_ascii_lowercase (k.to_string a.name) ≡ to_ascii_lowercase (k.to_string b.name)))
      × SameQuestion as' bs
  SameQuestion [] (b ∷ bs) = ⊥
  SameQuestion (a ∷ as') [] = ⊥

  cookie_missing-off : (m : Message k) (client : List ℕ) → cookie_missing m false client ≡ false
  unfolding cookie_missing
  cookie_missing-off m client = refl

  same_queries-SameQuestion :
      (as' bs : List (Query k)) → same_queries as' bs ≡ true → SameQuestion as' bs
  unfolding same_queries same_query
  same_queries-SameQuestion [] [] h = tt
  same_queries-SameQuestion [] (b ∷ bs) h = cc
  same_queries-SameQuestion (a ∷ as') [] h = cc
  same_queries-SameQuestion (a ∷ as') (b ∷ bs) h =
      let (one, rest) = and_inv _ (same_queries as' bs) h in
      let (types, more) = and_inv (a.query_type == b.query_type) _ one in
      let (classes, named) = and_inv (a.query_class == b.query_class) _ more in
      let name = (str_eq_iff _ _).0 named in
      ((ground arith, ground arith, name), same_queries-SameQuestion as' bs rest)

  SameQuestion-same_queries :
      (as' bs : List (Query k)) → SameQuestion as' bs → same_queries as' bs ≡ true
  unfolding same_queries same_query
  SameQuestion-same_queries [] [] h = refl
  SameQuestion-same_queries [] (b ∷ bs) h = elim h [ ]
  SameQuestion-same_queries (a ∷ as') [] h = elim h [ ]
  SameQuestion-same_queries (a ∷ as') (b ∷ bs) ((types, classes, name), rest) =
      let named = (str_eq_iff _ _).1 name in
      let later = SameQuestion-same_queries as' bs rest in ground arith

  -- With a client cookie of eight bytes, a response is accepted exactly when it is a reply to the same
  -- question (type, class and the name in lower case) with the same opcode, its code is NOERROR or NXDOMAIN,
  -- and, on a route with cookies, it has no cookie or one that is the client's bytes, with or without a
  -- server cookie of 8 to 32 bytes.
  pub validate_response-none_iff :
      (request response : Message k) (cookies_enabled : Bool) (client : List ℕ)
      → length client ≡ 8
      → (validate_response request response cookies_enabled client ≡ none) ↔ (
          SameQuestion request.queries response.queries
          × (response.is_response ≡ true)
          × (response.op_code ≡ request.op_code)
          × ((response.response_code ≡ 0) ⊎ (response.response_code ≡ 3))
          × ((cookies_enabled ≡ false) ⊎ CookieFits client response))
  validate_response-none_iff request response cookies_enabled client eight = (
    λ h.
        let (fits, cookie) = (validate_response-Fits request response cookies_enabled client).0 h in
        (
          same_queries-SameQuestion request.queries response.queries
              (unfold question_matches in fits.question),
          fits.reply,
          fits.op_code,
          fits.code,
          elim (Bool-cases cookies_enabled) [
            | inr off ↦ inl off
            | inl on ↦ inr ((cookie_missing_iff response client eight).0 (rw on at cookie))
          ],
        ),
    λ (question, reply, op_code, code, cookie).
        (validate_response-Fits request response cookies_enabled client).1 (
          record {
            question =
                unfold question_matches in
                SameQuestion-same_queries request.queries response.queries question;
            reply = reply;
            op_code = op_code;
            code = code;
          },
          elim (Bool-cases cookies_enabled) [
            | inr off ↦ rw off (cookie_missing-off response client)
            | inl on ↦ elim cookie [
              | inl off ↦ absurd (true≢false (sym on ∙ off))
              | inr c ↦ rw on ((cookie_missing_iff response client eight).1 c)
            ]
          ],
        ),
  )

  -- A message of a result fits.
  abbrev pub Fitting : Message k → Option (Message k) → Type 0
  Fitting request none = Unit {0}
  Fitting request (some m) = Fits request m

  -- The question and the opcode are what a request is matched by.
  Fits-with_cookie :
      {fl : Floats} (r : Route fl) (request m : Message k)
      → Fits (with_cookie r request) m
      → Fits request m
  unfolding with_cookie question_matches
  Fits-with_cookie {fl} r request m h = ground (arith, h)

  Fits-judge :
      {fl : Floats} (r : Route fl) (request : Message k) (reply : Reply k)
      → Fitting request (judge r request reply).1.message
  unfolding judge
  Fits-judge {fl} r request (failed outcome) = tt
  Fits-judge {fl} r request (received m latency) =
      let sent = with_cookie r request in
      elim (Option-cases (validate_response sent m r.cookies_enabled r.cookie.client)) [
        | inl e ↦
            rw (e, Fitting)
              (Fits-with_cookie r request m ((validate_response-Fits sent m _ _).0 e).0)
        | inr (o, e) ↦ rw (e, Fitting) tt
      ]

  pub Fits-finish_attempt :
      {fl : Floats} (routes : List (Route fl)) (i : ℕ) (request : Message k) (taken : Bool)
      (reply : Reply k)
      → Fitting request (finish_attempt routes i request taken reply).1.message
  unfolding finish_attempt
  Fits-finish_attempt {fl} routes i request taken reply = elim (Option-cases (get_elem? routes i)) [
    | inl e ↦ rw (e, Fitting) tt
    | inr (r, e) ↦ rw (e, Fitting) (Fits-judge r request reply)
  ]
