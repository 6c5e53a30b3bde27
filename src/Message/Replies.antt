-- ===== src/Message/Replies.antt =====
-- What src/dns/message.rs asks of a reply: its question and its DNS cookie (RFC 7873).
use egressdns.Prelude.{
  Bool, List, Option, [], drop, false, if◌then◌else◌, leb, length, ltb, min, none, not, some, take,
  true, ℕ, ◌&&◌, ◌++◌, ◌==◌, ◌∷◌,
}
use egressdns.Cache.Name.{str_eq, to_ascii_lowercase}
use egressdns.Message.{Hickory, Message, Query}

-- `COOKIE_OPTION_CODE`.
abbrev pub cookie_option_code : ℕ
cookie_option_code = 10

unfoldable pub is_empty : List ℕ → Bool
is_empty [] = true
is_empty (b ∷ bs) = false

-- The server's part of a cookie option that has the client's part before it.
unfoldable pub server_part : List ℕ → List ℕ → Option (List ℕ)
unfolding is_empty
server_part bytes client =
    let server = drop 8 bytes in
    if ltb (length bytes) 8
    then none
    else if not (str_eq (take 8 bytes) client)
    then none
    else if is_empty server
    then some []
    else if leb 8 (length server) && leb (length server) 32
    then some server
    else none

module _ {k : Hickory} where
  unfoldable pub same_query : Query k → Query k → Bool
  same_query a b =
      a.query_type == b.query_type
      && (a.query_class == b.query_class
          && str_eq (to_ascii_lowercase (k.to_string a.name))
              (to_ascii_lowercase (k.to_string b.name)))

  -- The `zip` of both question sections, with their lengths compared.
  unfoldable pub same_queries : List (Query k) → List (Query k) → Bool
  unfolding same_query
  same_queries [] [] = true
  same_queries (a ∷ as') (b ∷ bs) = same_query a b && same_queries as' bs
  same_queries _ _ = false

  unfoldable pub question_matches : Message k → Message k → Bool
  unfolding same_queries
  question_matches request response = same_queries request.queries response.queries

  unfoldable pub cookie_option : Message k → Option (Option (List ℕ))
  cookie_option m = elim m.edns [ none ↦ none | some e ↦ k.option e cookie_option_code ]

  unfoldable pub extract_server_cookie : Message k → List ℕ → Option (List ℕ)
  unfolding server_part cookie_option
  extract_server_cookie m client = elim (cookie_option m) [
    | none ↦ none
    | some o ↦ elim o [ none ↦ none | some bytes ↦ server_part bytes client ]
  ]

-- The payload of `encode_client_cookie` and of `encode_full_cookie`.
unfoldable pub cookie_payload : List ℕ → Option (List ℕ) → List ℕ
cookie_payload client none = client
cookie_payload client (some []) = client
cookie_payload client (some (b ∷ bs)) = client ++ take (min (length (b ∷ bs)) 32) (b ∷ bs)
