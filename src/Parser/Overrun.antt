-- ===== src/Parser/Overrun.antt =====
-- hawkc_parse_auth_header (hawkc/parser.c) where an `=` stands behind a header that ends with a key.
use hawkc.Base.{
  ℕ, ◌<◌, ◌-◌, ◌^◌, ltb, true, [], ◌∷◌, ◌++◌, append-nil, Bytes, length, ◌≡◌, refl, arith,
}
use mathlib.Core.Path.{subst}
use hawkc.Outcome.{done, fault, ◌>>=◌}
use hawkc.Context.{of_bytes}
use hawkc.Parser.{
  is_space, count_while, Session, SchemeHandler, ParamHandler, consume_ows, parse_token,
  parse_equals, parse_param, params_loop, parse_auth_header,
}
use hawkc.Parser.Grammar.{IsOws, IsToken}
use hawkc.Parser.Lexemes.{at_text, Stops, consume_ows-append, parse_token-append}
use hawkc.Parser.Boundaries.{Stops-token-rest, token-not-space, suffix-lt}

module _ {S : Type 0} ⦃session : Session S⦄ (param_handler : ParamHandler S) where
  -- The sign is taken for the key's, and the length of the rest wraps around.
  equals_behind :
      (s : S)
      → parse_equals (at_text [] (b'=' ∷ [])) s ≡ done (record { p = []; remain = 2 ^ 64 - 1 }) s
  unfolding parse_equals
  equals_behind s = refl

  ows_behind : (s : S) → consume_ows (record { p = []; remain = 2 ^ 64 - 1 }) s ≡ fault
  unfolding consume_ows count_while
  ows_behind s = refl

  token_at_end :
      (key : Bytes) (s : S)
      → length key < 2 ^ 64
      → IsToken key
      → parse_token (at_text key (b'=' ∷ [])) s ≡ done (of_bytes key, at_text [] (b'=' ∷ [])) s
  token_at_end key s fits h =
      subst
        (λ k.
          length k < 2 ^ 64
          → parse_token (at_text k (b'=' ∷ [])) s ≡ done (of_bytes key, at_text [] (b'=' ∷ [])) s)
        (append-nil key) (λ f. parse_token-append key [] (b'=' ∷ []) s f h tt) fits

  nothing_left : (s : S) → consume_ows (at_text [] (b'=' ∷ [])) s ≡ done (at_text [] (b'=' ∷ [])) s
  unfolding consume_ows count_while
  nothing_left s = refl

  param_overrun :
      (key : Bytes) (s : S)
      → length key < 2 ^ 64
      → IsToken key
      → parse_param param_handler (at_text key (b'=' ∷ [])) s ≡ fault
  unfolding parse_param
  param_overrun key s fits h =
      rw (token_at_end key s fits h, nothing_left s, equals_behind s, ows_behind s, ◌>>=◌)

token_given : (key : Bytes) → IsToken key → ltb 0 (length key) ≡ true
token_given [] (ne, h) = absurd (ne refl)
token_given (c ∷ key) h = ground arith

Stops-space-token_end : (key : Bytes) → IsToken key → Stops is_space key
Stops-space-token_end [] h = tt
Stops-space-token_end (c ∷ key) (_, (hc, _)) = token-not-space c hc

-- On a header of fewer than 2 ^ 64 bytes that is a scheme, white space and a key, with an `=`
-- behind it in memory and nothing else that may be read, and where the scheme handler accepts the
-- scheme, hawkc_parse_auth_header takes the sign for the key's and reads out of range.
pub parse_auth_header-overrun :
    {S : Type 0} ⦃session : Session S⦄ (scheme_handler : SchemeHandler S)
    (param_handler : ParamHandler S) (scheme key : Bytes) (c : ℕ) (ows : Bytes) (s s' : S)
    → IsToken scheme
    → IsOws (c ∷ ows)
    → IsToken key
    → scheme_handler (of_bytes scheme) s ≡ done tt s'
    → length (scheme ++ ((c ∷ ows) ++ key)) < 2 ^ 64
    → let text = scheme ++ ((c ∷ ows) ++ key) in
      parse_auth_header (text ++ (b'=' ∷ [])) (length text) scheme_handler param_handler s ≡ fault
unfolding parse_auth_header params_loop
parse_auth_header-overrun scheme_handler param_handler scheme key c ows s s' hs ho hk accepted
      fits =
    let fits1 = suffix-lt scheme ((c ∷ ows) ++ key) fits in
    let behind : Bytes = b'=' ∷ [] in
    let alone : c ∷ ows ≡ [] → key ≡ [] = λ e. absurd cc in
    rw (
      parse_token-append scheme ((c ∷ ows) ++ key) behind s fits hs
          (Stops-token-rest (c ∷ ows) key alone ho),
      accepted,
      consume_ows-append (c ∷ ows) key behind s' fits1 ho (Stops-space-token_end key hk),
      token_given key hk,
      param_overrun param_handler key s' (suffix-lt (c ∷ ows) key fits1) hk,
      ◌>>=◌,
    )
