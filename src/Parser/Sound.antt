-- ===== src/Parser/Sound.antt =====
-- What hawkc_parse_auth_header (hawkc/parser.c) accepts is a header of the grammar.
use hawkc.Base.{ℕ, ◌<◌, ◌^◌, ◌∷◌, ◌++◌, List, Bytes, length, ◌≡◌, ◌≢◌, sym, ◌∙◌}
use hawkc.Outcome.{done}
use hawkc.Outcome.Gives.{Gives-returned, Gives-any}
use hawkc.Parser.{Session, SchemeHandler, ParamHandler, parse_auth_header}
use hawkc.Parser.Grammar.{Param, Header, handle_header}
use hawkc.Parser.Complete.{parse_auth_header-render}
use hawkc.Parser.Rounds.{parse_auth_header-Gives}

-- Where a header of fewer than 2 ^ 64 bytes has a byte other than `=` behind it in memory, and
-- hawkc_parse_auth_header returns HAWKC_OK with any two handlers, the header is one of the grammar
-- (a token, white space, and parameters `key=value` or `key="value"` with commas between them),
-- and the state left is that of the handlers called for its scheme and its parameters in order.
pub parse_auth_header_sound :
    {S : Type 0} ⦃session : Session S⦄ (scheme_handler : SchemeHandler S)
    (param_handler : ParamHandler S) (text : Bytes) (x : ℕ) (mem : Bytes) (s s' : S)
    → length text < 2 ^ 64
    → x ≢ b'='
    → parse_auth_header (text ++ (x ∷ mem)) (length text) scheme_handler param_handler s
      ≡ done tt s'
    → (scheme : Bytes) × (qs : List Param) × Header scheme qs text
      × (handle_header scheme_handler param_handler scheme qs s ≡ done tt s')
parse_auth_header_sound scheme_handler param_handler text x mem s s' fits other accepted =
    let (scheme, qs, h) = Gives-returned accepted (
      parse_auth_header-Gives scheme_handler param_handler
        (λ scheme t. Gives-any (scheme_handler scheme t) tt)
        (λ key value t. Gives-any (param_handler key value t) tt) text x mem s fits other) in
    (
      scheme,
      qs,
      h,
      sym (parse_auth_header-render scheme_handler param_handler text (x ∷ mem) s h fits)
          ∙ accepted,
    )
