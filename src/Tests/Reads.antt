-- ===== src/Tests/Reads.antt =====
-- Runs of hawkc/parser.c near the end of a header.
use hawkc.Base.{List, Bytes, [], ◌∷◌, ◌++◌, codes, ◌≡◌, refl, arith}
use hawkc.Tests.Checks.{every_sound}
use hawkc.Outcome.{done, fault, modify}
use hawkc.Context.{of_bytes, HawkcContext, init}
use hawkc.Authorization.{context_session, authorization_scheme_handler, param_handler}
use hawkc.Authorization.Handlers.{scheme_handled}
use hawkc.Parser.{
  is_token, is_space, SchemeHandler, ParamHandler, parse_auth_header, count_while, quoted_loop,
  consume_ows, parse_token, parse_quoted_text, parse_value, parse_equals, parse_delimiter,
  parse_param, params_loop,
}
use hawkc.Parser.Grammar.{Param, Header, handle_header}
use hawkc.Parser.Sound.{parse_auth_header_sound}
use hawkc.Parser.Overrun.{parse_auth_header-overrun}

-- Handlers that take everything, and keep the last value as the password.
abbrev any_scheme : SchemeHandler HawkcContext
any_scheme scheme s = done tt s

abbrev keep : ParamHandler HawkcContext
keep key value = modify λ s. record s { password = value }

-- `Hawk id`, with an equals sign behind it.
parse_auth_header-overrun_example :
    parse_auth_header
      (codes "Hawk id" ++ (b'=' ∷ []))
      7
      authorization_scheme_handler
      param_handler
      init
    ≡ fault
unfolding is_token is_space
parse_auth_header-overrun_example =
    parse_auth_header-overrun authorization_scheme_handler param_handler (codes "Hawk") (codes "id")
      b' ' [] init init (ground arith, every_sound is_token (codes "Hawk") refl) (refl, tt)
      (ground arith, every_sound is_token (codes "id") refl) (scheme_handled init) (omega arith)

-- A header with white space around the sign and a comma at its end, and with a zero behind it.
parse_auth_header_sound_example :
    (scheme : Bytes) × (qs : List Param) × Header scheme qs (codes "Hawk id = \"me\" ,")
    × (handle_header any_scheme keep scheme qs init
        ≡ done tt (record init { password = of_bytes (codes "me") }))
unfolding parse_auth_header params_loop parse_param consume_ows parse_token parse_value parse_equals
    parse_quoted_text parse_delimiter quoted_loop count_while is_token is_space
parse_auth_header_sound_example =
    parse_auth_header_sound any_scheme keep (codes "Hawk id = \"me\" ,") 0 [] init
      (record init { password = of_bytes (codes "me") }) (omega arith) (λ e. ground arith) refl
