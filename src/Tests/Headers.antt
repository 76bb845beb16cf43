-- ===== src/Tests/Headers.antt =====
-- A run of hawkc_parse_authorization_header on `Hawk id="a\"b" , ts = 5,`.
use hawkc.Base.{List, [], ◌∷◌, ◌++◌, Bytes, codes, length, ◌≡◌, refl, arith}
use hawkc.Tests.Checks.{every_sound}
use hawkc.Context.{init}
use hawkc.Authorization.{authorization_scheme_handler, param_handler, context_session}
use hawkc.Parser.{is_token, is_space, parse_auth_header}
use hawkc.Parser.Grammar.{
  Param, IsParam, Params, Header, IsQuoted, header, plain, escape, quoted, token, more,
  handle_header,
}
use hawkc.Parser.Complete.{parse_auth_header-render}

abbrev id_param : Param
id_param = record {
  key = codes "id";
  before_equals = [];
  before_value = [];
  value = quoted (codes "a\\\"b");
  behind = codes " ";
}

abbrev ts_param : Param
ts_param = record {
  key = codes "ts";
  before_equals = codes " ";
  before_value = codes " ";
  value = token (codes "5");
  behind = [];
}

id_param-IsParam : IsParam id_param
unfolding is_token is_space
id_param-IsParam = record {
  key_token = (ground arith, every_sound is_token (codes "id") refl);
  before_equals_ows = tt;
  before_value_ows = tt;
  value_valid = plain refl refl (escape refl (plain refl refl IsQuoted.end));
  behind_ows = (refl, tt);
}

ts_param-IsParam : IsParam ts_param
unfolding is_token is_space
ts_param-IsParam = record {
  key_token = (ground arith, every_sound is_token (codes "ts") refl);
  before_equals_ows = (refl, tt);
  before_value_ows = (refl, tt);
  value_valid = (ground arith, every_sound is_token (codes "5") refl);
  behind_ows = tt;
}

abbrev params : List Param
params = id_param ∷ ts_param ∷ []

abbrev text : Bytes
text = codes "Hawk id=\"a\\\"b\" ,ts = 5,"

text-Header : Header (codes "Hawk") params text
unfolding is_token is_space
text-Header =
    header (codes " ") (codes "id=\"a\\\"b\" ,ts = 5,")
      (ground arith, every_sound is_token (codes "Hawk") refl) (refl, tt)
      (λ e. absurd (ground arith))
      (more [] (codes "ts = 5,") id_param-IsParam tt (more [] [] ts_param-IsParam tt Params.none))

parse_auth_header-render_example :
    parse_auth_header
      (text ++ codes "=junk")
      (length text)
      authorization_scheme_handler
      param_handler
      init
    ≡ handle_header authorization_scheme_handler param_handler (codes "Hawk") params init
parse_auth_header-render_example =
    parse_auth_header-render authorization_scheme_handler param_handler text (codes "=junk") init
      text-Header (omega arith)
