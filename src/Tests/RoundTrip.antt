-- ===== src/Tests/RoundTrip.antt =====
-- A client and a server of hawkc/authorization.c that run the same request.
use hawkc.Base.{
  ◌^◌, ◌<◌, true, [], ◌++◌, some, Bytes, codes, length, replicate, ◌%◌, ◌≡◌, ◌≢◌, refl, arith,
}
use hawkc.Base.Int.{pos}
use hawkc.Base64.Plain.{all_pass-IsQuoted}
use hawkc.Tests.Requests.{os, os-IsPlatform, request, given_header}
use hawkc.Outcome.{done, no_fuel}
use hawkc.Context.{HawkcContext, AuthorizationHeader, at, hmac_buffer, init, load-of_bytes}
use hawkc.Crypto.Key.{key_of-of_bytes}
use hawkc.Crypto.{digest, hawkc_sha_256}
use hawkc.Time.Ttoa.{number_of_digits, count_digits}
use hawkc.Decimal.{digits_up}
use hawkc.Base64
use hawkc.Sextets.{pad_of}
use hawkc.Alphabet.{encode_loop}
use hawkc.Parser.Terminates.{parse_auth_header-ne-no_fuel}
use hawkc.Authorization.Terminates.{scheme_handler-ne-no_fuel, param_handler-ne-no_fuel}
use hawkc.Parser.{parse_auth_header}
use hawkc.Authorization.{
  parse_authorization_header, authorization_scheme_handler, param_handler, context_session,
  validate_hmac, calculate_authorization_header_length,
}
use hawkc.Authorization.Create.{create_authorization_header, header_length}
use hawkc.Authorization.Buffer.{Room, static}
use hawkc.Authorization.Handlers.{with_in}
use hawkc.Authorization.Fields.{Contents, IsQuotable}
use hawkc.Authorization.Text.{IsCarried, header_text}
use hawkc.Authorization.RoundTrip.{received, parse-create}
use hawkc.Authorization.Party.{Request, IsParty, required}
use hawkc.Authorization.Ready.{IsApart, IsFresh, signed_contents}
use hawkc.Authorization.Accepts.{validate-create}

-- What the client's header has.
abbrev pub contents : Contents
contents = record {
  id = codes "me";
  nonce = codes "j4h3g2";
  mac = [];
  ts = 1353832234;
  ext = codes "some-data";
  app = [];
  dlg = [];
}

abbrev pub client : HawkcContext
client = request (given_header [] (pos 1353832234) (codes "some-data"))

-- Before it has received anything.
abbrev pub server : HawkcContext
server = request (given_header [] (pos 0) [])

carried : IsCarried client client.header_out contents
carried = record {
  id_is = load-of_bytes client (codes "me");
  nonce_is = load-of_bytes client (codes "j4h3g2");
  mac_is = load-of_bytes client [];
  ts_is = refl;
  ts_small = omega arith;
  ext_is = load-of_bytes client (codes "some-data");
  app_is = load-of_bytes client [];
  dlg_is = load-of_bytes client [];
}

pub quotable : IsQuotable contents
quotable = record {
  id_quoted = all_pass-IsQuoted (codes "me") refl;
  nonce_quoted = all_pass-IsQuoted (codes "j4h3g2") refl;
  mac_quoted = all_pass-IsQuoted [] refl;
  ext_quoted = all_pass-IsQuoted (codes "some-data") refl;
  app_quoted = all_pass-IsQuoted [] refl;
  dlg_quoted = all_pass-IsQuoted [] refl;
}

text_short : length (header_text contents) < 2 ^ 64
unfolding digits_up
text_short = omega arith

-- What stands behind the header in the server's memory looks like another parameter.
parse-create_example :
    (text : Bytes) × (create_authorization_header client ≡ some text)
    × (parse_authorization_header (text ++ codes ",id=\"you\"") (length text) server
        ≡ done tt (with_in server (received contents server.header_in)))
parse-create_example =
    parse-create client server contents (codes ",id=\"you\"") carried quotable text_short

-- The request as both parties know it.
abbrev pub asked : Request
asked = record {
  method = codes "GET";
  path = codes "/resource";
  host = codes "example.com";
  port = codes "80";
}

abbrev pub md : Bytes → Bytes → Bytes
md k d = replicate 32 (length d % 256)

pub party :
    (h : AuthorizationHeader) → IsParty os md (codes "secret") asked hawkc_sha_256 (request h)
unfolding init digest
party h = record {
  algorithm_is = refl;
  digest_is = refl;
  key_is = key_of-of_bytes (request h) (codes "secret") (omega arith);
  buffer_at = refl;
  buffer_size = refl;
  method_is = load-of_bytes (request h) (codes "GET");
  path_is = load-of_bytes (request h) (codes "/resource");
  host_is = load-of_bytes (request h) (codes "example.com");
  port_is = load-of_bytes (request h) (codes "80");
}

at-ne-hmac_buffer : (s : Bytes) → at s ≢ hmac_buffer
at-ne-hmac_buffer s e = cc

apart : IsApart client.header_out
apart = record {
  id_apart = at-ne-hmac_buffer (codes "me");
  nonce_apart = at-ne-hmac_buffer (codes "j4h3g2");
  ext_apart = at-ne-hmac_buffer (codes "some-data");
  app_apart = at-ne-hmac_buffer [];
  dlg_apart = at-ne-hmac_buffer [];
}

fresh : IsFresh server
fresh = record {
  ext_empty = load-of_bytes server [];
  app_empty = load-of_bytes server [];
  dlg_empty = load-of_bytes server [];
}

pub client-Room : (ctx : HawkcContext) → Room os ctx (required asked contents) 512
unfolding number_of_digits count_digits
client-Room ctx = static (omega arith)

pub sent_short : length (header_text (signed_contents md (codes "secret") asked contents)) < 2 ^ 64
unfolding digits_up Base64.encode Base64.encode_tail pad_of encode_loop
sent_short = omega arith

validate-create_example :
    (ready : HawkcContext) × (text : Bytes) × (parsed : HawkcContext) × (after : HawkcContext)
    × (calculate_authorization_header_length os client
        ≡ done (header_length ready.header_out) ready)
    × (create_authorization_header ready ≡ some text)
    × (parse_authorization_header (text ++ []) (length text) server ≡ done tt parsed)
    × (validate_hmac os parsed ≡ done true after)
validate-create_example =
    validate-create os os-IsPlatform md (codes "secret") asked contents hawkc_sha_256 hawkc_sha_256
      512 512 client server [] (party client.header_out) (party server.header_in) carried apart
      quotable fresh (omega arith) (omega arith) (omega arith) (client-Room client)
      (client-Room server) sent_short

-- A header without an end quote, in less memory than it is said to have.
parse_auth_header-ne-no_fuel_example :
    parse_auth_header (codes "Hawk id=\"me") 30 authorization_scheme_handler param_handler server
    ≢ no_fuel
parse_auth_header-ne-no_fuel_example =
    parse_auth_header-ne-no_fuel authorization_scheme_handler param_handler (codes "Hawk id=\"me")
      30 server scheme_handler-ne-no_fuel param_handler-ne-no_fuel
