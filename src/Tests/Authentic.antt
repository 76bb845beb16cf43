-- ===== src/Tests/Authentic.antt =====
-- A server of hawkc/authorization.c that has just been set up, and a signed header for it.
use hawkc.Base.{true, [], ◌∷◌, codes, ◌≡◌, refl, arith}
use hawkc.Base.Int.{pos}
use hawkc.Base64.Plain.{encode-IsQuoted}
use hawkc.Tests.Requests.{os, os-IsPlatform, request, given_header}
use hawkc.Outcome.{done}
use hawkc.Context.{HawkcContext, of_bytes, null, init, load-of_bytes}
use hawkc.Context.Buffers.{IsContext}
use hawkc.Crypto.{hawkc_sha_256}
use hawkc.Time.Ttoa.{number_of_digits, count_digits}
use hawkc.Authorization.{context_session, validate_hmac}
use hawkc.Authorization.Handlers.{with_in}
use hawkc.Authorization.Fields.{Contents, IsQuotable}
use hawkc.Authorization.Text.{IsCarried, header_text}
use hawkc.Authorization.RoundTrip.{received, parse-header_text}
use hawkc.Authorization.Party.{base_text}
use hawkc.Authorization.Ready.{
  IsFresh, signed_contents, found_valid, IsParty-with_in, Room-with_in, received-IsCarried,
}
use hawkc.Authorization.Authentic.{IsAuthentic, validate_hmac-IsAuthentic}
use hawkc.Tests.RoundTrip.{contents, quotable, asked, md, party, client-Room, sent_short}

-- A server that has just been set up, with the same request.
abbrev new_server : HawkcContext
new_server =
    request (record (given_header [] (pos 0) []) { mac = record { len = 0; chars = null } })

new_server-IsContext : IsContext [] new_server
unfolding init
new_server-IsContext = record {
  hmac_at = refl;
  ts_hmac_at = refl;
  nonce_at = refl;
  hmac_has = refl;
  ts_hmac_has = refl;
  nonce_has = refl;
  blocks_are = refl;
}

-- What a client that has signed the request has in its header.
abbrev sent : Contents
sent = signed_contents md (codes "secret") asked contents

abbrev sender : HawkcContext
sender =
    request
      (record (given_header [] (pos 1353832234) (codes "some-data")) { mac = of_bytes sent.mac })

sent-IsCarried : IsCarried sender sender.header_out sent
sent-IsCarried = record {
  id_is = load-of_bytes sender (codes "me");
  nonce_is = load-of_bytes sender (codes "j4h3g2");
  mac_is = load-of_bytes sender sent.mac;
  ts_is = refl;
  ts_small = omega arith;
  ext_is = load-of_bytes sender (codes "some-data");
  app_is = load-of_bytes sender [];
  dlg_is = load-of_bytes sender [];
}

sent-IsQuotable : IsQuotable sent
sent-IsQuotable = record {
  id_quoted = quotable.id_quoted;
  nonce_quoted = quotable.nonce_quoted;
  mac_quoted = encode-IsQuoted (md (codes "secret") (base_text asked contents));
  ext_quoted = quotable.ext_quoted;
  app_quoted = quotable.app_quoted;
  dlg_quoted = quotable.dlg_quoted;
}

new_server-IsFresh : IsFresh new_server
new_server-IsFresh = record {
  ext_empty = load-of_bytes new_server [];
  app_empty = load-of_bytes new_server [];
  dlg_empty = load-of_bytes new_server [];
}

abbrev got : HawkcContext
got = with_in new_server (received sent new_server.header_in)

got_valid : (after : HawkcContext) × (validate_hmac os got ≡ done true after)
unfolding number_of_digits count_digits
got_valid =
    found_valid os os-IsPlatform md (codes "secret") asked sent 512 hawkc_sha_256 got
      (IsParty-with_in os md (codes "secret") asked hawkc_sha_256 new_server
        (received sent new_server.header_in) (party new_server.header_in))
      (omega arith) (omega arith)
      (Room-with_in os new_server (received sent new_server.header_in) _ 512
        (client-Room new_server))
      (received-IsCarried new_server sent new_server-IsFresh (omega arith)) refl

-- A zero stands behind the header.
validate_hmac-IsAuthentic_example : IsAuthentic os new_server got (header_text sent)
validate_hmac-IsAuthentic_example =
    validate_hmac-IsAuthentic os os-IsPlatform new_server [] new_server-IsContext refl
      (header_text sent) 0 [] sent_short (λ e. ground arith) got
      (parse-header_text sender new_server sent (0 ∷ []) sent-IsCarried sent-IsQuotable
        sent_short).1
      got_valid.0 got_valid.1
