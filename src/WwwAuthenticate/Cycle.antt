-- ===== src/WwwAuthenticate/Cycle.antt =====
-- From hawkc_calculate_www_authenticate_header_length to hawkc_parse_www_authenticate_header of
-- hawkc/www_authenticate.c.
use hawkc.Base.{
  ℕ, ◌<◌, ◌≤◌, ◌^◌, false, [], ◌∷◌, ◌++◌, some, Bytes, codes, length, length-append, ◌≡◌, sym, ap,
  ◌∙◌, arith,
}
use hawkc.Base.Int.{pos, is_zero}
use hawkc.Base64.Plain.{encode-IsQuoted}
use hawkc.Decimal.{decimal}
use hawkc.Outcome.{done}
use hawkc.Context.{HawkcContext, HawkcAlgorithm, of_bytes}
use hawkc.Time.Ttoa.{ttoa, number_of_digits}
use hawkc.Time.Ttoa.Length.{one_more, length-ttoa, length-ttoa_le}
use hawkc.Crypto.{Platform, IsPlatform}
use hawkc.Parser.Complete.{parse_auth_header-render}
use hawkc.Authorization.{context_session}
use hawkc.Authorization.Party.{load-IsReadable, positive}
use hawkc.Authorization.Fields.{closing}
use hawkc.WwwAuthenticate.{
  www_header_length, calculate_www_authenticate_header_length, parse_www_authenticate_header,
  www_authenticate_scheme_handler, www_authenticate_param_handler,
}
use hawkc.WwwAuthenticate.Bounds.{length-create_www_authenticate_header}
use hawkc.WwwAuthenticate.Create.{create_www_authenticate_header}
use hawkc.WwwAuthenticate.Received.{with_www, www_text, www_text-Header, www_received}
use hawkc.WwwAuthenticate.Signed.{
  IsServer, tsm_of, length-tsm_of, signed_server, calculate-signed_server, load-tsm, ttoa-decimal,
}

length-decimal : (t : ℕ) → t < 2 ^ 31 → length (decimal t) ≤ 11
length-decimal t small = length-ttoa_le (pos t) (decimal t) (ttoa-decimal t small)

number_of_digits_small : (t : ℕ) → t < 2 ^ 31 → number_of_digits (pos t) ≤ 11
number_of_digits_small t small =
    let (text, is, len) = length-ttoa (pos t) (omega arith) in
    omega (arith, len, length-ttoa_le (pos t) text is)

length-www_text :
    (t : ℕ) (tsm : Bytes) → t < 2 ^ 31 → length tsm ≤ 44 → length (www_text t tsm) < 2 ^ 64
length-www_text t tsm small short = omega (
  arith,
  length-decimal t small,
  length-append (decimal t) (closing ((codes "tsm", tsm) ∷ [])),
  length-append tsm (closing []),
)

module _ (os : Platform) (platform : IsPlatform os) (server : HawkcContext) (a : HawkcAlgorithm)
    (md : Bytes → Bytes → Bytes) (key : Bytes) (t : ℕ) where
  abbrev ready : HawkcContext
  ready = signed_server server (tsm_of os platform server a md key t)

  create-www_text :
      IsServer os platform server a md key t
      → create_www_authenticate_header ready
        ≡ some (www_text t (tsm_of os platform server a md key t))
  unfolding create_www_authenticate_header
  create-www_text v =
      let given : is_zero server.www_authenticate_header.ts ≡ false =
        ap is_zero v.ts_is ∙ ground (arith, v.ts_positive) in
      let written : ttoa server.www_authenticate_header.ts ≡ some (decimal t) =
        ap ttoa v.ts_is ∙ ttoa-decimal t v.ts_small in
      rw (given, written, load-tsm os platform server a md key t v)

  www_header_length-www_text :
      IsServer os platform server a md key t
      → www_header_length ready.www_authenticate_header
        ≡ length (www_text t (tsm_of os platform server a md key t))
  www_header_length-www_text v =
      let tsm = tsm_of os platform server a md key t in
      let counted : one_more server.www_authenticate_header.ts ≡ 0 =
        ap one_more v.ts_is ∙ positive t v.ts_positive in
      let (text, is, len) =
        length-create_www_authenticate_header ready
          (ap is_zero v.ts_is ∙ ground (arith, v.ts_positive))
          (load-IsReadable ready ready.www_authenticate_header.tsm tsm
            (load-tsm os platform server a md key t v))
          (rw v.ts_is (omega (arith, v.ts_small)))
          (rw v.ts_is (
            omega (
              arith,
              number_of_digits_small t v.ts_small,
              length-tsm_of os platform server a md key t v,
            ))) in
      let found : some (www_text t tsm) ≡ some text = sym (create-www_text v) ∙ is in
      let same : www_text t tsm ≡ text = cc in
      let same_length : length (www_text t tsm) ≡ length text = ap length same in
      omega (arith, len, counted)

  -- Where a server's context has its buffers as hawkc_context_init sets them up, an algorithm, a
  -- password that can be read (not NULL, and of a length that HMAC_Init takes as an `int`), and a
  -- time from 1 to 2 ^ 31 - 1, hawkc_calculate_www_authenticate_header_length returns HAWKC_OK
  -- with the length of the text that hawkc_create_www_authenticate_header then writes; and from
  -- that text, whatever stands behind it in memory, hawkc_parse_www_authenticate_header gets the
  -- time, and for tsm the base64 text of the HMAC under the password of the prefix and the time,
  -- each with a line feed. It changes nothing else in any client's context. OpenSSL's digests are
  -- assumed to have 20 and 32 bytes.
  pub parse-create_www :
      (client : HawkcContext) (mem : Bytes)
      → IsServer os platform server a md key t
      → (after : HawkcContext) × (text : Bytes) × (calculate_www_authenticate_header_length os
            server
          ≡ done (length text) after)
        × (create_www_authenticate_header after ≡ some text)
        × (parse_www_authenticate_header (text ++ mem) (length text) client
            ≡ done tt (
                with_www client
                  (record { ts = pos t; tsm = of_bytes (tsm_of os platform server a md key t) })))
  unfolding parse_www_authenticate_header
  parse-create_www client mem v =
      let tsm = tsm_of os platform server a md key t in
      let short = length-tsm_of os platform server a md key t v in
      (
        ready,
        www_text t tsm,
        calculate-signed_server os platform server a md key t v
            ∙ ap (λ n. done n ready) (www_header_length-www_text v),
        create-www_text v,
        parse_auth_header-render www_authenticate_scheme_handler www_authenticate_param_handler
              (www_text t tsm) mem client
              (www_text-Header t tsm v.ts_small (encode-IsQuoted (md key _)))
              (length-www_text t tsm v.ts_small short)
            ∙ www_received t tsm client v.ts_small,
      )
