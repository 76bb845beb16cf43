-- ===== src/Authorization/Authentic.antt =====
-- What a server of hawkc/authorization.c knows of a header that it has parsed and found valid.
use hawkc.Base.{
  ℕ, ◌<◌, ◌^◌, true, List, [], ◌∷◌, ◌++◌, Option, none, some, Bytes, codes, length, append-nil, ◌≡◌,
  ◌≢◌, refl, sym, ap, ◌∙◌,
}
use mathlib.Core.Path.{subst}
use hawkc.Outcome.{done}
use hawkc.Outcome.Done.{Done-returned}
use hawkc.Context.{HawkcContext, Block, null, at, pointee}
use hawkc.Parser.Grammar.{Param, Header, handle_header}
use hawkc.Parser.Sound.{parse_auth_header_sound}
use hawkc.Authorization.{
  context_session, authorization_scheme_handler, param_handler, parse_authorization_header,
  validate_hmac,
}
use hawkc.Context.Buffers.{IsContext}
use hawkc.Crypto.{Platform, IsPlatform}
use hawkc.Outcome.Keeps.{Keeps-done}
use hawkc.Calls.Parsing.{parse_authorization_header-KeepsBuffers}
use hawkc.Authorization.Genuine.{IsGenuine, validate_hmac-IsGenuine, mac_of-ne-nil}
use hawkc.Authorization.LastMac.{last_mac, mac_left, handle_header-Done}

-- The header that was parsed is a Hawk header with a MAC, which is genuine.
pub record IsAuthentic (os : Platform) (server parsed : HawkcContext) (text : Bytes) : Type 0 where
  pub params : List Param
  pub mac : Bytes
  pub text_is : Header (codes "Hawk") params text
  pub mac_is : last_mac params ≡ some mac
  pub handled_are :
      handle_header authorization_scheme_handler param_handler (codes "Hawk") params server
      ≡ done tt parsed
  pub genuine : IsGenuine os parsed mac

pointee-null : (ctx : HawkcContext) → pointee ctx null ≡ []
pointee-null ctx = unfold pointee in refl

pointee-at : (ctx : HawkcContext) (bytes : Bytes) → pointee ctx (at bytes) ≡ bytes
pointee-at ctx bytes = unfold pointee in refl

module _ (os : Platform) (h : IsPlatform os) (server : HawkcContext) (left : List Block)
    (context : IsContext left server)
    (fresh : server.header_in.mac ≡ record { len = 0; chars = null }) (text : Bytes) (x : ℕ)
    (mem : Bytes) (fits : length text < 2 ^ 64) (other : x ≢ b'=') (parsed : HawkcContext)
    (accepted : parse_authorization_header (text ++ (x ∷ mem)) (length text) server
      ≡ done tt parsed) where
  found-IsGenuine :
      (o : Option Bytes) (after : HawkcContext)
      → parsed.header_in.mac ≡ mac_left o server.header_in.mac
      → validate_hmac os parsed ≡ done true after
      → (mac : Bytes) × (o ≡ some mac) × IsGenuine os parsed mac
  found-IsGenuine o after mac_is valid = by_last o mac_is
    where
      there : IsContext left parsed
      there = Keeps-done _ _ (parse_authorization_header-KeepsBuffers _ _ server context) accepted

      by_last :
          (o : Option Bytes)
          → parsed.header_in.mac ≡ mac_left o server.header_in.mac
          → (mac : Bytes) × (o ≡ some mac) × IsGenuine os parsed mac
      by_last none mac_is =
          let empty = mac_is ∙ fresh in
          let g =
            validate_hmac-IsGenuine os h parsed [] [] there.hmac_has there.hmac_at
              (ap (λ m. m.len) empty) (λ s. ap (λ m. pointee s m.chars) empty ∙ pointee-null s)
              after valid in
          absurd (mac_of-ne-nil os h parsed g.keyed g.base (sym g.mac_is))
      by_last (some mac) mac_is = (
        mac,
        refl,
        validate_hmac-IsGenuine os h parsed mac [] there.hmac_has there.hmac_at
            (ap (λ m. m.len) mac_is)
            (λ s. ap (λ m. pointee s m.chars) mac_is ∙ pointee-at s mac ∙ sym (append-nil mac))
            after valid,
      )

  -- Let a server's context have its buffers as hawkc_context_init sets them up, and a parsed MAC
  -- that is empty, of length 0 and NULL; let a text of fewer than 2 ^ 64 bytes have a byte other
  -- than `=` behind it in memory; and let hawkc_parse_authorization_header return HAWKC_OK for it,
  -- and hawkc_validate_hmac, called next, say that it is valid. Then the text is a header of the
  -- grammar with the scheme Hawk and a parameter mac; the context is what the handlers make of the
  -- header's parameters, in order; its algorithm is set and known; its password is not NULL, and
  -- has a key: its bytes up to the length that HMAC_Init is given, an `int` that is not negative;
  -- and the last mac of the header is the base64 text of the HMAC, under that algorithm and key,
  -- of the context's base string. A call with undefined behaviour returns no verdict: where the
  -- key is missing, HMAC_Init documents no result and the code uses `buf` and `len` all the same,
  -- and a time of 2 ^ 31 digits or more overflows the parser's counter. OpenSSL's digests are
  -- assumed to have 20 and 32 bytes.
  pub validate_hmac-IsAuthentic :
      (after : HawkcContext)
      → validate_hmac os parsed ≡ done true after
      → IsAuthentic os server parsed text
  unfolding parse_authorization_header
  validate_hmac-IsAuthentic after valid =
      let (scheme, qs, text_is, calls) =
        parse_auth_header_sound authorization_scheme_handler param_handler text x mem server parsed
          fits other accepted in
      let (hawk, mac_is) = Done-returned calls (handle_header-Done scheme qs server) in
      let (mac, last, genuine) = found-IsGenuine (last_mac qs) after mac_is valid in
      record {
        params = qs;
        mac = mac;
        text_is = subst (λ s. Header s qs text) hawk text_is;
        mac_is = last;
        handled_are =
            subst
              (λ s.
                handle_header authorization_scheme_handler param_handler s qs server
                ≡ done tt parsed)
              hawk calls;
        genuine = genuine;
      }
