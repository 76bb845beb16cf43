-- ===== src/Authorization/Accepts.antt =====
-- A client and a server of hawkc/authorization.c with the same password and request: the server
-- accepts what the client sends.
use hawkc.Base.{ℕ, ◌^◌, ◌<◌, true, ◌++◌, some, Bytes, length, ◌≡◌, refl}
use hawkc.Base64.Plain.{encode-IsQuoted}
use hawkc.Outcome.{done}
use hawkc.Context.{HawkcContext, HawkcAlgorithm}
use hawkc.Crypto.{Platform, IsPlatform}
use hawkc.Authorization.{
  parse_authorization_header, validate_hmac, calculate_authorization_header_length,
}
use hawkc.Authorization.Buffer.{Room}
use hawkc.Authorization.Create.{create_authorization_header, header_length}
use hawkc.Authorization.Handlers.{with_in}
use hawkc.Authorization.Fields.{Contents, IsQuotable}
use hawkc.Authorization.Text.{IsCarried, header_text}
use hawkc.Authorization.RoundTrip.{received, parse-header_text}
use hawkc.Authorization.Party.{Request, IsParty, base_text, required}
use hawkc.Authorization.Ready.{
  IsApart, IsFresh, signed_contents, client_ready, found_valid, Room-small, IsParty-with_in,
  Room-with_in, received-IsCarried,
}

-- What a client has ready to send, a server accepts.
pub server_accepts :
    (os : Platform) (platform : IsPlatform os) (md : Bytes → Bytes → Bytes) (key : Bytes)
    (r : Request) (c : Contents) (b : HawkcAlgorithm) (room : ℕ) (ready server : HawkcContext)
    (mem : Bytes)
    → IsParty os md key r b server
    → IsCarried ready ready.header_out (signed_contents md key r c)
    → IsQuotable c
    → IsFresh server
    → 0 < c.ts
    → Room os server (required r c) room
    → let text = header_text (signed_contents md key r c) in
      length text < 2 ^ 64
      → (parsed : HawkcContext) × (after : HawkcContext) × (create_authorization_header ready
          ≡ some text)
        × (parse_authorization_header (text ++ mem) (length text) server ≡ done tt parsed)
        × (validate_hmac os parsed ≡ done true after)
server_accepts os platform md key r c b room ready server mem receiver carried quotable fresh
      positive_time has_room fits =
    let sent = signed_contents md key r c in
    let quoted : IsQuotable sent = record {
      id_quoted = quotable.id_quoted;
      nonce_quoted = quotable.nonce_quoted;
      mac_quoted = encode-IsQuoted (md key (base_text r c));
      ext_quoted = quotable.ext_quoted;
      app_quoted = quotable.app_quoted;
      dlg_quoted = quotable.dlg_quoted;
    } in
    let (created, received_is) = parse-header_text ready server sent mem carried quoted fits in
    let h = received sent server.header_in in
    let parsed = with_in server h in
    let (after, valid) =
      found_valid os platform md key r sent room b parsed
        (IsParty-with_in os md key r b server h receiver) positive_time
        (Room-small os server (required r c) room has_room)
        (Room-with_in os server h (required r c) room has_room)
        (received-IsCarried server sent fresh carried.ts_small) refl in
    (parsed, after, created, received_is, valid)

-- Let a client and a server have the same password (not NULL, and of a length that HMAC_Init takes
-- as an `int`), method, path, host and port, digests of the same function, HMAC buffers as
-- hawkc_context_init sets them up, and buffers for the base string; let the client have set an id
-- and a nonce that are not empty, and a time from 1 to 2 ^ 31 - 1, with no string in the buffer
-- for the HMAC, all texts being fit to stand between quotes; let the server have no ext, app and
-- dlg of an earlier header; and let the header be shorter than 2 ^ 64 bytes. Then
-- hawkc_calculate_authorization_header_length, hawkc_create_authorization_header, the server's
-- hawkc_parse_authorization_header of the text (whatever stands behind it in memory) and its
-- hawkc_validate_hmac all return HAWKC_OK, and the verdict is that the header is valid. OpenSSL's
-- digests are assumed to have 20 and 32 bytes.
pub validate-create :
    (os : Platform) (platform : IsPlatform os) (md : Bytes → Bytes → Bytes) (key : Bytes)
    (r : Request) (c : Contents) (a b : HawkcAlgorithm) (room room' : ℕ)
    (client server : HawkcContext) (mem : Bytes)
    → IsParty os md key r a client
    → IsParty os md key r b server
    → IsCarried client client.header_out c
    → IsApart client.header_out
    → IsQuotable c
    → IsFresh server
    → 0 < c.ts
    → 0 < length c.id
    → 0 < length c.nonce
    → Room os client (required r c) room
    → Room os server (required r c) room'
    → length (header_text (signed_contents md key r c)) < 2 ^ 64
    → (ready : HawkcContext) × (text : Bytes) × (parsed : HawkcContext) × (after : HawkcContext)
      × (calculate_authorization_header_length os client
          ≡ done (header_length ready.header_out) ready)
      × (create_authorization_header ready ≡ some text)
      × (parse_authorization_header (text ++ mem) (length text) server ≡ done tt parsed)
      × (validate_hmac os parsed ≡ done true after)
validate-create os platform md key r c a b room room' client server mem sender receiver x apart
      quotable fresh positive_time id_given nonce_given has_room has_room' fits =
    let fits_room = Room-small os client (required r c) room has_room in
    let (ready, prepared, carried, _, _) =
      client_ready os platform md key r c room a client sender positive_time fits_room has_room x
        apart id_given nonce_given in
    let (parsed, after, created, received_is, valid) =
      server_accepts os platform md key r c b room' ready server mem receiver carried quotable fresh
        positive_time has_room' fits in
    (
      ready,
      header_text (signed_contents md key r c),
      parsed,
      after,
      prepared,
      created,
      received_is,
      valid,
    )
