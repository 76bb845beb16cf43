-- ===== src/Authorization/RoundTrip.antt =====
-- hawkc_create_authorization_header and hawkc_parse_authorization_header of
-- hawkc/authorization.c: what is sent is what is received.
use hawkc.Base.{
  ◌<◌, ◌^◌, List, [], ◌∷◌, ◌++◌, some, Bytes, codes, length, ◌≡◌, refl, ap, ◌∙◌, arith,
}
use hawkc.Base.Int.{pos}
use hawkc.Context.{HawkcContext, HawkcString, AuthorizationHeader, of_bytes}
use hawkc.Outcome.{done, ◌>>=◌, ◌>>◌}
use hawkc.Authorization.{
  context_session, param_handler, authorization_scheme_handler, parse_authorization_header,
}
use hawkc.Authorization.Handlers.{
  with_in, scheme_handled, ts_handled, handled, param_handler-handled,
}
use hawkc.Parser.Complete.{parse_auth_header-render}
use hawkc.Time.Ttoa.Length.{length-decimal_int}
use hawkc.Decimal.{decimal, decimal_spells}
use hawkc.Parser.Grammar.{handle_params, handle_header}
use hawkc.Authorization.Create.{create_authorization_header}
use hawkc.Authorization.Fields.{Contents, Field, IsQuotable, to_params, optional}
use hawkc.Authorization.Text.{
  IsCarried, header_text, create-header_text, all_params, header_text-Header,
}

-- What the receiver has of a parameter that may be left out: its text, or what was there before.
abbrev pub received_text : Bytes → HawkcString → HawkcString
received_text [] old = old
received_text (c ∷ text) old = of_bytes (c ∷ text)

-- The received header, over an older one.
abbrev pub received : Contents → AuthorizationHeader → AuthorizationHeader
received c old = record old {
  id = of_bytes c.id;
  nonce = of_bytes c.nonce;
  mac = of_bytes c.mac;
  ts = pos c.ts;
  ext = received_text c.ext old.ext;
  app = received_text c.app old.app;
  dlg = received_text c.dlg old.dlg;
}

dlg_received :
    (text : Bytes) (ctx : HawkcContext)
    → handle_params param_handler (to_params (optional (codes "dlg") text [])) ctx
      ≡ done tt
          (with_in ctx (record (ctx.header_in) { dlg = received_text text ctx.header_in.dlg }))
dlg_received [] ctx = refl
dlg_received (c ∷ text) ctx =
    rw (param_handler-handled (codes "dlg") (of_bytes (c ∷ text)) ctx, ◌>>=◌, ◌>>◌)

app_received :
    (text : Bytes) (fs : List Field) (ctx : HawkcContext)
    → handle_params param_handler (to_params (optional (codes "app") text fs)) ctx
      ≡ handle_params param_handler
          (to_params fs)
          (with_in ctx (record (ctx.header_in) { app = received_text text ctx.header_in.app }))
app_received [] fs ctx = refl
app_received (c ∷ text) fs ctx =
    rw (param_handler-handled (codes "app") (of_bytes (c ∷ text)) ctx, ◌>>=◌, ◌>>◌)

ext_received :
    (text : Bytes) (fs : List Field) (ctx : HawkcContext)
    → handle_params param_handler (to_params (optional (codes "ext") text fs)) ctx
      ≡ handle_params param_handler
          (to_params fs)
          (with_in ctx (record (ctx.header_in) { ext = received_text text ctx.header_in.ext }))
ext_received [] fs ctx = refl
ext_received (c ∷ text) fs ctx =
    rw (param_handler-handled (codes "ext") (of_bytes (c ∷ text)) ctx, ◌>>=◌, ◌>>◌)

all_received :
    (c : Contents) (ctx : HawkcContext)
    → c.ts < 2 ^ 31
    → handle_header authorization_scheme_handler param_handler (codes "Hawk") (all_params c) ctx
      ≡ done tt (with_in ctx (received c ctx.header_in))
all_received c ctx small =
    let (digits, spells) = decimal_spells c.ts (omega arith) in
    let h0 = ctx.header_in in
    let h1 = record h0 { id = of_bytes c.id } in
    let h2 = record h1 { nonce = of_bytes c.nonce } in
    let h3 = record h2 { mac = of_bytes c.mac } in
    let h4 = record h3 { ts = pos c.ts } in
    let time : handled (codes "ts") (of_bytes (decimal c.ts)) (with_in ctx h3)
        ≡ done tt (with_in ctx h4) =
      ts_handled (with_in ctx h3) (decimal c.ts) digits (omega (arith, spells))
        (omega (arith, length-decimal_int c.ts small))
      ∙ ap (λ t. done tt (with_in ctx (record h3 { ts = pos t }))) spells in
    let h5 = record h4 { ext = received_text c.ext h0.ext } in
    let h6 = record h5 { app = received_text c.app h0.app } in
    rw (scheme_handled ctx, ◌>>=◌, ◌>>◌)
      (rw (param_handler-handled (codes "id") (of_bytes c.id) ctx, ◌>>=◌, ◌>>◌)
        (rw (param_handler-handled (codes "nonce") (of_bytes c.nonce) (with_in ctx h1), ◌>>=◌, ◌>>◌)
          (rw (param_handler-handled (codes "mac") (of_bytes c.mac) (with_in ctx h2), ◌>>=◌, ◌>>◌)
            (rw
              (
                param_handler-handled (codes "ts") (of_bytes (decimal c.ts)) (with_in ctx h3),
                time,
                ◌>>=◌,
                ◌>>◌,
              )
              (ext_received c.ext _ (with_in ctx h4)
                ∙ app_received c.app _ (with_in ctx h5)
                ∙ dlg_received c.dlg (with_in ctx h6))))))

pub parse-header_text :
    (client server : HawkcContext) (c : Contents) (mem : Bytes)
    → IsCarried client client.header_out c
    → IsQuotable c
    → length (header_text c) < 2 ^ 64
    → (create_authorization_header client ≡ some (header_text c))
      × (parse_authorization_header (header_text c ++ mem) (length (header_text c)) server
          ≡ done tt (with_in server (received c server.header_in)))
unfolding parse_authorization_header
parse-header_text client server c mem carried quotable fits = (
  create-header_text client c carried,
  parse_auth_header-render authorization_scheme_handler param_handler (header_text c) mem server
        (header_text-Header c quotable carried.ts_small) fits
      ∙ all_received c server carried.ts_small,
)

-- Where the strings of the header to be sent can be read and are fit to stand between quotes, its
-- time is from 0 to 2 ^ 31 - 1, and its text is shorter than 2 ^ 64 bytes,
-- hawkc_create_authorization_header writes a text from which hawkc_parse_authorization_header gets
-- id, nonce, mac and time, and those of ext, app and dlg that are not empty, into the parsed
-- header of any context; it changes nothing else there, and does not depend on what stands behind
-- the text in memory.
pub parse-create :
    (client server : HawkcContext) (c : Contents) (mem : Bytes)
    → IsCarried client client.header_out c
    → IsQuotable c
    → length (header_text c) < 2 ^ 64
    → (text : Bytes) × (create_authorization_header client ≡ some text)
      × (parse_authorization_header (text ++ mem) (length text) server
          ≡ done tt (with_in server (received c server.header_in)))
parse-create client server c mem carried quotable fits =
    let (created, received_is) = parse-header_text client server c mem carried quotable fits in
    (header_text c, created, received_is)
