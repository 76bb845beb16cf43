-- ===== src/WwwAuthenticate/Received.antt =====
-- What hawkc_parse_www_authenticate_header (hawkc/www_authenticate.c) gets from a header with a time
-- and a signature.
use hawkc.Base.{
  ℕ, ◌<◌, ◌^◌, [], ◌∷◌, ◌++◌, List, Bytes, codes, equal, ◌≡◌, refl, ap, ◌∙◌, arith, if◌then◌else◌,
}
use hawkc.Base.Int.{pos}
use hawkc.Time.Ttoa.Length.{length-decimal_int}
use hawkc.Decimal.{decimal, decimal_spells}
use hawkc.Outcome.{Action, done, pure, ◌>>=◌, ◌>>◌}
use hawkc.Context.{HawkcContext, HawkcString, WwwAuthenticateHeader, of_bytes, load-of_bytes}
use hawkc.Time.Parse.{parse_time}
use hawkc.Time.Parse.Exact.{parse_time_complete}
use hawkc.Parser.{is_token, is_space}
use hawkc.Parser.Grammar.{IsToken, IsQuoted, Header, header, handle_header}
use hawkc.Authorization.{context_session}
use hawkc.Authorization.Fields.{Field, to_params, closing, Params-closing}
use hawkc.Authorization.Handlers.{matches-equal, when_key-equal}
use hawkc.Authorization.Text.{digits-IsQuoted}
use hawkc.WwwAuthenticate.{www_authenticate_scheme_handler, www_authenticate_param_handler}

-- The context with another parsed or prepared header.
abbrev pub with_www : HawkcContext → WwwAuthenticateHeader → HawkcContext
with_www ctx h = record ctx { www_authenticate_header = h }

abbrev pub www_fields : ℕ → Bytes → List Field
www_fields t tsm = (codes "ts", decimal t) ∷ (codes "tsm", tsm) ∷ []

abbrev pub www_text : ℕ → Bytes → Bytes
www_text t tsm = codes "Hawk ts=\"" ++ (decimal t ++ closing ((codes "tsm", tsm) ∷ []))

www_tokens : IsToken (codes "Hawk") × IsToken (codes "ts") × IsToken (codes "tsm")
unfolding is_token
www_tokens = ground arith

pub www_text-Header :
    (t : ℕ) (tsm : Bytes)
    → t < 2 ^ 31
    → IsQuoted tsm
    → Header (codes "Hawk") (to_params (www_fields t tsm)) (www_text t tsm)
unfolding is_space
www_text-Header t tsm small quoted =
    let (hawk, ts, tsm_key) = www_tokens in
    let (digits, _) = decimal_spells t (omega arith) in
    let behind_ts = closing ((codes "tsm", tsm) ∷ []) in
    header (codes " ") (codes "ts" ++ (b'=' ∷ b'"' ∷ (decimal t ++ behind_ts))) hawk (refl, tt)
      (λ e. absurd (ground arith))
      (Params-closing (codes "ts") (decimal t) ((codes "tsm", tsm) ∷ [])
        (ts, digits-IsQuoted (decimal t) digits) ((tsm_key, quoted), tt))

abbrev put : (WwwAuthenticateHeader → WwwAuthenticateHeader) → Action HawkcContext (Unit {0})
put f ctx = done tt (with_www ctx (f ctx.www_authenticate_header))

www_param_handler-handled :
    (key : Bytes) (v : HawkcString) (ctx : HawkcContext)
    → www_authenticate_param_handler (of_bytes key) v ctx
      ≡ (if equal key (codes "tsm")
            then put (λ h. record h { tsm = v })
            else if equal key (codes "ts")
            then (parse_time v >>= λ ts. put (λ h. record h { ts = ts }))
            else pure tt)
          ctx
unfolding www_authenticate_param_handler
www_param_handler-handled key v ctx =
    when_key-equal ctx key "tsm" _ _ _ (when_key-equal ctx key "ts" _ (pure tt) (pure tt) refl)

www_scheme_handled :
    (ctx : HawkcContext)
    → www_authenticate_scheme_handler (of_bytes (codes "Hawk")) ctx ≡ done tt ctx
unfolding www_authenticate_scheme_handler
www_scheme_handled ctx = rw (matches-equal ctx (codes "Hawk") (codes "Hawk"))

pub www_received :
    (t : ℕ) (tsm : Bytes) (ctx : HawkcContext)
    → t < 2 ^ 31
    → handle_header www_authenticate_scheme_handler www_authenticate_param_handler
        (codes "Hawk")
        (to_params (www_fields t tsm))
        ctx
      ≡ done tt (with_www ctx (record { ts = pos t; tsm = of_bytes tsm }))
www_received t tsm ctx small =
    let (digits, spells) = decimal_spells t (omega arith) in
    let h = record (ctx.www_authenticate_header) { ts = pos t } in
    let time : parse_time (of_bytes (decimal t)) ctx ≡ done (pos t) ctx =
      parse_time_complete (of_bytes (decimal t)) ctx (decimal t) (load-of_bytes ctx (decimal t))
        digits (omega (arith, spells)) (omega (arith, length-decimal_int t small))
      ∙ ap (λ n. done (pos n) ctx) spells in
    rw (www_scheme_handled ctx, ◌>>=◌, ◌>>◌)
      (rw (www_param_handler-handled (codes "ts") (of_bytes (decimal t)) ctx, time, ◌>>=◌, ◌>>◌)
        (rw (www_param_handler-handled (codes "tsm") (of_bytes tsm) (with_www ctx h), ◌>>=◌, ◌>>◌)))
