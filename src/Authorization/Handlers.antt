-- ===== src/Authorization/Handlers.antt =====
-- The callbacks of hawkc_parse_authorization_header (hawkc/authorization.c) on each key.
use hawkc.Base.{
  ◌<◌, ◌^◌, Bytes, String, true, Bool-cases, inl, inr, equal, equal_iff, length, ◌==◌,
  if◌then◌else◌, codes, ◌≡◌, refl, ap, arith, some,
}
use hawkc.Base.Int.{pos}
use hawkc.Outcome.{Action, done, pure, ◌>>=◌}
use hawkc.Context.{HawkcContext, HawkcString, AuthorizationHeader, of_bytes, load-of_bytes}
use hawkc.Decimal.{AllDigits, value}
use hawkc.Time.Parse.{parse_time}
use hawkc.Time.Parse.Exact.{parse_time_complete}
use hawkc.Authorization.{matches, authorization_scheme_handler, param_handler, when_key}

-- The context with another parsed header.
abbrev pub with_in : HawkcContext → AuthorizationHeader → HawkcContext
with_in ctx h = record ctx { header_in = h }

equal-length : (a b : Bytes) → equal a b ≡ true → length a ≡ length b
equal-length a b e = ap length ((equal_iff a b).0 e)

-- The length and memcmp tests together compare the whole texts.
pub matches-equal :
    (ctx : HawkcContext) (key name : Bytes)
    → matches ctx (of_bytes key) name ≡ some (equal key name)
unfolding matches
matches-equal ctx key name = elim (Bool-cases (length key == length name)) [
  | inl same ↦ rw (same, load-of_bytes ctx key)
  | inr other ↦ rw other (elim (Bool-cases (equal key name)) [
    | inl e ↦ absurd (ground (arith, equal-length key name e))
    | inr e ↦ rw e
  ])
]

pub when_key-equal :
    (ctx : HawkcContext) (key : Bytes) (name : String) (arm m n : Action HawkcContext (Unit {0}))
    → m ctx ≡ n ctx
    → when_key (of_bytes key) name arm m ctx ≡ (if equal key (codes name) then arm else n) ctx
when_key-equal ctx key name arm m n same =
    rw (matches-equal ctx key (codes name), when_key)
      (elim (Bool-cases (equal key (codes name))) [ inl e ↦ rw e | inr e ↦ rw (e, same) ])

abbrev assign : (AuthorizationHeader → AuthorizationHeader) → Action HawkcContext (Unit {0})
assign f ctx = done tt (with_in ctx (f ctx.header_in))

-- What a parameter does to the context, by its key.
abbrev pub handled : Bytes → HawkcString → Action HawkcContext (Unit {0})
handled key v =
    if equal key (codes "id")
    then assign (λ h. record h { id = v })
    else if equal key (codes "mac")
    then assign (λ h. record h { mac = v })
    else if equal key (codes "hash")
    then assign (λ h. record h { hash = v })
    else if equal key (codes "nonce")
    then assign (λ h. record h { nonce = v })
    else if equal key (codes "ts")
    then (parse_time v >>= λ ts. assign (λ h. record h { ts = ts }))
    else if equal key (codes "ext")
    then assign (λ h. record h { ext = v })
    else if equal key (codes "app")
    then assign (λ h. record h { app = v })
    else if equal key (codes "dlg")
    then assign (λ h. record h { dlg = v })
    else pure tt

pub param_handler-handled :
    (key : Bytes) (v : HawkcString) (ctx : HawkcContext)
    → param_handler (of_bytes key) v ctx ≡ handled key v ctx
unfolding param_handler
param_handler-handled key v ctx = when_key-equal ctx key "id" _ _ _ (
    when_key-equal ctx key "mac" _ _ _ (
      when_key-equal ctx key "hash" _ _ _ (
        when_key-equal ctx key "nonce" _ _ _ (
          when_key-equal ctx key "ts" _ _ _ (
            when_key-equal ctx key "ext" _ _ _ (
              when_key-equal ctx key "app" _ _ _
                (when_key-equal ctx key "dlg" _ (pure tt) (pure tt) refl)))))))

pub scheme_handled :
    (ctx : HawkcContext) → authorization_scheme_handler (of_bytes (codes "Hawk")) ctx ≡ done tt ctx
unfolding authorization_scheme_handler
scheme_handled ctx = rw (matches-equal ctx (codes "Hawk") (codes "Hawk"))

pub ts_handled :
    (ctx : HawkcContext) (digits : Bytes)
    → AllDigits digits
    → value 0 digits < 2 ^ 63
    → length digits < 2 ^ 31
    → handled (codes "ts") (of_bytes digits) ctx
      ≡ done tt (with_in ctx (record (ctx.header_in) { ts = pos (value 0 digits) }))
ts_handled ctx digits h fits counted = rw (
  parse_time_complete (of_bytes digits) ctx digits (load-of_bytes ctx digits) h fits counted,
  ◌>>=◌,
)
