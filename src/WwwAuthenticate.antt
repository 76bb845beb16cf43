-- ===== src/WwwAuthenticate.antt =====
-- hawkc/www_authenticate.c.
pub mod Bounds
pub mod Create
pub mod Signed
pub mod Received
pub mod Cycle
use hawkc.Base.{
  ℕ, ◌+◌, if◌then◌else◌, leb, [], ◌∷◌, ◌++◌, Option, none, some, Bytes, codes, length, u64,
}
use mathlib.Core.Option
use hawkc.Base.Int.{ℤ, is_zero}
use hawkc.Outcome.{Action, pure, checked, get, modify, bind, ◌>>=◌, ◌>>◌}
use hawkc.Context.{HawkcContext, WwwAuthenticateHeader, FormatArg, load, fail}
use hawkc.Context.Error.{bad_scheme_error}
use hawkc.Time.Ttoa.{number_of_digits, ttoa}
use hawkc.Time.Parse.{parse_time}
use hawkc.Crypto.{Platform, hmac}
use hawkc.Parser.{SchemeHandler, ParamHandler, parse_auth_header}
use hawkc.Authorization.{matches, when_key, context_session}

abbrev pub ts_base_buffer_size : ℕ
ts_base_buffer_size = 30

abbrev pub hawk_ts_prefix : Bytes
hawk_ts_prefix = codes "hawk.1.ts"

unfoldable pub www_authenticate_scheme_handler : SchemeHandler HawkcContext
www_authenticate_scheme_handler scheme ctx =
    bind (checked (matches ctx scheme (codes "Hawk")) ctx) λ hawk.
      if hawk
      then pure tt
      else fail bad_scheme_error (record {
        format = "Unsupported authentication scheme '%.*s'";
        args = FormatArg.text scheme ∷ [];
      })

abbrev set_header : (WwwAuthenticateHeader → WwwAuthenticateHeader) → Action HawkcContext (Unit {0})
set_header f = modify λ ctx. record ctx { www_authenticate_header = f ctx.www_authenticate_header }

-- Its `data` is `&ctx->www_authenticate_header`.
unfoldable pub www_authenticate_param_handler : ParamHandler HawkcContext
www_authenticate_param_handler key value =
    when_key key "tsm" (set_header λ h. record h { tsm = value }) (
      when_key key "ts" (parse_time value >>= λ ts. set_header λ h. record h { ts = ts }) (pure tt))

unfoldable pub parse_www_authenticate_header : Bytes → ℕ → Action HawkcContext (Unit {0})
parse_www_authenticate_header value len =
    parse_auth_header value len www_authenticate_scheme_handler www_authenticate_param_handler

-- The bytes written from `buf` on; their number is `*len`.
unfoldable pub create_ts_base_string : WwwAuthenticateHeader → Option Bytes
create_ts_base_string header =
    Option.map (λ ts. hawk_ts_prefix ++ (b'\n' ∷ (ts ++ (b'\n' ∷ [])))) (ttoa header.ts)

-- The length of the header that has a time.
unfoldable pub www_header_length : WwwAuthenticateHeader → ℕ
www_header_length h = u64 (4 + 6 + number_of_digits h.ts + 7 + h.tsm.len)

-- `*required_len` is the result. A base string that is longer than its buffer is written past the
-- end.
unfoldable pub calculate_www_authenticate_header_length : Platform → Action HawkcContext ℕ
calculate_www_authenticate_header_length os = do
  start ← get
  if is_zero start.www_authenticate_header.ts then pure 4 else (do
    base ← checked (create_ts_base_string start.www_authenticate_header)
    checked (if leb (length base) ts_base_buffer_size then some tt else none)
    len ← hmac os start.algorithm start.password base start.ts_hmac.chars
    modify λ c. record c { ts_hmac = record (c.ts_hmac) { len = len } }
    modify λ c. record c {
      www_authenticate_header = record (c.www_authenticate_header) { tsm = c.ts_hmac };
    }
    ctx ← get
    pure (www_header_length ctx.www_authenticate_header))

unfoldable pub set_ts : HawkcContext → ℤ → HawkcContext
set_ts ctx ts = record ctx {
  www_authenticate_header = record (ctx.www_authenticate_header) { ts = ts };
}
