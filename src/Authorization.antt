-- ===== src/Authorization.antt =====
-- hawkc/authorization.c.
pub mod Create
pub mod Freed
pub mod Buffer
pub mod Branches
pub mod Signed
pub mod Validate
pub mod Genuine
pub mod Signs
pub mod Authentic
pub mod LastMac
pub mod Prepare
pub mod Handlers
pub mod Fields
pub mod Text
pub mod RoundTrip
pub mod Party
pub mod Ready
pub mod Accepts
pub mod Fill
pub mod Sized
pub mod Terminates
use hawkc.Base.{
  ℕ, ◌+◌, if◌then◌else◌, ltb, leb, ◌==◌, Bool, true, false, ◌&&◌, [], ◌∷◌, ◌++◌, Option, none, some,
  Bytes, String, codes, length, equal, u64,
}
use mathlib.Core.Option
use hawkc.Base.Int.{ℤ, pos, is_zero, ◌+ℤ◌}
use hawkc.Outcome.{
  Outcome, Action, done, failed, fault, no_fuel, pure, checked, get, modify, bind, ◌>>=◌, ◌>>◌,
}
use hawkc.Context.{
  HawkcContext, HawkcString, AuthorizationHeader, FormatArg, Block, load, pointee, fail, set_error,
  max_nonce_bytes, max_nonce_hex_bytes,
}
use hawkc.Context.Memory.{calloc, free}
use hawkc.Context.Error.{bad_scheme_error, error, required_buffer_too_large, no_mem}
use hawkc.Compare.{fixed_time_equal}
use hawkc.BaseString.{calculate_base_string_length, create_base_string}
use hawkc.Crypto.{Platform, generate_nonce, hmac}
use Create.{header_length}
use hawkc.Parser.{Session, SchemeHandler, ParamHandler, parse_auth_header}
use hawkc.Time.Parse.{parse_time}
use hawkc.Time.Ttoa.{number_of_digits, ttoa}

abbrev pub base_buffer_size : ℕ
base_buffer_size = 512

abbrev pub max_dyn_base_buffer_size : ℕ
max_dyn_base_buffer_size = 2048

-- The parser reports its errors in the context.
instance abbrev pub context_session : Session HawkcContext
context_session = record { set_error = set_error }

-- `s.len == strlen(name) && memcmp(s.data, name, s.len) == 0`
unfoldable pub matches : HawkcContext → HawkcString → Bytes → Option Bool
matches ctx s name =
    if s.len == length name then Option.map (λ found. equal found name) (load ctx s) else some false

unfoldable pub authorization_scheme_handler : SchemeHandler HawkcContext
authorization_scheme_handler scheme ctx =
    bind (checked (matches ctx scheme (codes "Hawk")) ctx) λ hawk.
      if hawk
      then pure tt
      else fail bad_scheme_error (record {
        format = "Unsupported authentication scheme '%.*s'";
        args = FormatArg.text scheme ∷ [];
      })

-- One arm of the if cascade of param_handler.
abbrev pub when_key :
    HawkcString
    → String
    → Action HawkcContext (Unit {0})
    → Action HawkcContext (Unit {0})
    → Action HawkcContext (Unit {0})
when_key key name arm otherwise ctx =
    bind (checked (matches ctx key (codes name)) ctx) λ same. if same then arm else otherwise

abbrev set_in : (AuthorizationHeader → AuthorizationHeader) → Action HawkcContext (Unit {0})
set_in f = modify λ ctx. record ctx { header_in = f ctx.header_in }

-- Its `data` is `&ctx->header_in`.
unfoldable pub param_handler : ParamHandler HawkcContext
param_handler key value = when_key key "id" (set_in λ h. record h { id = value }) (
    when_key key "mac" (set_in λ h. record h { mac = value }) (
      when_key key "hash" (set_in λ h. record h { hash = value }) (
        when_key key "nonce" (set_in λ h. record h { nonce = value }) (
          when_key key "ts" (parse_time value >>= λ ts. set_in λ h. record h { ts = ts }) (
            when_key key "ext" (set_in λ h. record h { ext = value }) (
              when_key key "app" (set_in λ h. record h { app = value })
                (when_key key "dlg" (set_in λ h. record h { dlg = value }) (pure tt))))))))

-- The header's first `len` of the readable bytes `value`.
unfoldable pub parse_authorization_header : Bytes → ℕ → Action HawkcContext (Unit {0})
parse_authorization_header value len =
    parse_auth_header value len authorization_scheme_handler param_handler

-- The block, unless it is NULL.
abbrev or_no_mem : ℕ → Option Block × HawkcContext → Outcome HawkcContext (ℕ × Option Block)
or_no_mem required_size (some b, ctx) = done (required_size, some b) ctx
or_no_mem required_size (none, ctx) =
    fail no_mem
      (record {
        format = "Unable to allocate %d bytes for dynamic base buffer";
        args = FormatArg.number required_size ∷ [];
      })
      ctx

-- Room for the base string, and `dyn_base_buf`: the static buffer, or a block of the required size.
unfoldable pub base_buffer : Platform → ℕ → Action HawkcContext (ℕ × Option Block)
base_buffer os required_size ctx =
    (if ltb base_buffer_size required_size
        then (if ltb max_dyn_base_buffer_size required_size
            then fail required_buffer_too_large (record {
              format = "Required base string buffer of %d bytes exceeds MAX_DYN_BASE_BUFFER_SIZE";
              args = FormatArg.number required_size ∷ [];
            })
            else (λ c. or_no_mem required_size (calloc os c 1 required_size)))
        else pure (base_buffer_size, none))
      ctx

-- The dynamic buffer is freed whether hawkc_hmac has failed or not.
unfoldable pub free_buffer :
    {A : Type 0} → Option Block → Outcome HawkcContext A → Outcome HawkcContext A
free_buffer none o = o
free_buffer (some b) (done a ctx) = bind (checked (free ctx b) ctx) λ after _. done a after
free_buffer (some b) (failed e ctx) = bind (checked (free ctx b) ctx) λ after _. failed e after
free_buffer (some b) fault = fault
free_buffer (some b) no_fuel = no_fuel

-- Both users of the base string put it into such a buffer and leave its HMAC in `ctx->hmac`.
-- A base string that is longer than the buffer is written past its end.
unfoldable pub sign : Platform → AuthorizationHeader → Action HawkcContext (Unit {0})
sign os header = do
  ctx ← get
  (size, dyn_base_buf) ← base_buffer os (calculate_base_string_length ctx header)
  base ← checked (create_base_string ctx header)
  checked (if leb (length base) size then some tt else none)
  len ← λ before.
      free_buffer dyn_base_buf (hmac os ctx.algorithm ctx.password base ctx.hmac.chars before)
  modify λ after. record after { hmac = record (after.hmac) { len = len } }

-- `*is_valid` is the result.
unfoldable pub validate_hmac : Platform → Action HawkcContext Bool
validate_hmac os = do
  before ← get
  sign os before.header_in
  ctx ← get
  checked (
      if ctx.header_in.mac.len == ctx.hmac.len
      then fixed_time_equal (pointee ctx ctx.header_in.mac.chars) (pointee ctx ctx.hmac.chars)
          ctx.hmac.len
      else some false)

-- `ctx->hmac.data` and the nonce's pointer are set up by hawkc_context_init.
abbrev set_out : (AuthorizationHeader → AuthorizationHeader) → Action HawkcContext (Unit {0})
set_out f = modify λ ctx. record ctx { header_out = f ctx.header_out }

-- A time, unless the caller has set one.
unfoldable pub fill_ts : Platform → Action HawkcContext (Unit {0})
fill_ts os ctx =
    (if is_zero ctx.header_out.ts
        then set_out (λ h. record h { ts = os.time +ℤ ctx.offset })
        else pure tt)
      ctx

-- What hawkc_generate_nonce returns is not looked at; its error stays in the context.
unfoldable pub ignore_error : Outcome HawkcContext (Unit {0}) → Outcome HawkcContext (Unit {0})
ignore_error (failed e ctx) = done tt ctx
ignore_error o = o

-- A nonce, unless the caller has set one.
unfoldable pub fill_nonce : Platform → Action HawkcContext (Unit {0})
fill_nonce os ctx =
    (if ctx.header_out.nonce.len == 0
        then (do
          λ before. ignore_error (generate_nonce os max_nonce_bytes before.nonce.chars before)
          modify λ c. record c { nonce = record (c.nonce) { len = max_nonce_hex_bytes } }
          modify λ c. record c { header_out = record (c.header_out) { nonce = c.nonce } })
        else pure tt)
      ctx

-- `*required_len` is the result.
unfoldable pub calculate_authorization_header_length : Platform → Action HawkcContext ℕ
calculate_authorization_header_length os = do
  start ← get
  if start.header_out.id.len == 0
      then fail error (record { format = "ID not set"; args = [] })
      else (do
        fill_ts os
        fill_nonce os
        filled ← get
        sign os filled.header_out
        modify λ c. record c { header_out = record (c.header_out) { mac = c.hmac } }
        ctx ← get
        pure (header_length ctx.header_out))
