-- ===== src/Hawk.antt =====
-- The command line utility hawk/hawk.c.
pub mod Process
pub mod Options
pub mod Settings
pub mod Leaves
pub mod Needs
pub mod Client
pub mod Missing
pub mod Sends
use hawkc.Base.{
  ℕ, ◌+◌, ◌==◌, leb, if◌then◌else◌, Bool, true, false, List, [], ◌∷◌, ◌++◌, Option, none, some,
  Bytes, codes, length, take,
}
use mathlib.Core.Option
use hawkc.Base.Int.{ℤ, pos, negsuc, cast_int}
use hawkc.Outcome.{Outcome, done, failed, fault, no_fuel}
use hawkc.Context.{HawkcContext, HawkcAlgorithm, Block, at}
use hawkc.Context.Memory.{malloc, free}
use hawkc.Context.Setters.{
  get_error, set_algorithm, set_password, set_method, set_path, set_host, set_port, set_id, set_ext,
}
use hawkc.Crypto.{Platform, hawkc_sha_1}
use hawkc.Authorization.{calculate_authorization_header_length}
use hawkc.Authorization.Create.{create_authorization_header}
use Process.{
  Program, Printed, runs, crashes, unfinished, pure, ◌>>=◌, ◌>>◌, exit, print, warn, checked,
  error_calculating_size, unable_to_allocate,
}
use Options.{
  Variables, Opt, Strtol, Mode, plain, curl, blitz, header, qheader, defaults, usage, read_options,
}

-- A variable that must be set; what follows where it is NULL.
abbrev pub needed : ℕ → Option Bytes → Program Bytes
needed status (some text) = pure text
needed status none = usage >> exit status

-- What the request is made of, with the defaults of main.
pub record Call : Type 0 where
  pub id : Bytes
  pub password : Bytes
  pub method : Bytes
  pub host : Bytes
  pub port : Bytes
  pub path : Bytes
  pub ext : Option Bytes
  pub algorithm : HawkcAlgorithm

abbrev pub or_default : {A : Type 0} → A → Option A → A
or_default d none = d
or_default d (some a) = a

unfoldable pub check_options : Variables → Program Call
check_options o = do
  id ← needed 2 o.id
  password ← needed 2 o.password
  host ← needed 1 o.host
  path ← needed 1 o.path
  pure (record {
    id = id;
    password = password;
    method = or_default (codes "GET") o.method;
    host = host;
    port = or_default (codes "80") o.port;
    path = path;
    ext = o.ext;
    algorithm = or_default hawkc_sha_1 o.algorithm;
  })

abbrev pub set_ext_given : Option Bytes → HawkcContext → HawkcContext
set_ext_given none ctx = ctx
set_ext_given (some ext) ctx = set_ext ctx (at ext) (length ext)

-- The calls of the setters, in their order.
unfoldable pub prepare : Call → HawkcContext → HawkcContext
prepare c ctx =
    let ctx1 = set_algorithm ctx (some c.algorithm) in
    let ctx2 = set_password ctx1 (at c.password) (length c.password) in
    let ctx3 = set_method ctx2 (at c.method) (length c.method) in
    let ctx4 = set_path ctx3 (at c.path) (length c.path) in
    let ctx5 = set_host ctx4 (at c.host) (length c.host) in
    let ctx6 = set_port ctx5 (at c.port) (length c.port) in
    let ctx7 = set_id ctx6 (at c.id) (length c.id) in set_ext_given c.ext ctx7

-- The bytes up to the first zero.
abbrev pub up_to_zero : Bytes → Bytes
up_to_zero [] = []
up_to_zero (c ∷ s) = let rest = up_to_zero s in if c == 0 then [] else c ∷ rest

-- `"%.*s", (int)len, buffer`, where the buffer has `len` bytes; a negative precision counts for
-- none, and the bytes behind the buffer are read.
unfoldable pub format_text : ℤ → Bytes → Option Bytes
format_text (pos n) buffer = some (up_to_zero (take n buffer))
format_text (negsuc n) buffer = none

unfoldable pub output : Mode → Call → Bytes → Bytes
output plain c text = text ++ codes "\n"
output curl c text =
    codes "curl -v http://"
    ++ c.host
    ++ codes ":"
    ++ c.port
    ++ c.path
    ++ codes " -H 'Authorization: "
    ++ text
    ++ codes "'"
output blitz c text =
    codes "-p 1-100:60 -H 'Authorization: "
    ++ text
    ++ codes "' http://"
    ++ c.host
    ++ codes ":"
    ++ c.port
    ++ c.path
output header c text = codes "Authorization: " ++ text
output qheader c text = codes "'Authorization: " ++ text ++ codes "'"

module _ (os : Platform) (strtol : Bytes → Strtol) where
  -- hawkc_create_authorization_header always returns HAWKC_OK; a header that is longer than its
  -- buffer is written past the end. What hawkc_free leaves is not needed any more.
  unfoldable pub write_header : Mode → Call → ℕ → Option Block × HawkcContext → Program (Unit {0})
  write_header mode c required_len (some buffer, ctx) = do
    text ← checked (create_authorization_header ctx)
    checked (if leb (length text) required_len then some tt else none)
    shown ← checked (format_text (cast_int (pos (length text))) text)
    print (output mode c shown)
    after ← checked (free ctx buffer)
    exit 0
  write_header mode c required_len (none, ctx) =
      warn (unable_to_allocate (cast_int (pos required_len)) (get_error ctx)) >> exit 3

  -- What follows the call that calculates the length.
  unfoldable pub with_length : Mode → Call → Outcome HawkcContext ℕ → Program (Unit {0})
  with_length mode c (done required_len ctx) =
      write_header mode c required_len (malloc os ctx required_len)
  with_length mode c (failed e ctx) = warn (error_calculating_size (get_error ctx)) >> exit 2
  with_length mode c fault = λ p. crashes
  with_length mode c no_fuel = λ p. unfinished

  unfoldable pub main : List Opt → Program (Unit {0})
  main opts = do
    o ← read_options os strtol opts defaults
    c ← check_options o
    with_length o.mode c (calculate_authorization_header_length os (prepare c o.ctx))
