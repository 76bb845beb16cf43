-- ===== src/BaseString.antt =====
-- The base string of hawkc/authorization.c that is signed: its length beforehand, and its bytes.
pub mod Length
use hawkc.Base.{
  ℕ, ◌+◌, if◌then◌else◌, ltb, [], ◌∷◌, ◌++◌, Option, some, ◌>>=◌, Bytes, codes, length, u64,
}
use hawkc.Context.{HawkcContext, AuthorizationHeader, load}
use hawkc.Time.Ttoa.{number_of_digits, ttoa}

abbrev pub hawk_header_prefix : Bytes
hawk_header_prefix = codes "hawk.1.header"

unfoldable pub calculate_base_string_length : HawkcContext → AuthorizationHeader → ℕ
calculate_base_string_length ctx header =
    let n = length hawk_header_prefix + 1 in
    let n = n + number_of_digits header.ts + 1 in
    let n = n + header.nonce.len + 1 in
    let n = n + ctx.method.len + 1 in
    let n = n + ctx.path.len + 1 in
    let n = n + ctx.host.len + 1 in
    let n = n + ctx.port.len + 1 in
    let n = n + 1 in
    let n = n + header.ext.len + 1 in
    let n = if ltb 0 header.app.len then n + header.app.len + 1 + header.dlg.len + 1 else n in u64 n

-- `ptr` behind a line: the text and a line feed.
abbrev pub line : Bytes → Bytes → Bytes
line s rest = s ++ (b'\n' ∷ rest)

-- The lines of `app` and `dlg`, if there is an app.
unfoldable pub app_lines : HawkcContext → AuthorizationHeader → Option Bytes
app_lines ctx header =
    if ltb 0 header.app.len
    then (do app ← load ctx header.app; dlg ← load ctx header.dlg; some (line app (line dlg [])))
    else some []

-- The bytes written from `buf` on; their number is `*len`.
unfoldable pub create_base_string : HawkcContext → AuthorizationHeader → Option Bytes
create_base_string ctx header = do
  ts ← ttoa header.ts
  nonce ← load ctx header.nonce
  method ← load ctx ctx.method
  path ← load ctx ctx.path
  host ← load ctx ctx.host
  port ← load ctx ctx.port
  ext ← load ctx header.ext
  app ← app_lines ctx header
  let tail = line path (line host (line port (line [] (line ext app))))
  some (line hawk_header_prefix (line ts (line nonce (line method tail))))
