-- ===== src/Authorization/Create.antt =====
-- The header that hawkc_create_authorization_header of hawkc/authorization.c writes, and its length
-- beforehand.
pub mod Length
use hawkc.Base.{
  ℕ, ◌+◌, if◌then◌else◌, ltb, [], ◌∷◌, ◌++◌, Option, none, some, ◌>>=◌, Bytes, codes, length, u64,
}
use mathlib.Core.Option
use hawkc.Context.{HawkcContext, HawkcString, AuthorizationHeader, load}
use hawkc.Time.Ttoa.{number_of_digits, ttoa}

-- What a parameter that may be left out adds: `,name=""` of three letters, and its text.
abbrev optional_length : HawkcString → ℕ → ℕ
optional_length s n = if ltb 0 s.len then n + 1 + 6 + s.len else n

unfoldable pub header_length : AuthorizationHeader → ℕ
header_length h =
    let n = 5 + 5 + h.id.len in
    let n = n + 1 + 8 + h.nonce.len in
    let n = n + 1 + 6 + h.mac.len in
    let n = n + 1 + 5 + number_of_digits h.ts in
    u64 (optional_length h.dlg (optional_length h.app (optional_length h.ext n)))

-- `name`, with its quotes and comma, and the text, if there is any.
unfoldable pub optional_field : HawkcContext → HawkcString → Bytes → Option Bytes
optional_field ctx s name =
    if ltb 0 s.len then Option.map (λ text. name ++ text) (load ctx s) else some []

-- The bytes written from `buf` on; their number is `*len`.
unfoldable pub create_authorization_header : HawkcContext → Option Bytes
create_authorization_header ctx = do
  let ah = ctx.header_out
  id ← load ctx ah.id
  nonce ← load ctx ah.nonce
  mac ← load ctx ah.mac
  ts ← ttoa ah.ts
  ext ← optional_field ctx ah.ext (codes "\",ext=\"")
  app ← optional_field ctx ah.app (codes "\",app=\"")
  dlg ← optional_field ctx ah.dlg (codes "\",dlg=\"")
  let given = codes "\",ts=\"" ++ (ts ++ (ext ++ (app ++ (dlg ++ (b'"' ∷ [])))))
  let keyed = codes "\",nonce=\"" ++ (nonce ++ (codes "\",mac=\"" ++ (mac ++ given)))
  some (codes "Hawk id=\"" ++ (id ++ keyed))
