-- ===== src/WwwAuthenticate/Create.antt =====
-- The header that hawkc_create_www_authenticate_header of hawkc/www_authenticate.c writes.
use hawkc.Base.{if◌then◌else◌, [], ◌∷◌, ◌++◌, Option, some, ◌>>=◌, Bytes, codes}
use hawkc.Base.Int.{is_zero}
use hawkc.Context.{HawkcContext, load}
use hawkc.Time.Ttoa.{ttoa}

-- The bytes written from `buf` on; their number is `*len`.
unfoldable pub create_www_authenticate_header : HawkcContext → Option Bytes
create_www_authenticate_header ctx =
    let ah = ctx.www_authenticate_header in
    if is_zero ah.ts then some (codes "Hawk") else (do
      ts ← ttoa ah.ts
      tsm ← load ctx ah.tsm
      some (codes "Hawk ts=\"" ++ (ts ++ (codes "\",tsm=\"" ++ (tsm ++ (b'"' ∷ []))))))
