-- ===== src/Authorization/Sized.antt =====
-- The calculated length of an Authorization header (hawkc/authorization.c) is that of its text.
use hawkc.Base.{◌<◌, ◌^◌, some, length, ◌≡◌, sym, ap, ◌∙◌, arith}
use hawkc.Context.{HawkcContext}
use hawkc.Time.Ttoa.Length.{one_more}
use hawkc.Authorization.Create.{header_length}
use hawkc.Authorization.Create.Length.{IsSendable, create-header_total, header_length-total}
use hawkc.Authorization.Fields.{Contents}
use hawkc.Authorization.Text.{IsCarried, header_text, create-header_text}
use hawkc.Authorization.Party.{load-IsReadable, positive}

carried-IsSendable :
    (ctx : HawkcContext) (c : Contents) → IsCarried ctx ctx.header_out c → IsSendable ctx
carried-IsSendable ctx c x =
    let h = ctx.header_out in
    record {
      id_readable = load-IsReadable ctx h.id c.id x.id_is;
      nonce_readable = load-IsReadable ctx h.nonce c.nonce x.nonce_is;
      mac_readable = load-IsReadable ctx h.mac c.mac x.mac_is;
      ext_readable = load-IsReadable ctx h.ext c.ext x.ext_is;
      app_readable = load-IsReadable ctx h.app c.app x.app_is;
      dlg_readable = load-IsReadable ctx h.dlg c.dlg x.dlg_is;
    }

pub length-header_text :
    (ctx : HawkcContext) (c : Contents)
    → IsCarried ctx ctx.header_out c
    → 0 < c.ts
    → length (header_text c) < 2 ^ 64
    → header_length ctx.header_out ≡ length (header_text c)
length-header_text ctx c x positive_time fits =
    let h = ctx.header_out in
    let (text, is, len) =
      create-header_total ctx (carried-IsSendable ctx c x)
        (rw x.ts_is (omega (arith, x.ts_small))) in
    let counted : one_more h.ts ≡ 0 = ap one_more x.ts_is ∙ positive c.ts positive_time in
    let found : some (header_text c) ≡ some text = sym (create-header_text ctx c x) ∙ is in
    let same : header_text c ≡ text = cc in
    let same_length : length (header_text c) ≡ length text = ap length same in
    header_length-total h (omega (arith, len, counted)) ∙ omega (arith, len, counted)
