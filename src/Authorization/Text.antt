-- ===== src/Authorization/Text.antt =====
-- The bytes that hawkc_create_authorization_header (hawkc/authorization.c) writes are a header of
-- the grammar.
use hawkc.Base.{◌<◌, ◌^◌, List, [], ◌∷◌, ◌++◌, some, Bytes, codes, All, ◌≡◌, refl, sym, arith}
use hawkc.Base.Int.{pos}
use hawkc.Context.{HawkcContext, HawkcString, AuthorizationHeader, load, length-load}
use hawkc.Decimal.{decimal, AllDigits, decimal_spells}
use hawkc.Parser.{is_token, is_space}
use hawkc.Parser.Grammar.{IsToken, IsQuoted, end, plain, Param, Header, header}
use hawkc.Time.Ttoa.{ttoa}
use hawkc.Time.Ttoa.Numeral.{ttoa_nonneg, cast_int_small}
use hawkc.Authorization.Create.{create_authorization_header}
use hawkc.Authorization.Fields.{
  Contents, IsField, IsQuotable, to_params, closing, optional, fields, optional_field-closing,
  optional-IsField, Params-closing,
}

-- In this context the header reads as these contents.
pub record IsCarried (ctx : HawkcContext) (h : AuthorizationHeader) (c : Contents) : Type 0 where
  pub id_is : load ctx h.id ≡ some c.id
  pub nonce_is : load ctx h.nonce ≡ some c.nonce
  pub mac_is : load ctx h.mac ≡ some c.mac
  pub ts_is : h.ts ≡ pos c.ts
  pub ts_small : c.ts < 2 ^ 31
  pub ext_is : load ctx h.ext ≡ some c.ext
  pub app_is : load ctx h.app ≡ some c.app
  pub dlg_is : load ctx h.dlg ≡ some c.dlg

abbrev pub header_text : Contents → Bytes
header_text c = codes "Hawk id=\"" ++ (c.id ++ closing (fields c (decimal c.ts)))

pub create-header_text :
    (ctx : HawkcContext) (c : Contents)
    → IsCarried ctx ctx.header_out c
    → create_authorization_header ctx ≡ some (header_text c)
create-header_text ctx c h =
    let ah = ctx.header_out in
    let sized =
      λ (s : HawkcString) (b : Bytes) (is : load ctx s ≡ some b). sym (length-load ctx s b is) in
    let (dlg, dlg_out, dlg_text) =
      optional_field-closing ctx ah.dlg (codes "dlg") c.dlg (codes "\",dlg=\"") [] h.dlg_is
        (sized ah.dlg c.dlg h.dlg_is) refl in
    let behind_app = optional (codes "dlg") c.dlg [] in
    let (app, app_out, app_text) =
      optional_field-closing ctx ah.app (codes "app") c.app (codes "\",app=\"") behind_app h.app_is
        (sized ah.app c.app h.app_is) refl in
    let behind_ext = optional (codes "app") c.app behind_app in
    let (ext, ext_out, ext_text) =
      optional_field-closing ctx ah.ext (codes "ext") c.ext (codes "\",ext=\"") behind_ext h.ext_is
        (sized ah.ext c.ext h.ext_is) refl in
    let ts_out : ttoa ah.ts ≡ some (decimal c.ts) =
      rw h.ts_is (ttoa_nonneg (pos c.ts) c.ts (cast_int_small c.ts h.ts_small) h.ts_small) in
    unfold create_authorization_header in
    rw (h.id_is, h.nonce_is, h.mac_is, ts_out, ext_out, app_out, dlg_out)
      (rw (← ext_text, ← app_text, ← dlg_text))

pub digits-IsQuoted : (s : Bytes) → AllDigits s → IsQuoted s
digits-IsQuoted [] h = end
digits-IsQuoted (c ∷ s) (hc, h) = plain (ground arith) (ground arith) (digits-IsQuoted s h)

-- The keys are tokens.
key_tokens :
    IsToken (codes "id")
    × IsToken (codes "nonce")
    × IsToken (codes "mac")
    × IsToken (codes "ts")
    × IsToken (codes "ext")
    × IsToken (codes "app")
    × IsToken (codes "dlg")
    × IsToken (codes "Hawk")
unfolding is_token
key_tokens = ground arith

fields-IsField :
    (c : Contents) (ts : Bytes) → IsQuotable c → IsQuoted ts → All IsField (fields c ts)
fields-IsField c ts h hts =
    let (_, nonce, mac, time, ext, app, dlg, _) = key_tokens in
    (
      (nonce, h.nonce_quoted),
      (
        (mac, h.mac_quoted),
        (
          (time, hts),
          optional-IsField (codes "ext") c.ext _ ext h.ext_quoted (
              optional-IsField (codes "app") c.app _ app h.app_quoted
                (optional-IsField (codes "dlg") c.dlg [] dlg h.dlg_quoted tt)),
        ),
      ),
    )

-- All parameters of the header.
abbrev pub all_params : Contents → List Param
all_params c = to_params ((codes "id", c.id) ∷ fields c (decimal c.ts))

pub header_text-Header :
    (c : Contents)
    → IsQuotable c
    → c.ts < 2 ^ 31
    → Header (codes "Hawk") (all_params c) (header_text c)
unfolding is_space
header_text-Header c h small =
    let (id, _, _, _, _, _, _, hawk) = key_tokens in
    let (digits, _) = decimal_spells c.ts (omega arith) in
    let behind_id = closing (fields c (decimal c.ts)) in
    header (codes " ") (codes "id" ++ (b'=' ∷ b'"' ∷ (c.id ++ behind_id))) hawk (refl, tt)
      (λ e. absurd (ground arith))
      (Params-closing (codes "id") c.id (fields c (decimal c.ts)) (id, h.id_quoted)
        (fields-IsField c (decimal c.ts) h (digits-IsQuoted (decimal c.ts) digits)))
