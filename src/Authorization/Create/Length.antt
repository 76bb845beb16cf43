-- ===== src/Authorization/Create/Length.antt =====
-- hawkc_create_authorization_header against the length it is given room for.
use hawkc.Base.{
  ℕ, ◌+◌, ◌^◌, ◌<◌, le_or_lt, inl, inr, ltb, lt→ltb, le→ltb, true, false, [], ◌∷◌, ◌++◌, some,
  Bytes, codes, length, length-append, u64_same, ◌≡◌, refl, ap, arith,
}
use hawkc.Context.{HawkcContext, AuthorizationHeader, HawkcString, IsReadable, load_readable}
use hawkc.Time.Ttoa.{number_of_digits}
use hawkc.Time.Ttoa.Length.{magnitude, one_more, length-ttoa}
use hawkc.Authorization.Create.{
  optional_length, header_length, optional_field, create_authorization_header,
}

-- All that is copied into the header can be read.
pub record IsSendable (ctx : HawkcContext) : Type 0 where
  pub id_readable : IsReadable ctx ctx.header_out.id
  pub nonce_readable : IsReadable ctx ctx.header_out.nonce
  pub mac_readable : IsReadable ctx ctx.header_out.mac
  pub ext_readable : IsReadable ctx ctx.header_out.ext
  pub app_readable : IsReadable ctx ctx.header_out.app
  pub dlg_readable : IsReadable ctx ctx.header_out.dlg

-- The characters of an optional parameter, of a name of seven bytes with its quotes.
length-optional_field :
    (ctx : HawkcContext) (s : HawkcString) (name : Bytes) (n : ℕ)
    → length name ≡ 7
    → IsReadable ctx s
    → (text : Bytes) × (optional_field ctx s name ≡ some text)
      × (length text + n ≡ optional_length s n)
length-optional_field ctx s name n seven h = elim (le_or_lt 1 s.len) [
  | inl given ↦
      let (text, is, len) = load_readable ctx s h in
      let more : ltb 0 s.len ≡ true = lt→ltb _ _ given in
      (
        name ++ text,
        unfold optional_field in rw (more, is),
        rw more (omega (arith, length-append name text)),
      )
  | inr missing ↦
      let none_given : ltb 0 s.len ≡ false = le→ltb s.len 0 (omega arith) in
      ([], unfold optional_field in rw none_given, rw none_given (omega arith))
]

-- What the length function adds up, before it is cut to 64 bits.
abbrev pub header_total : AuthorizationHeader → ℕ
header_total h = optional_length h.dlg (
    optional_length h.app
      (optional_length h.ext (32 + h.id.len + h.nonce.len + h.mac.len + number_of_digits h.ts)))

pub header_length-total :
    (h : AuthorizationHeader) → header_total h < 2 ^ 64 → header_length h ≡ header_total h
unfolding header_length
header_length-total h fits =
    u64_same
      (ap (λ n. optional_length h.dlg (optional_length h.app (optional_length h.ext n)))
        (omega arith))
      fits

-- The header is written, with as many bytes as are added up, and one more for a time that is not
-- positive.
pub create-header_total :
    (ctx : HawkcContext)
    → IsSendable ctx
    → magnitude ctx.header_out.ts < 2 ^ 31
    → (text : Bytes) × (create_authorization_header ctx ≡ some text)
      × (length text ≡ header_total ctx.header_out + one_more ctx.header_out.ts)
create-header_total ctx h small =
    let ah = ctx.header_out in
    let (ts, ts_is, ts_len) = length-ttoa ah.ts small in
    let (id, id_is, id_len) = load_readable ctx ah.id h.id_readable in
    let (nonce, nonce_is, nonce_len) = load_readable ctx ah.nonce h.nonce_readable in
    let (mac, mac_is, mac_len) = load_readable ctx ah.mac h.mac_readable in
    let base = 32 + ah.id.len + ah.nonce.len + ah.mac.len + number_of_digits ah.ts in
    let (ext, ext_is, ext_len) =
      length-optional_field ctx ah.ext (codes "\",ext=\"") base refl h.ext_readable in
    let with_ext = optional_length ah.ext base in
    let (app, app_is, app_len) =
      length-optional_field ctx ah.app (codes "\",app=\"") with_ext refl h.app_readable in
    let with_app = optional_length ah.app with_ext in
    let (dlg, dlg_is, dlg_len) =
      length-optional_field ctx ah.dlg (codes "\",dlg=\"") with_app refl h.dlg_readable in
    let close : Bytes = b'"' ∷ [] in
    let tail = ts ++ (ext ++ (app ++ (dlg ++ close))) in
    let signed = mac ++ (codes "\",ts=\"" ++ tail) in
    let keyed = nonce ++ (codes "\",mac=\"" ++ signed) in
    (
      codes "Hawk id=\"" ++ (id ++ (codes "\",nonce=\"" ++ keyed)),
      unfold create_authorization_header in
          rw (id_is, nonce_is, mac_is, ts_is, ext_is, app_is, dlg_is),
      omega (
        arith,
        ts_len,
        id_len,
        nonce_len,
        mac_len,
        ext_len,
        app_len,
        dlg_len,
        length-append id (codes "\",nonce=\"" ++ keyed),
        length-append nonce (codes "\",mac=\"" ++ signed),
        length-append mac (codes "\",ts=\"" ++ tail),
        length-append ts (ext ++ (app ++ (dlg ++ close))),
        length-append ext (app ++ (dlg ++ close)),
        length-append app (dlg ++ close),
        length-append dlg close,
      ),
    )

-- When all strings can be read, the time's absolute value is below 2 ^ 31 and the sum of the
-- lengths below 2 ^ 64, the header is written, and is as long as
-- hawkc_calculate_authorization_header_length says for a positive time, and one byte longer for a
-- time that is zero or negative.
pub length-create_authorization_header :
    (ctx : HawkcContext)
    → IsSendable ctx
    → magnitude ctx.header_out.ts < 2 ^ 31
    → header_total ctx.header_out < 2 ^ 64
    → (text : Bytes) × (create_authorization_header ctx ≡ some text)
      × (length text ≡ header_length ctx.header_out + one_more ctx.header_out.ts)
length-create_authorization_header ctx h small fits =
    let (text, is, len) = create-header_total ctx h small in
    (text, is, omega (arith, len, header_length-total ctx.header_out fits))
