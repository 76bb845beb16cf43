-- ===== src/Authorization/Party.antt =====
-- The two parties of a signed request, by what their contexts (hawkc/hawkc.h) read as.
use hawkc.Base.{
  ◌%◌, ◌^◌, refl, ℕ, zero, suc, ◌+◌, ◌^◌, ◌<◌, ltb, if◌then◌else◌, true, false, [], ◌∷◌, some,
  Bytes, length, ◌≡◌, refl, sym, ◌∙◌, arith,
}
use mathlib.Core.Path.{subst}
use hawkc.Base.Int.{pos}
use hawkc.Context.{
  HawkcContext, HawkcString, HawkcAlgorithm, AuthorizationHeader, Ptr, null, at, hmac_buffer,
  ts_hmac_buffer, nonce_buffer, load, pointee, IsReadable, length-load, max_hmac_bytes_b64,
}
use hawkc.Decimal.{decimal}
use hawkc.Time.Ttoa.{ttoa, number_of_digits}
use hawkc.Time.Ttoa.Numeral.{ttoa_nonneg, cast_int_small}
use hawkc.Time.Ttoa.Length.{one_more}
use hawkc.BaseString.{line, hawk_header_prefix, app_lines, create_base_string}
use hawkc.BaseString.Length.{total, calculate-total}
use hawkc.Crypto.{key_of, Platform, IsPlatform, digest}
use hawkc.Authorization.Buffer.{Room}
use hawkc.Authorization.Fields.{Contents}
use hawkc.Authorization.Text.{IsCarried}
use hawkc.Authorization.Signed.{IsSigning}
use hawkc.Authorization.Handlers.{with_in}

-- The parts of the request that are signed.
pub record Request : Type 0 where
  pub method : Bytes
  pub path : Bytes
  pub host : Bytes
  pub port : Bytes

-- The context of a party to this request, with this key.
pub record IsParty (os : Platform) (md : Bytes → Bytes → Bytes) (key : Bytes) (r : Request)
    (a : HawkcAlgorithm) (ctx : HawkcContext) : Type 0 where
  pub algorithm_is : ctx.algorithm ≡ some a
  pub digest_is : digest os a ≡ some md
  pub key_is : key_of ctx ctx.password ≡ some key
  pub buffer_at : ctx.hmac.chars ≡ hmac_buffer
  pub buffer_size : length ctx.hmac_bytes ≡ max_hmac_bytes_b64
  pub method_is : load ctx ctx.method ≡ some r.method
  pub path_is : load ctx ctx.path ≡ some r.path
  pub host_is : load ctx ctx.host ≡ some r.host
  pub port_is : load ctx ctx.port ≡ some r.port

abbrev pub app_text : Bytes → Bytes → Bytes
app_text [] dlg = []
app_text (c ∷ app) dlg = line (c ∷ app) (line dlg [])

-- The base string of the request and the header.
abbrev pub base_text : Request → Contents → Bytes
base_text r c =
    let tail =
      line r.path (line r.host (line r.port (line [] (line c.ext (app_text c.app c.dlg))))) in
    line hawk_header_prefix (line (decimal c.ts) (line c.nonce (line r.method tail)))

pub load-IsReadable :
    (ctx : HawkcContext) (s : HawkcString) (b : Bytes) → load ctx s ≡ some b → IsReadable ctx s
unfolding load
load-IsReadable ctx s b is = ground arith

app_lines-app_text :
    (ctx : HawkcContext) (h : AuthorizationHeader) (app dlg : Bytes)
    → load ctx h.app ≡ some app
    → load ctx h.dlg ≡ some dlg
    → app_lines ctx h ≡ some (app_text app dlg)
unfolding app_lines
app_lines-app_text ctx h [] dlg app_is dlg_is =
    let none_given : ltb 0 h.app.len ≡ false = ground (arith, length-load ctx h.app [] app_is) in
    rw none_given
app_lines-app_text ctx h (c ∷ app) dlg app_is dlg_is =
    let given : ltb 0 h.app.len ≡ true = ground (arith, length-load ctx h.app (c ∷ app) app_is) in
    rw (given, app_is, dlg_is)

-- The length that is calculated for the base string, before it is cut to 64 bits.
abbrev pub required : Request → Contents → ℕ
required r c =
    22
    + number_of_digits (pos c.ts)
    + length c.nonce
    + length r.method
    + length r.path
    + length r.host
    + length r.port
    + length c.ext
    + (if ltb 0 (length c.app) then length c.app + 1 + (length c.dlg + 1) else 0)

pub positive : (n : ℕ) → 0 < n → one_more (pos n) ≡ 0
positive zero h = absurd (omega arith)
positive (suc n) h = refl

module _ {os : Platform} {md : Bytes → Bytes → Bytes} {key : Bytes} {r : Request}
    {a : HawkcAlgorithm} {ctx : HawkcContext} {h : AuthorizationHeader} {c : Contents}
    (p : IsParty os md key r a ctx) (x : IsCarried ctx h c) where
  pub create_base_string-base_text : create_base_string ctx h ≡ some (base_text r c)
  unfolding create_base_string
  create_base_string-base_text =
      let ts_out : ttoa h.ts ≡ some (decimal c.ts) =
        rw x.ts_is (ttoa_nonneg (pos c.ts) c.ts (cast_int_small c.ts x.ts_small) x.ts_small) in
      let app_out = app_lines-app_text ctx h c.app c.dlg x.app_is x.dlg_is in
      rw (ts_out, x.nonce_is, p.method_is, p.path_is, p.host_is, p.port_is, x.ext_is, app_out)

  total-required : total ctx h ≡ required r c
  total-required =
      let app_len = length-load ctx h.app c.app x.app_is in
      let dlg_len = length-load ctx h.dlg c.dlg x.dlg_is in
      rw (x.ts_is, app_len, dlg_len)
        (omega (
          arith,
          length-load ctx h.nonce c.nonce x.nonce_is,
          length-load ctx ctx.method r.method p.method_is,
          length-load ctx ctx.path r.path p.path_is,
          length-load ctx ctx.host r.host p.host_is,
          length-load ctx ctx.port r.port p.port_is,
          length-load ctx h.ext c.ext x.ext_is,
        ))

  pub Party-IsSigning :
      (platform : IsPlatform os) (room : ℕ)
      → 0 < c.ts
      → required r c < 2 ^ 64
      → Room os ctx (required r c) room
      → IsSigning os platform ctx h a md key room
  Party-IsSigning platform room positive_time fits has_room = record {
    algorithm_is = p.algorithm_is;
    digest_is = p.digest_is;
    key_is = p.key_is;
    buffer_at = p.buffer_at;
    buffer_size = p.buffer_size;
    signable = record {
      nonce_readable = load-IsReadable ctx h.nonce c.nonce x.nonce_is;
      method_readable = load-IsReadable ctx ctx.method r.method p.method_is;
      path_readable = load-IsReadable ctx ctx.path r.path p.path_is;
      host_readable = load-IsReadable ctx ctx.host r.host p.host_is;
      port_readable = load-IsReadable ctx ctx.port r.port p.port_is;
      ext_readable = load-IsReadable ctx h.ext c.ext x.ext_is;
      app_readable = load-IsReadable ctx h.app c.app x.app_is;
      dlg_readable = load-IsReadable ctx h.dlg c.dlg x.dlg_is;
    };
    time_small = rw x.ts_is (omega (arith, x.ts_small));
    time_positive = rw x.ts_is (positive c.ts positive_time);
    total_fits = omega (arith, total-required);
    has_room =
        subst (λ n. Room os ctx n room)
          (sym (calculate-total ctx h (omega (arith, total-required)) ∙ total-required)) has_room;
  }

pointee-with_in :
    (ctx : HawkcContext) (h : AuthorizationHeader) (p : Ptr)
    → pointee (with_in ctx h) p ≡ pointee ctx p
unfolding pointee
pointee-with_in ctx h null = refl
pointee-with_in ctx h (at b) = refl
pointee-with_in ctx h hmac_buffer = refl
pointee-with_in ctx h ts_hmac_buffer = refl
pointee-with_in ctx h nonce_buffer = refl

pub load-with_in :
    (ctx : HawkcContext) (h : AuthorizationHeader) (s : HawkcString)
    → load (with_in ctx h) s ≡ load ctx s
load-with_in ctx h s = unfold load in rw (pointee-with_in ctx h s.chars)

pub key_of-with_in :
    (ctx : HawkcContext) (h : AuthorizationHeader) (s : HawkcString)
    → key_of (with_in ctx h) s ≡ key_of ctx s
key_of-with_in ctx h s =
    unfold key_of in rw (load-with_in ctx h (record s { len = s.len % 2 ^ 32 })) refl
