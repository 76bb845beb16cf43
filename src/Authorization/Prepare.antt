-- ===== src/Authorization/Prepare.antt =====
-- What hawkc_calculate_authorization_header_length of hawkc/authorization.c prepares.
use hawkc.Base.{
  ℕ, zero, suc, ◌<◌, ◌++◌, ◌==◌, leb, le→leb, true, false, some, Bytes, length, drop, length-append,
  take-append, ◌≡◌, ◌≢◌, refl, ap, ◌∙◌, arith,
}
use hawkc.Base.Int.{ℤ, pos, negsuc, is_zero}
use hawkc.Outcome.{done, ◌>>=◌, ◌>>◌}
use hawkc.Context.{
  HawkcContext, HawkcAlgorithm, HawkcString, Ptr, null, at, hmac_buffer, ts_hmac_buffer,
  nonce_buffer, load, pointee,
}
use hawkc.Time.Ttoa.Length.{one_more}
use hawkc.BaseString.{create_base_string}
use hawkc.Crypto.{Platform, IsPlatform}
use hawkc.Authorization.{fill_ts, fill_nonce, calculate_authorization_header_length}
use hawkc.Authorization.Create.{header_length}
use hawkc.Authorization.Signed.{signed_context, mac_of, IsSigning, sign_done}

time_given : (t : ℤ) → one_more t ≡ 0 → is_zero t ≡ false
time_given (pos zero) e = absurd (omega arith)
time_given (pos (suc n)) e = ground arith
time_given (negsuc n) e = refl

-- The MAC in the header to be sent is the context's.
abbrev pub with_mac : HawkcContext → HawkcContext
with_mac c = record c { header_out = record (c.header_out) { mac = c.hmac } }

load-signed :
    (ctx : HawkcContext) (mac : Bytes)
    → load (with_mac (signed_context ctx mac)) (record { len = length mac; chars = hmac_buffer })
      ≡ some mac
unfolding load pointee
load-signed ctx mac =
    let rest = drop (length mac) ctx.hmac_bytes in
    let fits : leb (length mac) (length (mac ++ rest)) ≡ true =
      le→leb _ _ (omega (arith, length-append mac rest)) in
    rw (fits, take-append mac rest)

-- What stands at a pointer other than the HMAC buffer stays there when the HMAC is written.
abbrev pub IsOutside : HawkcString → Type 0
IsOutside s = s.chars ≢ hmac_buffer

pointee-signed :
    (ctx : HawkcContext) (mac : Bytes) (p : Ptr)
    → p ≢ hmac_buffer
    → pointee (with_mac (signed_context ctx mac)) p ≡ pointee ctx p
unfolding pointee
pointee-signed ctx mac null away = refl
pointee-signed ctx mac (at b) away = refl
pointee-signed ctx mac hmac_buffer away = absurd (away refl)
pointee-signed ctx mac ts_hmac_buffer away = refl
pointee-signed ctx mac nonce_buffer away = refl

load-signed_outside :
    (ctx : HawkcContext) (mac : Bytes) (s : HawkcString)
    → IsOutside s
    → load (with_mac (signed_context ctx mac)) s ≡ load ctx s
load-signed_outside ctx mac s away = unfold load in rw (pointee-signed ctx mac s.chars away)

module _ (os : Platform) (h : IsPlatform os) (ctx : HawkcContext) (a : HawkcAlgorithm)
    (md : Bytes → Bytes → Bytes) (key : Bytes) (room : ℕ) where
  pub calculate_authorization_header_length_lem :
      IsSigning os h ctx ctx.header_out a md key room
      → 0 < ctx.header_out.id.len
      → 0 < ctx.header_out.nonce.len
      → (base : Bytes) × (after : HawkcContext) × (mac : HawkcString) × (create_base_string ctx
            ctx.header_out
          ≡ some base)
        × (calculate_authorization_header_length os ctx
            ≡ done (header_length after.header_out) after)
        × (after.header_out ≡ record (ctx.header_out) { mac = mac })
        × (load after mac ≡ some (mac_of md key base))
        × ((s : HawkcString) → IsOutside s → load after s ≡ load ctx s)
        × (after.malloc ≡ ctx.malloc)
        × (after.free ≡ ctx.free)
  calculate_authorization_header_length_lem v id_given nonce_given =
      let (base, base_is, signed, short) = sign_done os h ctx ctx.header_out a md key room v in
      let after = with_mac (signed_context ctx (mac_of md key base)) in
      let id_there : (ctx.header_out.id.len == 0) ≡ false = ground arith in
      let nonce_there : (ctx.header_out.nonce.len == 0) ≡ false = ground arith in
      let ts_kept : fill_ts os ctx ≡ done tt ctx =
        unfold fill_ts in rw (time_given ctx.header_out.ts v.time_positive) in
      let nonce_kept : fill_nonce os ctx ≡ done tt ctx = unfold fill_nonce in rw nonce_there in
      (
        base,
        after,
        after.hmac,
        base_is,
        unfold calculate_authorization_header_length in
            rw (id_there, ts_kept, nonce_kept, signed, ◌>>=◌, ◌>>◌),
        refl,
        ap (λ p. load after (record { len = length (mac_of md key base); chars = p })) v.buffer_at
            ∙ load-signed ctx (mac_of md key base),
        λ s away. load-signed_outside ctx (mac_of md key base) s away,
        refl,
        refl,
      )
