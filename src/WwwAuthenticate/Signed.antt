-- ===== src/WwwAuthenticate/Signed.antt =====
-- What hawkc_calculate_www_authenticate_header_length (hawkc/www_authenticate.c) leaves in the
-- context.
use hawkc.Base.{
  ℕ, ◌<◌, ◌≤◌, ◌^◌, leb, le→leb, true, false, [], ◌∷◌, ◌++◌, some, Bytes, length, drop,
  length-append, take-append, ◌≡◌, ap, ap₂, ◌∙◌, arith,
}
use hawkc.Base.Int.{pos, is_zero}
use hawkc.Decimal.{decimal}
use hawkc.Outcome.{done, bind, checked, ◌>>=◌, ◌>>◌}
use hawkc.Context.{
  HawkcContext, HawkcAlgorithm, WwwAuthenticateHeader, ts_hmac_buffer, load, pointee, store,
}
use hawkc.Context.Buffers.{IsContext}
use hawkc.Time.Ttoa.{ttoa}
use hawkc.Time.Ttoa.Numeral.{ttoa_nonneg, cast_int_small}
use hawkc.Crypto.{key_of, Platform, IsPlatform, digest, hmac}
use hawkc.Authorization.Signed.{mac_of, length-mac_of}
use hawkc.WwwAuthenticate.{
  hawk_ts_prefix, ts_base_buffer_size, create_ts_base_string, www_header_length,
  calculate_www_authenticate_header_length,
}
use hawkc.WwwAuthenticate.Bounds.{length-create_ts_base_string}

-- The base string for a time.
abbrev pub ts_base : ℕ → Bytes
ts_base t = hawk_ts_prefix ++ (b'\n' ∷ (decimal t ++ (b'\n' ∷ [])))

pub ttoa-decimal : (t : ℕ) → t < 2 ^ 31 → ttoa (pos t) ≡ some (decimal t)
ttoa-decimal t small = ttoa_nonneg (pos t) t (cast_int_small t small) small

create_ts_base_string-ts_base :
    (h : WwwAuthenticateHeader) (t : ℕ)
    → h.ts ≡ pos t
    → t < 2 ^ 31
    → create_ts_base_string h ≡ some (ts_base t)
unfolding create_ts_base_string
create_ts_base_string-ts_base h t is small = rw (is, ttoa-decimal t small)

-- The context with this signature.
abbrev pub signed_server : HawkcContext → Bytes → HawkcContext
signed_server ctx mac =
    let tsm = record (ctx.ts_hmac) { len = length mac } in
    record ctx {
      ts_hmac_bytes = mac ++ drop (length mac) ctx.ts_hmac_bytes;
      ts_hmac = tsm;
      www_authenticate_header = record (ctx.www_authenticate_header) { tsm = tsm };
    }

store_ts_hmac :
    (mac : Bytes) (ctx : HawkcContext)
    → leb (length mac) (length ctx.ts_hmac_bytes) ≡ true
    → store ts_hmac_buffer mac ctx
      ≡ some (record ctx { ts_hmac_bytes = mac ++ drop (length mac) ctx.ts_hmac_bytes })
unfolding store
store_ts_hmac mac ctx fits = rw fits

module _ (os : Platform) (platform : IsPlatform os) (ctx : HawkcContext) (a : HawkcAlgorithm)
    (md : Bytes → Bytes → Bytes) (key : Bytes) (t : ℕ) where
  -- The server has set algorithm, password and a time.
  pub record IsServer : Type 0 where
    pub context : IsContext ctx.blocks ctx
    pub algorithm_is : ctx.algorithm ≡ some a
    pub digest_is : digest os a ≡ some md
    pub key_is : key_of ctx ctx.password ≡ some key
    pub ts_is : ctx.www_authenticate_header.ts ≡ pos t
    pub ts_positive : 0 < t
    pub ts_small : t < 2 ^ 31

  abbrev pub tsm_of : Bytes
  tsm_of = mac_of md key (ts_base t)

  pub length-tsm_of : IsServer → length tsm_of ≤ 44
  length-tsm_of v =
      let (_, short) =
        length-mac_of os platform ctx a md v.digest_is (ts_base t) key v.context.hmac_has in
      short

  hmac_stored_ts :
      IsServer
      → hmac os ctx.algorithm ctx.password (ts_base t) ctx.ts_hmac.chars ctx
        ≡ done
            (length tsm_of)
            (record ctx { ts_hmac_bytes = tsm_of ++ drop (length tsm_of) ctx.ts_hmac_bytes })
  unfolding hmac
  hmac_stored_ts v =
      let (len, short) =
        length-mac_of os platform ctx a md v.digest_is (ts_base t) key v.context.hmac_has in
      let fits : leb (length tsm_of) (length ctx.ts_hmac_bytes) ≡ true =
        le→leb _ _ (omega (arith, short, v.context.ts_hmac_has)) in
      ap₂ (λ x y. hmac os x ctx.password (ts_base t) y ctx) v.algorithm_is v.context.ts_hmac_at
      ∙ (rw (v.digest_is, v.key_is, store_ts_hmac tsm_of ctx fits, len, hmac, bind, checked))

  time_set : IsServer → is_zero ctx.www_authenticate_header.ts ≡ false
  time_set v = ap is_zero v.ts_is ∙ ground (arith, v.ts_positive)

  pub calculate-signed_server :
      IsServer
      → calculate_www_authenticate_header_length os ctx
        ≡ done
            (www_header_length (signed_server ctx tsm_of).www_authenticate_header)
            (signed_server ctx tsm_of)
  unfolding calculate_www_authenticate_header_length
  calculate-signed_server v =
      let written =
        create_ts_base_string-ts_base ctx.www_authenticate_header t v.ts_is v.ts_small in
      let fits : leb (length (ts_base t)) ts_base_buffer_size ≡ true = le→leb _ _ (
        omega
          (arith, length-create_ts_base_string ctx.www_authenticate_header (ts_base t) written)) in
      rw (time_set v, written, fits, hmac_stored_ts v, ◌>>=◌, ◌>>◌)

  pub load-tsm :
      IsServer
      → let ready = signed_server ctx tsm_of in
        load ready ready.www_authenticate_header.tsm ≡ some tsm_of
  unfolding load pointee
  load-tsm v =
      let rest = drop (length tsm_of) ctx.ts_hmac_bytes in
      let fits : leb (length tsm_of) (length (tsm_of ++ rest)) ≡ true =
        le→leb _ _ (omega (arith, length-append tsm_of rest)) in
      rw (v.context.ts_hmac_at, fits, take-append tsm_of rest)
