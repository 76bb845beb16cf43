-- ===== src/WwwAuthenticate/Bounds.antt =====
-- The buffers of hawkc/www_authenticate.c: for the base string, and for the header.
use hawkc.Base.{
  ◌+◌, ◌^◌, ◌<◌, ◌≤◌, false, [], ◌∷◌, ◌++◌, Option, some, none, Bytes, codes, length, length-append,
  u64_same, ◌≡◌, refl, arith,
}
use mathlib.Core.Option
use hawkc.Base.Int.{is_zero}
use hawkc.Context.{HawkcContext, WwwAuthenticateHeader, load_readable, IsReadable}
use hawkc.Time.Ttoa.{ttoa, number_of_digits}
use hawkc.Time.Ttoa.Length.{magnitude, one_more, length-ttoa, length-ttoa_le}
use hawkc.WwwAuthenticate.{
  hawk_ts_prefix, ts_base_buffer_size, create_ts_base_string, www_header_length,
}
use hawkc.WwwAuthenticate.Create.{create_www_authenticate_header}

bounded :
    (time : Option Bytes) (base : Bytes)
    → ((ts : Bytes) → time ≡ some ts → length ts ≤ 11)
    → Option.map (λ ts. hawk_ts_prefix ++ (b'\n' ∷ (ts ++ (b'\n' ∷ [])))) time ≡ some base
    → length base ≤ 22
bounded none base short e = absurd (ground arith)
bounded (some ts) base short e =
    let size : length (hawk_ts_prefix ++ (b'\n' ∷ (ts ++ (b'\n' ∷ [])))) ≤ 22 =
      omega (arith, short ts refl, length-append ts (b'\n' ∷ [])) in
    ground (arith, e)

-- Whatever the time, a base string that hawkc_create_ts_base_string writes is shorter than the
-- buffer of TS_BASE_BUFFER_SIZE bytes.
pub length-create_ts_base_string :
    (header : WwwAuthenticateHeader) (base : Bytes)
    → create_ts_base_string header ≡ some base
    → length base < ts_base_buffer_size
unfolding create_ts_base_string
length-create_ts_base_string header base e =
    omega (arith, bounded (ttoa header.ts) base (λ ts is. length-ttoa_le header.ts ts is) e)

-- When a time other than 0 is set whose absolute value is below 2 ^ 31, the signature can be read,
-- and the sum of the lengths is below 2 ^ 64, the header is written, and is as long as
-- hawkc_calculate_www_authenticate_header_length says for a positive time, and one byte longer for
-- a negative time.
pub length-create_www_authenticate_header :
    (ctx : HawkcContext)
    → is_zero ctx.www_authenticate_header.ts ≡ false
    → IsReadable ctx ctx.www_authenticate_header.tsm
    → magnitude ctx.www_authenticate_header.ts < 2 ^ 31
    → 17 + number_of_digits ctx.www_authenticate_header.ts + ctx.www_authenticate_header.tsm.len
      < 2 ^ 64
    → (text : Bytes) × (create_www_authenticate_header ctx ≡ some text)
      × (length text
          ≡ www_header_length ctx.www_authenticate_header + one_more ctx.www_authenticate_header.ts)
length-create_www_authenticate_header ctx given readable small fits =
    let ah = ctx.www_authenticate_header in
    let (ts, ts_is, ts_len) = length-ttoa ah.ts small in
    let (tsm, tsm_is, tsm_len) = load_readable ctx ah.tsm readable in
    let close : Bytes = b'"' ∷ [] in
    let signed = codes "\",tsm=\"" ++ (tsm ++ close) in
    let size : www_header_length ah ≡ 17 + number_of_digits ah.ts + ah.tsm.len =
      unfold www_header_length in u64_same (omega arith) fits in
    (
      codes "Hawk ts=\"" ++ (ts ++ signed),
      unfold create_www_authenticate_header in rw (given, ts_is, tsm_is),
      omega (arith, size, ts_len, tsm_len, length-append ts signed, length-append tsm close),
    )
