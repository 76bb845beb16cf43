-- ===== src/Authorization/Fill.antt =====
-- The time and the nonce that hawkc_calculate_authorization_header_length (hawkc/authorization.c)
-- fills in.
use hawkc.Base.{
  none, ℕ, zero, suc, ◌==◌, ◌<◌, leb, true, false, [], ◌∷◌, some, Bytes, length, drop, append-nil,
  ◌≡◌, refl, ap, sym, ◌∙◌, arith,
}
use hawkc.Base.Int.{pos, is_zero, ◌+ℤ◌}
use hawkc.Hex.{bytes_to_hex}
use hawkc.Hex.Inverse.{read_hex-bytes_to_hex}
use hawkc.Outcome.{done, ◌>>=◌, ◌>>◌}
use hawkc.Context.Error.{error}
use hawkc.Context.{
  FormatArg, fail, set_error, HawkcContext, nonce_buffer, store, max_nonce_bytes,
  max_nonce_hex_bytes,
}
use hawkc.Crypto.{Platform, IsPlatform, generate_nonce}
use hawkc.Authorization.{fill_ts, fill_nonce, ignore_error, calculate_authorization_header_length}

-- The context with a time, and with the hex digits of the random bytes as its nonce.
abbrev pub timed : Platform → HawkcContext → HawkcContext
timed os ctx = record ctx { header_out = record (ctx.header_out) { ts = os.time +ℤ ctx.offset } }

abbrev pub filled : Platform → Bytes → HawkcContext → HawkcContext
filled os bs ctx = record ctx {
  nonce_bytes = bytes_to_hex bs;
  nonce = record (ctx.nonce) { len = max_nonce_hex_bytes };
  header_out = record (ctx.header_out) {
    ts = os.time +ℤ ctx.offset;
    nonce = record (ctx.nonce) { len = max_nonce_hex_bytes };
  };
}

drop_all : (s : Bytes) (n : ℕ) → length s ≡ n → drop n s ≡ []
drop_all [] zero e = refl
drop_all [] (suc n) e = refl
drop_all (c ∷ s) zero e = absurd (omega arith)
drop_all (c ∷ s) (suc n) e = drop_all s n (omega arith)

store_nonce :
    (text : Bytes) (ctx : HawkcContext)
    → length text ≡ length ctx.nonce_bytes
    → store nonce_buffer text ctx ≡ some (record ctx { nonce_bytes = text })
unfolding store
store_nonce text ctx same =
    let fits : leb (length text) (length ctx.nonce_bytes) ≡ true = ground arith in
    rw (fits, drop_all ctx.nonce_bytes (length text) (sym same), append-nil)

module _ (os : Platform) (platform : IsPlatform os) (ctx : HawkcContext) (bs : Bytes)
    (random : os.rand_bytes max_nonce_bytes ≡ some bs) (buffer : ctx.nonce.chars ≡ nonce_buffer)
    (size : length ctx.nonce_bytes ≡ max_nonce_hex_bytes)
    (no_nonce : ctx.header_out.nonce.len ≡ 0) where
  pub length-nonce : length (bytes_to_hex bs) ≡ max_nonce_hex_bytes
  length-nonce =
      let (_, twice) = read_hex-bytes_to_hex bs (platform.rand_range max_nonce_bytes bs random) in
      omega (arith, twice, platform.rand_length max_nonce_bytes bs random)

  fill_nonce-filled : fill_nonce os (timed os ctx) ≡ done tt (filled os bs ctx)
  unfolding fill_nonce generate_nonce ignore_error
  fill_nonce-filled =
      let stored : store ctx.nonce.chars (bytes_to_hex bs) (timed os ctx)
          ≡ some (record (timed os ctx) { nonce_bytes = bytes_to_hex bs }) =
        ap (λ p. store p (bytes_to_hex bs) (timed os ctx)) buffer
        ∙ store_nonce (bytes_to_hex bs) (timed os ctx) (omega (arith, length-nonce, size)) in
      let unset : (ctx.header_out.nonce.len == 0) ≡ true = ground arith in
      rw (unset, random, stored, ◌>>=◌, ◌>>◌)

  fill_ts-timed : ctx.header_out.ts ≡ pos 0 → fill_ts os ctx ≡ done tt (timed os ctx)
  unfolding fill_ts
  fill_ts-timed no_time =
      let unset : is_zero ctx.header_out.ts ≡ true = ap is_zero no_time in rw unset

  -- Where an id is set but neither time nor nonce, RAND_bytes gives six bytes, the nonce's string
  -- points to its buffer of twelve bytes, and the time with the offset is not 0,
  -- hawkc_calculate_authorization_header_length does what it does on the context whose header has
  -- that time, and the twelve hexadecimal digits of the random bytes for its nonce. OpenSSL's
  -- functions are assumed to give as many bytes as documented.
  pub calculate-filled :
      0 < ctx.header_out.id.len
      → ctx.header_out.ts ≡ pos 0
      → is_zero (os.time +ℤ ctx.offset) ≡ false
      → calculate_authorization_header_length os ctx
        ≡ calculate_authorization_header_length os (filled os bs ctx)
  calculate-filled id_given no_time some_time =
      let id_there : (ctx.header_out.id.len == 0) ≡ false = ground arith in
      let ts_kept : fill_ts os (filled os bs ctx) ≡ done tt (filled os bs ctx) =
        unfold fill_ts in rw some_time in
      let nonce_kept : fill_nonce os (filled os bs ctx) ≡ done tt (filled os bs ctx) =
        unfold fill_nonce in refl in
      unfold calculate_authorization_header_length in
      rw (id_there, fill_ts-timed no_time, fill_nonce-filled, ts_kept, nonce_kept, ◌>>=◌, ◌>>◌)

-- The context after RAND_bytes has failed: the error is set, and the nonce is what its buffer had.
abbrev pub stale : Platform → HawkcContext → HawkcContext
stale os ctx = record ctx {
  error = error;
  error_string = record {
    format = "Unable to get %d random bytes, last OpenSSL error code: %ld";
    args = FormatArg.number max_nonce_bytes ∷ FormatArg.number os.err_get_error ∷ [];
  };
  nonce = record (ctx.nonce) { len = max_nonce_hex_bytes };
  header_out = record (ctx.header_out) { nonce = record (ctx.nonce) { len = max_nonce_hex_bytes } };
}

module _ (os : Platform) (ctx : HawkcContext) (random : os.rand_bytes max_nonce_bytes ≡ none)
    (no_nonce : ctx.header_out.nonce.len ≡ 0) where
  fill_nonce-stale : fill_nonce os ctx ≡ done tt (stale os ctx)
  unfolding fill_nonce generate_nonce ignore_error fail set_error
  fill_nonce-stale =
      let unset : (ctx.header_out.nonce.len == 0) ≡ true = ground arith in
      rw (unset, random, ◌>>=◌, ◌>>◌)

  -- Where an id and a time are set but no nonce, and RAND_bytes fails,
  -- hawkc_calculate_authorization_header_length does not fail for that: it does what it does on
  -- the context that has the error and, for the nonce of its header, twelve bytes of the nonce
  -- buffer as they were before.
  pub calculate-stale :
      0 < ctx.header_out.id.len
      → is_zero ctx.header_out.ts ≡ false
      → calculate_authorization_header_length os ctx
        ≡ calculate_authorization_header_length os (stale os ctx)
  calculate-stale id_given time_given =
      let id_there : (ctx.header_out.id.len == 0) ≡ false = ground arith in
      let ts_kept : fill_ts os ctx ≡ done tt ctx = unfold fill_ts in rw time_given in
      let ts_kept_stale : fill_ts os (stale os ctx) ≡ done tt (stale os ctx) =
        unfold fill_ts in rw time_given in
      let nonce_kept : fill_nonce os (stale os ctx) ≡ done tt (stale os ctx) =
        unfold fill_nonce in refl in
      unfold calculate_authorization_header_length in
      rw (id_there, ts_kept, fill_nonce-stale, ts_kept_stale, nonce_kept, ◌>>=◌, ◌>>◌)
