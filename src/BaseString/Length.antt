-- ===== src/BaseString/Length.antt =====
-- hawkc_calculate_base_string_length against what hawkc_create_base_string writes.
use hawkc.Base.{
  ℕ, ◌+◌, ◌^◌, ◌<◌, le_or_lt, inl, inr, if◌then◌else◌, ltb, lt→ltb, le→ltb, true, false, [], ◌∷◌,
  some, Bytes, length, length-append, u64_same, ◌≡◌, arith,
}
use hawkc.Context.{HawkcContext, AuthorizationHeader, IsReadable, load_readable}
use hawkc.Time.Ttoa.{number_of_digits}
use hawkc.Time.Ttoa.Length.{magnitude, one_more, length-ttoa}
use hawkc.BaseString.{
  line, hawk_header_prefix, calculate_base_string_length, app_lines, create_base_string,
}

-- All that is copied into the base string can be read.
pub record IsSignable (ctx : HawkcContext) (header : AuthorizationHeader) : Type 0 where
  pub nonce_readable : IsReadable ctx header.nonce
  pub method_readable : IsReadable ctx ctx.method
  pub path_readable : IsReadable ctx ctx.path
  pub host_readable : IsReadable ctx ctx.host
  pub port_readable : IsReadable ctx ctx.port
  pub ext_readable : IsReadable ctx header.ext
  pub app_readable : IsReadable ctx header.app
  pub dlg_readable : IsReadable ctx header.dlg

abbrev app_length : AuthorizationHeader → ℕ
app_length header = if ltb 0 header.app.len then header.app.len + 1 + (header.dlg.len + 1) else 0

length-app_lines :
    (ctx : HawkcContext) (header : AuthorizationHeader)
    → IsSignable ctx header
    → (text : Bytes) × (app_lines ctx header ≡ some text) × (length text ≡ app_length header)
length-app_lines ctx header h = elim (le_or_lt 1 header.app.len) [
  | inl given ↦
      let (app, app_is, app_len) = load_readable ctx header.app h.app_readable in
      let (dlg, dlg_is, dlg_len) = load_readable ctx header.dlg h.dlg_readable in
      let more : ltb 0 header.app.len ≡ true = lt→ltb _ _ given in
      (
        line app (line dlg []),
        unfold app_lines in rw (more, app_is, dlg_is),
        rw more (
            omega
              (arith, length-append app (b'\n' ∷ (line dlg [])), length-append dlg (b'\n' ∷ []))),
      )
  | inr missing ↦
      let none_given : ltb 0 header.app.len ≡ false = le→ltb header.app.len 0 (omega arith) in
      ([], unfold app_lines in rw none_given, rw none_given)
]

length-line : (s rest : Bytes) → length (line s rest) ≡ length s + 1 + length rest
length-line s rest = omega (arith, length-append s (b'\n' ∷ rest))

-- What the length function adds up, before it is cut to 64 bits.
abbrev pub total : HawkcContext → AuthorizationHeader → ℕ
total ctx header =
    22
    + number_of_digits header.ts
    + header.nonce.len
    + ctx.method.len
    + ctx.path.len
    + ctx.host.len
    + ctx.port.len
    + header.ext.len
    + app_length header

pub calculate-total :
    (ctx : HawkcContext) (header : AuthorizationHeader)
    → total ctx header < 2 ^ 64
    → calculate_base_string_length ctx header ≡ total ctx header
unfolding calculate_base_string_length
calculate-total ctx header fits =
    u64_same
      (elim (le_or_lt 1 header.app.len) [
        | inl given ↦
            let more : ltb 0 header.app.len ≡ true = lt→ltb _ _ given in rw more (omega arith)
        | inr missing ↦
            let none_given : ltb 0 header.app.len ≡ false = le→ltb header.app.len 0 (omega arith) in
            rw none_given (omega arith)
      ])
      fits

-- When all strings can be read, the time's absolute value is below 2 ^ 31 and the sum of the
-- lengths below 2 ^ 64, the base string is written, and is as long as
-- hawkc_calculate_base_string_length says for a positive time, and one byte longer for a time that
-- is zero or negative.
pub length-create_base_string :
    (ctx : HawkcContext) (header : AuthorizationHeader)
    → IsSignable ctx header
    → magnitude header.ts < 2 ^ 31
    → total ctx header < 2 ^ 64
    → (text : Bytes) × (create_base_string ctx header ≡ some text)
      × (length text ≡ calculate_base_string_length ctx header + one_more header.ts)
length-create_base_string ctx header h small fits =
    let (ts, ts_is, ts_len) = length-ttoa header.ts small in
    let (nonce, nonce_is, nonce_len) = load_readable ctx header.nonce h.nonce_readable in
    let (method, method_is, method_len) = load_readable ctx ctx.method h.method_readable in
    let (path, path_is, path_len) = load_readable ctx ctx.path h.path_readable in
    let (host, host_is, host_len) = load_readable ctx ctx.host h.host_readable in
    let (port, port_is, port_len) = load_readable ctx ctx.port h.port_readable in
    let (ext, ext_is, ext_len) = load_readable ctx header.ext h.ext_readable in
    let (app, app_is, app_len) = length-app_lines ctx header h in
    let tail = line path (line host (line port (line [] (line ext app)))) in
    let text = line hawk_header_prefix (line ts (line nonce (line method tail))) in
    (
      text,
      unfold create_base_string in
          rw (ts_is, nonce_is, method_is, path_is, host_is, port_is, ext_is, app_is),
      rw (calculate-total ctx header fits) (
          omega (
            arith,
            length-line hawk_header_prefix (line ts (line nonce (line method tail))),
            length-line ts (line nonce (line method tail)),
            length-line nonce (line method tail),
            length-line method tail,
            length-line path (line host (line port (line [] (line ext app)))),
            length-line host (line port (line [] (line ext app))),
            length-line port (line [] (line ext app)),
            length-line ext app,
          )),
    )
