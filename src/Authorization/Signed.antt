-- ===== src/Authorization/Signed.antt =====
-- What the signing of a base string leaves in the context.
use hawkc.Base.{
  ℕ, ◌^◌, ◌<◌, ◌≤◌, ◌++◌, if◌then◌else◌, leb, le→leb, Bool, true, false, Option, some, none, Bytes,
  length, drop, equal, ◌≡◌, ap, ap₂, ◌∙◌, arith,
}
use hawkc.Base64
use hawkc.Base64.RoundTrip.{flen-encode}
use hawkc.Outcome.{done, bind, checked, modify}
use hawkc.Context.{
  HawkcContext, HawkcAlgorithm, AuthorizationHeader, store, max_hmac_bytes_b64, hmac_buffer,
}
use hawkc.Time.Ttoa.Length.{magnitude, one_more}
use hawkc.BaseString.{calculate_base_string_length, create_base_string}
use hawkc.BaseString.Length.{IsSignable, total, length-create_base_string}
use hawkc.Crypto.{key_of, Platform, IsPlatform, digest, hmac, hawkc_sha_1, hawkc_sha_256}
use hawkc.Authorization.{sign}
use hawkc.Authorization.Buffer.{Room, static, dynamic, sign_fits, finish}

-- The length of what a digest function makes, with 0 for none.
abbrev digest_length : Bytes → Bytes → Option (Bytes → Bytes → Bytes) → ℕ
digest_length k d none = 0
digest_length k d (some md) = length (md k d)

chosen_length :
    (os : Platform) (h : IsPlatform os) (sha_1 sha_256 : Bool) (k d : Bytes)
    → digest_length k d
        (if sha_1 then some os.hmac_sha1 else if sha_256 then some os.hmac_sha256 else none)
      ≤ 32
chosen_length os h true sha_256 k d = omega (arith, h.sha1_length k d)
chosen_length os h false true k d = omega (arith, h.sha256_length k d)
chosen_length os h false false k d = omega arith

length-digest :
    (os : Platform) (a : HawkcAlgorithm) (md : Bytes → Bytes → Bytes)
    → IsPlatform os
    → digest os a ≡ some md
    → (k d : Bytes) → length (md k d) ≤ 32
unfolding digest
length-digest os a md h is k d =
    let chosen = ap (digest_length k d) is in
    omega (
      arith,
      chosen,
      chosen_length os h (equal a.name hawkc_sha_1.name) (equal a.name hawkc_sha_256.name) k d,
    )

-- The MAC of a message under a key, in base64.
abbrev pub mac_of : (Bytes → Bytes → Bytes) → Bytes → Bytes → Bytes
mac_of md key message = (Base64.encode (md key message)).res

abbrev pub signed_context : HawkcContext → Bytes → HawkcContext
signed_context ctx mac = record ctx {
  hmac_bytes = mac ++ drop (length mac) ctx.hmac_bytes;
  hmac = record (ctx.hmac) { len = length mac };
}

store_hmac :
    (mac : Bytes) (ctx : HawkcContext)
    → leb (length mac) (length ctx.hmac_bytes) ≡ true
    → store hmac_buffer mac ctx
      ≡ some (record ctx { hmac_bytes = mac ++ drop (length mac) ctx.hmac_bytes })
unfolding store
store_hmac mac ctx fits = rw fits

module _ (os : Platform) (h : IsPlatform os) (ctx : HawkcContext) (a : HawkcAlgorithm)
    (md : Bytes → Bytes → Bytes) (is : digest os a ≡ some md) (message key : Bytes)
    (size : length ctx.hmac_bytes ≡ max_hmac_bytes_b64) where
  pub length-mac_of :
      ((Base64.encode (md key message)).flen ≡ length (mac_of md key message))
      × (length (mac_of md key message) ≤ 44)
  length-mac_of =
      let raw = md key message in
      let short = length-digest os a md h is key message in
      let (len, blocks) = flen-encode raw (omega (arith, short)) in (len, omega (arith, short))

  hmac_stored :
      key_of ctx ctx.password ≡ some key
      → hmac os (some a) ctx.password message hmac_buffer ctx
        ≡ done (length (mac_of md key message)) (record ctx {
          hmac_bytes =
              mac_of md key message ++ drop (length (mac_of md key message)) ctx.hmac_bytes;
        })
  unfolding hmac
  hmac_stored key_is =
      let (len, short) = length-mac_of in
      let fits : leb (length (mac_of md key message)) (length ctx.hmac_bytes) ≡ true =
        le→leb _ _ (omega (arith, short)) in
      rw (is, key_is, store_hmac (mac_of md key message) ctx fits, len, hmac, bind, checked)

  finish_signed :
      key_of ctx ctx.password ≡ some key
      → ctx.algorithm ≡ some a
      → ctx.hmac.chars ≡ hmac_buffer
      → finish os ctx message ctx ≡ done tt (signed_context ctx (mac_of md key message))
  finish_signed key_is alg buffer =
      let stored =
        ap₂ (λ x y. hmac os x ctx.password message y ctx) alg buffer ∙ hmac_stored key_is in
      ap
        (λ o.
          bind o (λ len. modify λ after. record after { hmac = record (after.hmac) { len = len } }))
        stored

Room-fits :
    {os : Platform} {ctx : HawkcContext} {required size : ℕ}
    → Room os ctx required size
    → required ≤ size
Room-fits (static fits) = fits
Room-fits (dynamic _ _ _ _) = omega arith

module _ (os : Platform) (h : IsPlatform os) (ctx : HawkcContext) (header : AuthorizationHeader)
    (a : HawkcAlgorithm) (md : Bytes → Bytes → Bytes) (key : Bytes) (room : ℕ) where
  -- The caller has set password and algorithm, the header has a positive time that fits `int`, and
  -- there is a buffer.
  pub record IsSigning : Type 0 where
    pub algorithm_is : ctx.algorithm ≡ some a
    pub digest_is : digest os a ≡ some md
    pub key_is : key_of ctx ctx.password ≡ some key
    pub buffer_at : ctx.hmac.chars ≡ hmac_buffer
    pub buffer_size : length ctx.hmac_bytes ≡ max_hmac_bytes_b64
    pub signable : IsSignable ctx header
    pub time_small : magnitude header.ts < 2 ^ 31
    pub time_positive : one_more header.ts ≡ 0
    pub total_fits : total ctx header < 2 ^ 64
    pub has_room : Room os ctx (calculate_base_string_length ctx header) room

  -- The base string is written, and its MAC is in the context.
  pub sign_done :
      IsSigning
      → (base : Bytes) × (create_base_string ctx header ≡ some base)
        × (sign os header ctx ≡ done tt (signed_context ctx (mac_of md key base)))
        × (length (mac_of md key base) ≤ 44)
  sign_done v =
      let (base, base_is, base_len) =
        length-create_base_string ctx header v.signable v.time_small v.total_fits in
      let (same_len, short) = length-mac_of os h ctx a md v.digest_is base key v.buffer_size in
      (
        base,
        base_is,
        sign_fits os ctx header room base v.has_room base_is
              (omega (arith, base_len, v.time_positive, Room-fits v.has_room))
            ∙ finish_signed os h ctx a md v.digest_is base key v.buffer_size v.key_is v.algorithm_is
                v.buffer_at,
        short,
      )
