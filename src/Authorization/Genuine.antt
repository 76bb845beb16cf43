-- ===== src/Authorization/Genuine.antt =====
-- What it takes for hawkc_validate_hmac of hawkc/authorization.c to find a request valid.
use hawkc.Base.{
  ◌≢◌, [], ◌≤◌, ◌++◌, if◌then◌else◌, length, Bool, true, false, Option, none, some, Bytes, ◌≡◌,
  refl, ap, ap₂, ◌∙◌, arith,
}
use hawkc.Outcome.{done, checked}
use hawkc.Outcome.Done.{Done, Done-bind, Done-checked, Done-returned}
use hawkc.Context.{HawkcContext, max_hmac_bytes_b64, pointee, hmac_buffer}
use hawkc.Base64.RoundTrip.{flen-encode}
use hawkc.BaseString.{create_base_string}
use hawkc.Crypto.{Platform, IsPlatform, digest}
use hawkc.Authorization.{validate_hmac}
use hawkc.Authorization.Validate.{compare_bytes, compare_bytes_lem, compare_macs}
use hawkc.Authorization.Signed.{mac_of, length-mac_of}
use hawkc.Authorization.Signs.{IsKeyed, Signed, sign-Signed}

digest_given :
    (os : Platform) (h : IsPlatform os) (sha_1 sha_256 : Bool) (md : Bytes → Bytes → Bytes)
    → (if sha_1 then some os.hmac_sha1 else if sha_256 then some os.hmac_sha256 else none) ≡ some md
    → (k d : Bytes) → (20 ≤ length (md k d)) × (length (md k d) ≤ 32)
digest_given os h true sha_256 md is k d =
    let same : os.hmac_sha1 ≡ md = cc in
    rw⁻¹ same (omega (arith, h.sha1_length k d), omega (arith, h.sha1_length k d))
digest_given os h false true md is k d =
    let same : os.hmac_sha256 ≡ md = cc in
    rw⁻¹ same (omega (arith, h.sha256_length k d), omega (arith, h.sha256_length k d))
digest_given os h false false md is k d = absurd cc

-- No MAC is empty.
pub mac_of-ne-nil :
    (os : Platform) (h : IsPlatform os) (ctx : HawkcContext) (k : IsKeyed os ctx) (message : Bytes)
    → mac_of k.md k.key message ≢ []
unfolding digest
mac_of-ne-nil os h ctx k message empty =
    let (long, short) = digest_given os h _ _ k.md k.digest_is k.key message in
    let (same, groups) = flen-encode (k.md k.key message) (omega arith) in
    absurd (omega (arith, ap length empty))

-- The MAC of the parsed header is that of its base string.
pub record IsGenuine (os : Platform) (ctx : HawkcContext) (given : Bytes) : Type 0 where
  pub keyed : IsKeyed os ctx
  pub base : Bytes
  pub base_is : create_base_string ctx ctx.header_in ≡ some base
  pub mac_is : given ≡ mac_of keyed.md keyed.key base

module _ (os : Platform) (h : IsPlatform os) (ctx : HawkcContext) (given more : Bytes)
    (size : length ctx.hmac_bytes ≡ max_hmac_bytes_b64) (at_buffer : ctx.hmac.chars ≡ hmac_buffer)
    (given_len : ctx.header_in.mac.len ≡ length given)
    (given_at : (s : HawkcContext) → pointee s ctx.header_in.mac.chars ≡ given ++ more) where
  verdict :
      {o : Option Bool} {r : Bool} (valid : Bool)
      → o ≡ some valid
      → valid ≡ true
      → o ≡ some r
      → r ≡ true
  verdict valid is valid_true same = cc

  compared_Genuine :
      (s : HawkcContext)
      → Signed os ctx ctx.header_in s
      → Done
          (λ valid _. valid ≡ true → IsGenuine os ctx given)
          (checked (compare_macs s s.header_in.mac s.hmac.chars s.hmac.len) s)
  unfolding pointee
  compared_Genuine s made =
      let k = made.keyed in
      let mac = mac_of k.md k.key made.base in
      let (flen_is, short) =
        length-mac_of os h ctx k.algorithm k.md k.digest_is made.base k.key size in
      let (r, is, right) = compare_bytes_lem given more mac made.rest short in
      let mac_is : s.hmac ≡ record { len = length mac; chars = hmac_buffer } =
        made.hmac_is ∙ ap₂ (λ n p. record { len = n; chars = p }) flen_is at_buffer in
      let same : compare_macs s s.header_in.mac s.hmac.chars s.hmac.len ≡ some r =
        ap₂ (λ header q. compare_macs s header.mac q.chars q.len) made.header_same mac_is
        ∙ ap₂ (λ n g. compare_bytes n g s.hmac_bytes (length mac)) given_len (given_at s)
        ∙ ap (λ b. compare_bytes (length given) (given ++ more) b (length mac)) made.bytes_are
        ∙ is in
      Done-checked _ s λ valid valid_is valid_true. record {
        keyed = k;
        base = made.base;
        base_is = made.base_is;
        mac_is = right.0 (verdict valid valid_is valid_true same);
      }

  -- Where the buffers are as hawkc_context_init sets them up, a parsed MAC that is found valid is
  -- that of the base string, under the context's algorithm and password.
  pub validate_hmac-IsGenuine :
      (after : HawkcContext) → validate_hmac os ctx ≡ done true after → IsGenuine os ctx given
  unfolding validate_hmac
  validate_hmac-IsGenuine after accepted =
      Done-returned accepted
        (Done-bind (sign-Signed os ctx ctx.header_in at_buffer) λ _ s made. compared_Genuine s made)
        refl
