-- ===== src/Calls/Signing.antt =====
-- Signing and nonces in hawkc/authorization.c, hawkc/www_authenticate.c and hawkc/crypto_openssl.c
-- keep the buffers of the context as they were set up.
use hawkc.Base.{
  ℕ, ◌==◌, leb, Bool-cases, inl, inr, if◌then◌else◌, List, ◌∷◌, Option, none, some, Bytes, length,
  refl,
}
use hawkc.Base.Int.{is_zero}
use hawkc.Hex.{bytes_to_hex}
use hawkc.Base64
use mathlib.Core.Path.{subst}
use hawkc.Outcome.{Outcome, Action, bind, checked}
use hawkc.Context.Memory.{with_blocks, free_first, free}
use hawkc.Outcome.Keeps.{
  Keeps, returned, failed_in, faulted, cut, Keeps-bind, Keeps-if, Keeps-checked, Keeps-access,
}
use hawkc.Context.{
  HawkcContext, Block, HawkcString, HawkcAlgorithm, AuthorizationHeader, Ptr, set_error,
  max_nonce_bytes,
}
use hawkc.Context.Buffers.{IsContext, Holds, store-IsContext}
use hawkc.Crypto.{Platform, written, write_nonce, generate_nonce, key_of, digest, hmac_by, hmac}
use hawkc.BaseString.{calculate_base_string_length, create_base_string}
use hawkc.Authorization.{
  free_buffer, sign, validate_hmac, fill_ts, fill_nonce, ignore_error,
  calculate_authorization_header_length,
}
use hawkc.WwwAuthenticate.{
  calculate_www_authenticate_header_length, create_ts_base_string, ts_base_buffer_size,
}
use hawkc.Authorization.Buffer.{Buffered, declined, kept, allocated, base_buffer-Buffered}
use hawkc.Calls.Parsing.{KeepsBuffers, fail-KeepsBuffers}

written-Keeps :
    {A : Type 0} {left : List Block} (a : A) (o : Option HawkcContext)
    → Holds (IsContext left) o
    → Keeps (IsContext left) (written a o)
written-Keeps a none h = faulted
written-Keeps a (some ctx) h = returned h

-- The blocks do not matter to the buffers.
IsContext-with_blocks :
    {left : List Block} (ctx : HawkcContext) (bs : List Block)
    → IsContext left ctx
    → IsContext bs (with_blocks bs ctx)
IsContext-with_blocks ctx bs h = record {
  hmac_at = h.hmac_at;
  ts_hmac_at = h.ts_hmac_at;
  nonce_at = h.nonce_at;
  hmac_has = h.hmac_has;
  ts_hmac_has = h.ts_hmac_has;
  nonce_has = h.nonce_has;
  blocks_are = refl;
}

IsContext-held :
    {left : List Block} (ctx : HawkcContext) (b : Block)
    → IsContext left ctx
    → IsContext (b ∷ left) (with_blocks (b ∷ ctx.blocks) ctx)
IsContext-held ctx b h =
    subst (λ bs. IsContext (b ∷ bs) (with_blocks (b ∷ ctx.blocks) ctx)) h.blocks_are
      (IsContext-with_blocks ctx (b ∷ ctx.blocks) h)

module _ (os : Platform) {left : List Block} where
  -- What follows the allocation goes on with the static buffer, or with a block.
  Buffered-Keeps :
      {A : Type 0} {ctx : HawkcContext} {o : Outcome HawkcContext (ℕ × Option Block)}
      (next : ℕ × Option Block → Action HawkcContext A)
      → Buffered ctx o
      → IsContext left ctx
      → ((size : ℕ) → Keeps (IsContext left) (next (size, none) ctx))
      → ((size : ℕ) (b : Block)
          → Keeps (IsContext left) (next (size, some b) (with_blocks (b ∷ ctx.blocks) ctx)))
      → Keeps (IsContext left) (bind o next)
  unfolding set_error
  Buffered-Keeps next (declined e message) h static dynamic = failed_in h
  Buffered-Keeps next (kept size) h static dynamic = static size
  Buffered-Keeps next (allocated size b) h static dynamic = dynamic size b

  write_nonce-KeepsBuffers :
      (n : ℕ) (buf : Ptr) (random : Option Bytes) → KeepsBuffers left (write_nonce os n buf random)
  write_nonce-KeepsBuffers n buf none ctx h = fail-KeepsBuffers _ _ ctx h
  write_nonce-KeepsBuffers n buf (some random) ctx h =
      written-Keeps tt _ (store-IsContext buf (bytes_to_hex random) ctx h)

  generate_nonce-KeepsBuffers : (n : ℕ) (buf : Ptr) → KeepsBuffers left (generate_nonce os n buf)
  unfolding generate_nonce
  generate_nonce-KeepsBuffers n buf ctx h = elim (Bool-cases (leb n max_nonce_bytes)) [
    | inl allowed ↦ rw allowed (write_nonce-KeepsBuffers n buf (os.rand_bytes n) ctx h)
    | inr refused ↦ rw refused faulted
  ]

  hmac_by-KeepsBuffers :
      (a : HawkcAlgorithm) (md : Option (Bytes → Bytes → Bytes)) (password : HawkcString)
      (message : Bytes) (result : Ptr)
      → KeepsBuffers left (hmac_by os a md password message result)
  hmac_by-KeepsBuffers a none password message result ctx h = fail-KeepsBuffers _ _ ctx h
  hmac_by-KeepsBuffers a (some md) password message result ctx h =
      Keeps-bind (Keeps-checked (key_of ctx password) ctx h) λ key s h'.
        written-Keeps _ _ (store-IsContext result (Base64.encode (md key message)).res s h')

  hmac-KeepsBuffers :
      (a : Option HawkcAlgorithm) (password : HawkcString) (message : Bytes) (result : Ptr)
      → KeepsBuffers left (hmac os a password message result)
  unfolding hmac
  hmac-KeepsBuffers none password message result ctx h = faulted
  hmac-KeepsBuffers (some a) password message result ctx h =
      hmac_by-KeepsBuffers a (digest os a) password message result ctx h

  -- A block that has been given back is not there any more.
  free-Keeps :
      {A : Type 0} (b : Block) (ctx : HawkcContext) (f : HawkcContext → Action HawkcContext A)
      → IsContext (b ∷ left) ctx
      → ((c : HawkcContext) → IsContext left c → Keeps (IsContext left) (f c ctx))
      → Keeps (IsContext left) (bind (checked (free ctx b) ctx) f)
  free-Keeps b ctx f h next = elim (free_first b left ctx h.blocks_are) [
    | inl back ↦ rw back (next _ (IsContext-with_blocks ctx left h))
    | inr lost ↦ rw lost faulted
  ]

  -- The block is given back, also where the call has failed.
  free_buffer-Keeps :
      {A : Type 0} (b : Block) {o : Outcome HawkcContext A}
      → Keeps (IsContext (b ∷ left)) o
      → Keeps (IsContext left) (free_buffer (some b) o)
  unfolding free_buffer
  free_buffer-Keeps b (returned h) = free-Keeps b _ _ h λ c h'. returned h'
  free_buffer-Keeps b (failed_in h) = free-Keeps b _ _ h λ c h'. failed_in h'
  free_buffer-Keeps b faulted = faulted
  free_buffer-Keeps b cut = cut

module _ (os : Platform) {left : List Block} where
  sign-KeepsBuffers : (header : AuthorizationHeader) → KeepsBuffers left (sign os header)
  unfolding sign free_buffer
  sign-KeepsBuffers header ctx h =
      Buffered-Keeps os _ (base_buffer-Buffered os (calculate_base_string_length ctx header) ctx) h
        (λ size. Keeps-access (create_base_string ctx header) ctx _ λ base.
          Keeps-access (if leb (length base) size then some tt else none) ctx _ λ _.
            Keeps-bind (hmac-KeepsBuffers os ctx.algorithm ctx.password base ctx.hmac.chars ctx h)
              λ len c h'. returned h')
        (λ size b. Keeps-access (create_base_string ctx header) _ _ λ base.
          Keeps-access (if leb (length base) size then some tt else none) _ _ λ _.
            Keeps-bind
              (free_buffer-Keeps os b (
                hmac-KeepsBuffers os ctx.algorithm ctx.password base ctx.hmac.chars _
                  (IsContext-held ctx b h)))
              λ len c h'. returned h')

  pub validate_hmac-KeepsBuffers : KeepsBuffers left (validate_hmac os)
  unfolding validate_hmac
  validate_hmac-KeepsBuffers ctx h =
      Keeps-bind (sign-KeepsBuffers ctx.header_in ctx h) λ _ c h'. Keeps-checked _ c h'

  fill_ts-KeepsBuffers : KeepsBuffers left (fill_ts os)
  unfolding fill_ts
  fill_ts-KeepsBuffers ctx h =
      Keeps-if (is_zero ctx.header_out.ts) _ _ ctx (returned h) (returned h)

  ignore_error-Keeps :
      {o : Outcome HawkcContext (Unit {0})}
      → Keeps (IsContext left) o
      → Keeps (IsContext left) (ignore_error o)
  unfolding ignore_error
  ignore_error-Keeps (returned h) = returned h
  ignore_error-Keeps (failed_in h) = returned h
  ignore_error-Keeps faulted = faulted
  ignore_error-Keeps cut = cut

  fill_nonce-KeepsBuffers : KeepsBuffers left (fill_nonce os)
  unfolding fill_nonce
  fill_nonce-KeepsBuffers ctx h =
      Keeps-if (ctx.header_out.nonce.len == 0) _ _ ctx
        (Keeps-bind
          (ignore_error-Keeps
            (generate_nonce-KeepsBuffers os max_nonce_bytes ctx.nonce.chars ctx h))
          λ _ c h'. returned h')
        (returned h)

  pub calculate_authorization_header_length-KeepsBuffers :
      KeepsBuffers left (calculate_authorization_header_length os)
  unfolding calculate_authorization_header_length
  calculate_authorization_header_length-KeepsBuffers ctx h =
      Keeps-if (ctx.header_out.id.len == 0) _ _ ctx (fail-KeepsBuffers _ _ ctx h) (
        Keeps-bind (fill_ts-KeepsBuffers ctx h) λ _ c1 h1.
          Keeps-bind (fill_nonce-KeepsBuffers c1 h1)
            λ _ c2 h2. Keeps-bind (sign-KeepsBuffers c2.header_out c2 h2) λ _ c3 h3. returned h3)

  pub calculate_www_authenticate_header_length-KeepsBuffers :
      KeepsBuffers left (calculate_www_authenticate_header_length os)
  unfolding calculate_www_authenticate_header_length
  calculate_www_authenticate_header_length-KeepsBuffers ctx h =
      Keeps-if (is_zero ctx.www_authenticate_header.ts) _ _ ctx (returned h) (
        Keeps-bind (Keeps-checked (create_ts_base_string ctx.www_authenticate_header) ctx h)
          λ base c1 h1.
            Keeps-bind
              (Keeps-checked (if leb (length base) ts_base_buffer_size then some tt else none) c1
                h1)
              λ _ c2 h2.
                Keeps-bind
                  (hmac-KeepsBuffers os ctx.algorithm ctx.password base ctx.ts_hmac.chars c2 h2)
                  λ len c3 h3. returned h3)
