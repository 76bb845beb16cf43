-- ===== src/Authorization/Branches.antt =====
-- Every branch of the signing in hawkc/authorization.c, by the length of the base string.
use hawkc.Base.{
  le_or_lt, if◌then◌else◌, sym, ℕ, Bool-cases, inl, inr, ◌^◌, ◌<◌, ◌≤◌, [], ◌∷◌, ltb, leb, lt→ltb,
  le→ltb, le→leb, true, false, some, Bytes, length, refl, ◌≡◌, arith,
}
use mathlib.Core.Path.{subst}
use hawkc.Outcome.{Action}
use hawkc.Context.{HawkcContext, AuthorizationHeader, FormatArg, fail}
use hawkc.Context.Error.{no_mem, required_buffer_too_large}
use hawkc.Time.Ttoa.Length.{magnitude, one_more}
use hawkc.BaseString.{calculate_base_string_length, create_base_string}
use hawkc.BaseString.Length.{IsSignable, total, length-create_base_string}
use hawkc.Crypto.{Platform}
use hawkc.Authorization.{base_buffer, base_buffer_size, max_dyn_base_buffer_size, sign}
use hawkc.Context.Memory.{is_set, calloc, calloc_answer}
use hawkc.Authorization.Buffer.{Room, static, dynamic, finish, sign_fits}

-- What signing a base string of `n` bytes should come to.
abbrev pub sign_as : Platform → Bytes → ℕ → Action HawkcContext (Unit {0})
sign_as os base n ctx =
    (if leb n 512
        then finish os ctx base
        else if leb n 2048
        then (if calloc_answer os ctx 1 n
            then finish os ctx base
            else fail no_mem (record {
              format = "Unable to allocate %d bytes for dynamic base buffer";
              args = FormatArg.number n ∷ [];
            }))
        else fail required_buffer_too_large (record {
          format = "Required base string buffer of %d bytes exceeds MAX_DYN_BASE_BUFFER_SIZE";
          args = FormatArg.number n ∷ [];
        }))
      ctx

module _ (os : Platform) (ctx : HawkcContext) (header : AuthorizationHeader) where
  -- Above 2048 bytes.
  sign_too_large :
      (base : Bytes) (n : ℕ)
      → calculate_base_string_length ctx header ≡ n
      → 2048 < n
      → sign os header ctx ≡ sign_as os base n ctx
  unfolding sign base_buffer
  sign_too_large base n is large =
      let above : ltb base_buffer_size n ≡ true = lt→ltb _ _ (omega arith) in
      let too_large : ltb max_dyn_base_buffer_size n ≡ true = lt→ltb _ _ large in
      let more : leb n 512 ≡ false = ground arith in
      let much_more : leb n 2048 ≡ false = ground arith in
      rw (is, above, too_large, more, much_more) (unfold fail in refl)

  -- From 513 bytes, where there is no memory for them.
  sign_no_mem :
      (base : Bytes) (n : ℕ)
      → calculate_base_string_length ctx header ≡ n
      → 512 < n
      → n ≤ 2048
      → calloc_answer os ctx 1 n ≡ false
      → sign os header ctx ≡ sign_as os base n ctx
  unfolding sign base_buffer calloc
  sign_no_mem base n is above below missing =
      let large : ltb base_buffer_size n ≡ true = lt→ltb _ _ above in
      let allowed : ltb max_dyn_base_buffer_size n ≡ false = le→ltb _ _ below in
      let more : leb n 512 ≡ false = ground arith in
      let within : leb n 2048 ≡ true = le→leb _ _ below in
      rw (is, large, allowed, missing, more, within) (unfold fail in refl)

  -- From 513 bytes, where there is memory, and up to 512.
  sign_dynamic :
      (base : Bytes) (n : ℕ)
      → calculate_base_string_length ctx header ≡ n
      → create_base_string ctx header ≡ some base
      → length base ≡ n
      → 512 < n
      → n ≤ 2048
      → calloc_answer os ctx 1 n ≡ true
      → is_set ctx.free ≡ is_set ctx.calloc
      → sign os header ctx ≡ sign_as os base n ctx
  sign_dynamic base n is written len above below given paired =
      let more : leb n 512 ≡ false = ground arith in
      let within : leb n 2048 ≡ true = le→leb _ _ below in
      let room : Room os ctx (calculate_base_string_length ctx header) n =
        subst (λ m. Room os ctx m n) (sym is) (dynamic above below given paired) in
      rw (more, within, given) (sign_fits os ctx header n base room written (omega arith))

  sign_static :
      (base : Bytes) (n : ℕ)
      → calculate_base_string_length ctx header ≡ n
      → create_base_string ctx header ≡ some base
      → length base ≡ n
      → n ≤ 512
      → sign os header ctx ≡ sign_as os base n ctx
  sign_static base n is written len below =
      let few : leb n 512 ≡ true = le→leb _ _ below in
      rw few (sign_fits os ctx header 512 base (static (omega arith)) written (omega arith))

  -- For a header with a positive time below 2 ^ 31, all strings that can be read, the sum of their
  -- lengths below 2 ^ 64, and the functions that allocate and free both the caller's or both the C
  -- library's, the base string can be written, and signing goes by its length n, for every n. Up
  -- to 512 it is what hawkc_hmac does with that base string, with the length of the result put
  -- into the context. From 513 to 2048 it is the same where the allocator has a block of n bytes,
  -- which is freed again: the blocks that are left are those that hawkc_hmac alone leaves; and
  -- otherwise HAWKC_NO_MEM with n in the message. Above 2048 it is HAWKC_REQUIRED_BUFFER_TOO_LARGE
  -- with n in the message; the errors change only the error.
  pub sign_lem :
      IsSignable ctx header
      → magnitude header.ts < 2 ^ 31
      → one_more header.ts ≡ 0
      → total ctx header < 2 ^ 64
      → is_set ctx.free ≡ is_set ctx.calloc
      → (base : Bytes) × (create_base_string ctx header ≡ some base)
        × (sign os header ctx ≡ sign_as os base (length base) ctx)
  sign_lem readable small counted fits paired =
      let (base, written, len) = length-create_base_string ctx header readable small fits in
      let n = length base in
      let is : calculate_base_string_length ctx header ≡ n = omega arith in
      (
        base,
        written,
        elim (le_or_lt n 512) [
          | inl below ↦ sign_static base n is written refl below
          | inr above ↦ elim (le_or_lt n 2048) [
            | inl below ↦ elim (Bool-cases (calloc_answer os ctx 1 n)) [
              | inl given ↦ sign_dynamic base n is written refl above below given paired
              | inr missing ↦ sign_no_mem base n is above below missing
            ]
            | inr large ↦ sign_too_large base n is large
          ]
        ],
      )
