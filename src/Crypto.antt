-- ===== src/Crypto.antt =====
-- hawkc/crypto_openssl.c, and what the library takes from OpenSSL and the C library.
pub mod Key
use hawkc.Base.{
  ℕ, Bool, true, false, ◌%◌, ◌^◌, ltb, if◌then◌else◌, leb, [], ◌∷◌, Option, none, some, Bytes,
  IsBytes, codes, length, equal, ◌≡◌,
}
use hawkc.Base.Int.{ℤ}
use hawkc.Outcome.{Outcome, Action, done, fault, checked, bind}
use hawkc.Context.{
  HawkcContext, HawkcAlgorithm, Ptr, null, at, hmac_buffer, ts_hmac_buffer, nonce_buffer, FormatArg,
  CallocFunc, MallocFunc, HawkcString, load, store, fail, max_nonce_bytes,
}
use hawkc.Context.Error.{error, error_unknown_algorithm}
use hawkc.Base64
use hawkc.Hex.{bytes_to_hex}

-- The answers of the calls that leave the library: RAND_bytes (`none` where it does not return
-- 1), ERR_get_error, HMAC_Init, HMAC_Update and HMAC_Final in a row for each digest, malloc,
-- calloc, and time.
pub record Platform : Type 0 where
  pub rand_bytes : ℕ → Option Bytes
  pub err_get_error : ℕ
  pub hmac_sha1 : Bytes → Bytes → Bytes
  pub hmac_sha256 : Bytes → Bytes → Bytes
  pub malloc : MallocFunc
  pub calloc : CallocFunc
  pub time : ℤ

-- What OpenSSL documents of them.
pub record IsPlatform (os : Platform) : Type 0 where
  pub sha1_length : (k d : Bytes) → length (os.hmac_sha1 k d) ≡ 20
  pub sha1_bytes : (k d : Bytes) → IsBytes (os.hmac_sha1 k d)
  pub sha256_length : (k d : Bytes) → length (os.hmac_sha256 k d) ≡ 32
  pub sha256_bytes : (k d : Bytes) → IsBytes (os.hmac_sha256 k d)
  pub rand_length : (n : ℕ) (bs : Bytes) → os.rand_bytes n ≡ some bs → length bs ≡ n
  pub rand_range : (n : ℕ) (bs : Bytes) → os.rand_bytes n ≡ some bs → IsBytes bs

abbrev pub hawkc_sha_1 : HawkcAlgorithm
hawkc_sha_1 = record { name = codes "sha1" }

abbrev pub hawkc_sha_256 : HawkcAlgorithm
hawkc_sha_256 = record { name = codes "sha256" }

-- The names of the algorithms are no longer than they say, so strncmp compares whole names.
unfoldable pub algorithm_by_name : Bytes → Option HawkcAlgorithm
algorithm_by_name name =
    if equal name hawkc_sha_1.name
    then some hawkc_sha_1
    else if equal name hawkc_sha_256.name
    then some hawkc_sha_256
    else none

-- What a write leaves; one out of range is a fault.
abbrev pub written : {A : Type 0} → A → Option HawkcContext → Outcome HawkcContext A
written a none = fault
written a (some ctx) = done a ctx

abbrev pub is_null : Ptr → Bool
is_null null = true
is_null (at bytes) = false
is_null hmac_buffer = false
is_null ts_hmac_buffer = false
is_null nonce_buffer = false

-- The key that HMAC_Init reads: it takes the length as an `int`. With NULL or a negative length,
-- for which it has no documented result, there is none.
unfoldable pub key_of : HawkcContext → HawkcString → Option Bytes
key_of ctx password =
    if is_null password.chars
    then none
    else if ltb (password.len % 2 ^ 32) (2 ^ 31)
    then load ctx (record password { len = password.len % 2 ^ 32 })
    else none

module _ (os : Platform) where
  abbrev pub write_nonce : ℕ → Ptr → Option Bytes → Action HawkcContext (Unit {0})
  write_nonce nbytes buf none ctx =
      fail error
        (record {
          format = "Unable to get %d random bytes, last OpenSSL error code: %ld";
          args = FormatArg.number nbytes ∷ FormatArg.number os.err_get_error ∷ [];
        })
        ctx
  write_nonce nbytes buf (some nonce_bytes) ctx =
      written tt (store buf (bytes_to_hex nonce_bytes) ctx)

  -- Writes the random bytes as hex digits from `buf` on. A failed assertion is a fault.
  unfoldable pub generate_nonce : ℕ → Ptr → Action HawkcContext (Unit {0})
  generate_nonce nbytes buf ctx =
      if leb nbytes max_nonce_bytes
      then write_nonce nbytes buf (os.rand_bytes nbytes) ctx
      else fault

  -- The digest function, by the algorithm's name.
  unfoldable pub digest : HawkcAlgorithm → Option (Bytes → Bytes → Bytes)
  digest algorithm =
      if equal algorithm.name hawkc_sha_1.name
      then some os.hmac_sha1
      else if equal algorithm.name hawkc_sha_256.name
      then some os.hmac_sha256
      else none

  -- The HMAC by a digest function; the password is read once that is known. Without a key to read,
  -- `buf` and `len` are used as they are, which is a fault.
  abbrev pub hmac_by :
      HawkcAlgorithm
      → Option (Bytes → Bytes → Bytes)
      → HawkcString
      → Bytes
      → Ptr
      → Action HawkcContext ℕ
  hmac_by algorithm none password message result ctx =
      fail error_unknown_algorithm
        (record {
          format = "Algorithm %s not recognized for HMAC calculation";
          args = FormatArg.name algorithm.name ∷ [];
        })
        ctx
  hmac_by algorithm (some md) password message result ctx =
      bind (checked (key_of ctx password) ctx) λ key s.
        let encoded = Base64.encode (md key message) in
        written encoded.flen (store result encoded.res s)

  -- Writes the HMAC in base64 from `result` on, and returns its length. The algorithm's NULL
  -- pointer is followed.
  unfoldable pub hmac : Option HawkcAlgorithm → HawkcString → Bytes → Ptr → Action HawkcContext ℕ
  hmac none password message result ctx = fault
  hmac (some algorithm) password message result ctx =
      hmac_by algorithm (digest algorithm) password message result ctx
