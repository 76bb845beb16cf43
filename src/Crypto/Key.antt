-- ===== src/Crypto/Key.antt =====
-- The key that hawkc_hmac (hawkc/crypto_openssl.c) gives to HMAC_Init.
use hawkc.Base.{
  Bool, Option, none, if◌then◌else◌, ◌%◌, ◌^◌, ◌<◌, ltb, lt→ltb, Bytes, length, some, true, false,
  ◌≡◌, refl, arith,
}
use hawkc.Context.{HawkcContext, HawkcString, of_bytes, load, length-load, load-of_bytes}
use hawkc.Crypto.{key_of}

-- Where a key is read, no test has failed.
passed :
    (is_none fits : Bool) (read : Option Bytes) (key : Bytes)
    → (if is_none then none else if fits then read else none) ≡ some key
    → (fits ≡ true) × (read ≡ some key)
passed true fits read key is = absurd cc
passed false true read key is = (refl, is)
passed false false read key is = absurd cc

-- A key has a length that fits `int`.
pub length-key_of :
    (ctx : HawkcContext) (password : HawkcString) (key : Bytes)
    → key_of ctx password ≡ some key
    → length key < 2 ^ 31
unfolding key_of
length-key_of ctx password key is =
    let cut = record password { len = password.len % 2 ^ 32 } in
    let (fits, read) : (ltb cut.len (2 ^ 31) ≡ true) × (load ctx cut ≡ some key) =
      passed _ _ _ key is in
    ground (arith, length-load ctx cut key read)

-- Bytes of such a length are read as the key.
pub key_of-of_bytes :
    (ctx : HawkcContext) (key : Bytes) → length key < 2 ^ 31 → key_of ctx (of_bytes key) ≡ some key
unfolding key_of
key_of-of_bytes ctx key short =
    let same : length key % 2 ^ 32 ≡ length key = omega arith in
    let fits : ltb (length key) (2 ^ 31) ≡ true = lt→ltb _ _ short in
    rw (same, fits) (load-of_bytes ctx key)
