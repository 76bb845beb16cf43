-- ===== src/Tests/Signing.antt =====
-- Base strings, headers and MACs of a request.
use hawkc.Base.{
  ◌+◌, ◌%◌, ◌^◌, ◌<◌, Bool, true, [], none, some, Bytes, codes, length, replicate, ◌≡◌, ◌↔◌, ◌⊎◌,
  refl, arith,
}
use hawkc.Base.Int.{ℤ, pos}
use hawkc.Tests.Requests.{os, os-IsPlatform, request, given_header, readable}
use hawkc.Outcome.{done, fault}
use hawkc.Context.{HawkcContext, AuthorizationHeader, at, init, load, pointee}
use hawkc.Context.Error.{strerror, strerror_lem, base64_error, overflow_error}
use hawkc.Crypto.Key.{key_of-of_bytes}
use hawkc.Crypto.{key_of, hawkc_sha_256, digest}
use hawkc.Time.Ttoa.{number_of_digits, count_digits}
use hawkc.BaseString.{calculate_base_string_length, create_base_string}
use hawkc.BaseString.Length.{IsSignable, total, length-create_base_string}
use hawkc.Authorization.{sign, validate_hmac}
use hawkc.Authorization.Create.{create_authorization_header, header_length}
use hawkc.Authorization.Create.Length.{IsSendable, header_total, length-create_authorization_header}
use hawkc.Authorization.Buffer.{Room, static, sign_overflow}
use hawkc.Authorization.Branches.{sign_as, sign_lem}
use hawkc.Authorization.Signed.{mac_of, IsSigning}
use hawkc.Authorization.Validate.{validate_hmac_lem}

signable :
    (mac : Bytes) (ts : ℤ) (ext : Bytes)
    → IsSignable (request (given_header mac ts ext)) (given_header mac ts ext)
signable mac ts ext =
    let ctx = request (given_header mac ts ext) in
    record {
      nonce_readable = readable ctx (codes "j4h3g2");
      method_readable = readable ctx (codes "GET");
      path_readable = readable ctx (codes "/resource");
      host_readable = readable ctx (codes "example.com");
      port_readable = readable ctx (codes "80");
      ext_readable = readable ctx ext;
      app_readable = readable ctx [];
      dlg_readable = readable ctx [];
    }

-- A time zero, and texts that fill 512 bytes by the calculated length.
abbrev full : AuthorizationHeader
full = given_header [] (pos 0) (replicate 459 b'x')

abbrev usual : AuthorizationHeader
usual = given_header (codes "forged") (pos 1353832234) (codes "some-data")

full-total : total (request full) full < 2 ^ 64
unfolding init number_of_digits count_digits
full-total = omega arith

length-create_base_string_example :
    (text : Bytes) × (create_base_string (request full) full ≡ some text)
    × (length text ≡ calculate_base_string_length (request full) full + 1)
length-create_base_string_example =
    length-create_base_string (request full) full (signable [] (pos 0) (replicate 459 b'x'))
      (omega arith) full-total

full-Room :
    Room os
      (request full)
      (calculate_base_string_length (request full) full)
      (calculate_base_string_length (request full) full)
unfolding init calculate_base_string_length number_of_digits count_digits
full-Room = static (omega arith)

sign_overflow_example : sign os full (request full) ≡ fault
sign_overflow_example =
    sign_overflow os (request full) full (signable [] (pos 0) (replicate 459 b'x')) (omega arith)
      refl full-total full-Room

-- Texts that need a block from the allocator.
abbrev long : AuthorizationHeader
long = given_header [] (pos 1353832234) (replicate 1000 b'x')

long-total : total (request long) long < 2 ^ 64
unfolding init number_of_digits count_digits
long-total = omega arith

sign_lem_example :
    (base : Bytes) × (create_base_string (request long) long ≡ some base)
    × (sign os long (request long) ≡ sign_as os base (length base) (request long))
unfolding init
sign_lem_example =
    sign_lem os (request long) long (signable [] (pos 1353832234) (replicate 1000 b'x'))
      (omega arith) refl long-total refl

usual-total : total (request usual) usual < 2 ^ 64
unfolding init number_of_digits count_digits
usual-total = omega arith

usual-Room : Room os (request usual) (calculate_base_string_length (request usual) usual) 512
unfolding init calculate_base_string_length number_of_digits count_digits
usual-Room = static (omega arith)

sha_256_chosen : digest os hawkc_sha_256 ≡ some (λ k d. replicate 32 (length d % 256))
unfolding digest
sha_256_chosen = refl

usual-IsSigning :
    IsSigning os os-IsPlatform
      (request usual)
      usual
      hawkc_sha_256
      (λ k d. replicate 32 (length d % 256))
      (codes "secret")
      512
unfolding init
usual-IsSigning = record {
  algorithm_is = refl;
  digest_is = sha_256_chosen;
  key_is = key_of-of_bytes (request usual) (codes "secret") (omega arith);
  buffer_at = refl;
  buffer_size = refl;
  signable = signable (codes "forged") (pos 1353832234) (codes "some-data");
  time_small = omega arith;
  time_positive = refl;
  total_fits = usual-total;
  has_room = usual-Room;
}

validate_hmac_lem_example :
    (base : Bytes) × (r : Bool) × (after : HawkcContext) × (create_base_string (request usual) usual
      ≡ some base)
    × (validate_hmac os (request usual) ≡ done r after)
    × ((r ≡ true)
        ↔ (codes "forged" ≡ mac_of (λ k d. replicate 32 (length d % 256)) (codes "secret") base))
validate_hmac_lem_example =
    validate_hmac_lem os os-IsPlatform (request usual) hawkc_sha_256
      (λ k d. replicate 32 (length d % 256)) (codes "secret") (codes "forged") [] 512
      usual-IsSigning refl

usual-IsSendable : IsSendable (request usual)
unfolding pointee
usual-IsSendable =
    let ctx = request usual in
    record {
      id_readable = readable ctx (codes "me");
      nonce_readable = readable ctx (codes "j4h3g2");
      mac_readable = omega arith;
      ext_readable = readable ctx (codes "some-data");
      app_readable = readable ctx [];
      dlg_readable = readable ctx [];
    }

usual-header_total : header_total usual < 2 ^ 64
unfolding number_of_digits count_digits
usual-header_total = omega arith

length-create_authorization_header_example :
    (text : Bytes) × (create_authorization_header (request usual) ≡ some text)
    × (length text ≡ header_length usual + 0)
length-create_authorization_header_example =
    length-create_authorization_header (request usual) usual-IsSendable (omega arith)
      usual-header_total

strerror_lem_example :
    (strerror base64_error ≡ none → (base64_error ≡ base64_error) ⊎ (base64_error ≡ overflow_error))
    × ((base64_error ≡ base64_error) ⊎ (base64_error ≡ overflow_error)
        → strerror base64_error ≡ none)
strerror_lem_example = strerror_lem base64_error

-- A password that was never set, and one whose length has more than 32 bits.
no_key : key_of init init.password ≡ none
unfolding key_of init
no_key = refl

cut_key : key_of init (record { len = 2 ^ 32 + 2; chars = at (codes "secret") }) ≡ some (codes "se")
unfolding key_of load pointee
cut_key = refl
