-- ===== src/Tests/Challenge.antt =====
-- Runs on the WWW-Authenticate header of a server.
use hawkc.Base.{
  replicate, ◌%◌, ◌+◌, ◌<◌, [], ◌∷◌, ◌++◌, some, Bytes, codes, length, ◌≡◌, refl, arith,
}
use hawkc.Base.Int.{pos}
use hawkc.Context.{HawkcContext, WwwAuthenticateHeader, init, of_bytes, pointee}
use hawkc.Time.Ttoa.{number_of_digits, count_digits}
use hawkc.Time.Ttoa.Numeral.{ttoa_nonneg}
use hawkc.Decimal.{decimal}
use hawkc.Outcome.{done}
use hawkc.Crypto.Key.{key_of-of_bytes}
use hawkc.Crypto.{digest, hawkc_sha_256}
use hawkc.Authorization.Signed.{mac_of}
use hawkc.Tests.Requests.{os, os-IsPlatform}
use hawkc.WwwAuthenticate.Signed.{IsServer, ts_base}
use hawkc.WwwAuthenticate.Received.{with_www}
use hawkc.WwwAuthenticate.Cycle.{parse-create_www}
use hawkc.WwwAuthenticate.{
  calculate_www_authenticate_header_length, parse_www_authenticate_header, create_ts_base_string,
  www_header_length,
}
use hawkc.WwwAuthenticate.Create.{create_www_authenticate_header}
use hawkc.WwwAuthenticate.Bounds.{
  length-create_ts_base_string, length-create_www_authenticate_header,
}

abbrev challenge : WwwAuthenticateHeader
challenge = record { ts = pos 1353832234; tsm = of_bytes (codes "c2lnbmVk") }

abbrev server : HawkcContext
server = record init { www_authenticate_header = challenge }

abbrev base_string : Bytes
base_string = codes "hawk.1.ts" ++ (b'\n' ∷ (decimal 1353832234 ++ (b'\n' ∷ [])))

challenge_written : create_ts_base_string challenge ≡ some base_string
unfolding create_ts_base_string
challenge_written = rw (ttoa_nonneg (pos 1353832234) 1353832234 refl (omega arith))

length-create_ts_base_string_example : length base_string < 30
length-create_ts_base_string_example =
    length-create_ts_base_string challenge base_string challenge_written

length-create_www_authenticate_header_example :
    (text : Bytes) × (create_www_authenticate_header server ≡ some text)
    × (length text ≡ www_header_length challenge + 0)
unfolding pointee number_of_digits count_digits
length-create_www_authenticate_header_example =
    length-create_www_authenticate_header server refl (omega arith) (omega arith) (omega arith)

-- A server with a password, and a client that has received nothing.
abbrev signer : HawkcContext
signer = record init {
  algorithm = some hawkc_sha_256;
  password = of_bytes (codes "secret");
  www_authenticate_header = record { ts = pos 1353832234; tsm = of_bytes [] };
}

abbrev md : Bytes → Bytes → Bytes
md k d = replicate 32 (length d % 256)

signer-IsServer : IsServer os os-IsPlatform signer hawkc_sha_256 md (codes "secret") 1353832234
unfolding init digest
signer-IsServer = record {
  context = record {
    hmac_at = refl;
    ts_hmac_at = refl;
    nonce_at = refl;
    hmac_has = refl;
    ts_hmac_has = refl;
    nonce_has = refl;
    blocks_are = refl;
  };
  algorithm_is = refl;
  digest_is = refl;
  key_is = key_of-of_bytes signer (codes "secret") (omega arith);
  ts_is = refl;
  ts_positive = omega arith;
  ts_small = omega arith;
}

parse-create_www_example :
    (after : HawkcContext) × (text : Bytes) × (calculate_www_authenticate_header_length os signer
      ≡ done (length text) after)
    × (create_www_authenticate_header after ≡ some text)
    × (parse_www_authenticate_header (text ++ codes ",ts=\"1\"") (length text) init
        ≡ done tt (
            with_www init (record {
              ts = pos 1353832234;
              tsm = of_bytes (mac_of md (codes "secret") (ts_base 1353832234));
            })))
parse-create_www_example =
    parse-create_www os os-IsPlatform signer hawkc_sha_256 md (codes "secret") 1353832234 init
      (codes ",ts=\"1\"") signer-IsServer
