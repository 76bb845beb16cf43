-- ===== src/Base64url.antt =====
-- hawkc/base64url.c: as base64.c, with `-` and `_` for `+` and `/`, and no `=` signs.
pub mod RoundTrip
pub mod AnyText
use hawkc.Base.{
  ℕ, ◌+◌, ◌-◌, ◌*◌, ◌/◌, ◌%◌, if◌then◌else◌, ◌==◌, [], ◌∷◌, ◌++◌, Bytes, codes, length, get_or, u64,
  sub64, replicate,
}
use hawkc.Sextets.{sextet0, sextet1, last_sextet1, last_sextet2, pad_of}
use hawkc.Alphabet.{Alphabet, encode_loop, decode_loop, decode_tail}
use hawkc.Outcome.{Action, pure, checked, ◌>>=◌}
use hawkc.Context.{HawkcContext, fail}
use hawkc.Context.Error.{base64_error}

abbrev pub b64 : Bytes
b64 = codes "ABCDEFGHIJKLMNOPQRSTUVWXYZabcdefghijklmnopqrstuvwxyz0123456789-_"

abbrev pub unb64 : Bytes
unb64 =
    replicate 45 0
    ++ (62 ∷ 0 ∷ 0 ∷ 52 ∷ 53 ∷ 54 ∷ 55 ∷ 56 ∷ 57 ∷ 58 ∷ 59 ∷ 60 ∷ 61 ∷ 0 ∷ 0 ∷ 0 ∷ 0 ∷ 0 ∷ 0 ∷ 0 ∷ 0
        ∷ 1 ∷ 2 ∷ 3 ∷ 4 ∷ 5 ∷ 6 ∷ 7 ∷ 8 ∷ 9 ∷ 10 ∷ 11 ∷ 12 ∷ 13 ∷ 14 ∷ 15 ∷ 16 ∷ 17 ∷ 18 ∷ 19 ∷ 20
        ∷ 21 ∷ 22 ∷ 23 ∷ 24 ∷ 25 ∷ 0 ∷ 0 ∷ 0 ∷ 0 ∷ 63 ∷ 0 ∷ 26 ∷ 27 ∷ 28 ∷ 29 ∷ 30 ∷ 31 ∷ 32 ∷ 33
        ∷ 34 ∷ 35 ∷ 36 ∷ 37 ∷ 38 ∷ 39 ∷ 40 ∷ 41 ∷ 42 ∷ 43 ∷ 44 ∷ 45 ∷ 46 ∷ 47 ∷ 48 ∷ 49 ∷ 50 ∷ 51
        ∷ [])
    ++ replicate 133 0

unfoldable pub to_char : ℕ → ℕ
to_char i = get_or b64 i 0

unfoldable pub from_char : ℕ → ℕ
from_char c = get_or unb64 c 0

abbrev pub base64url : Alphabet
base64url = record { to_char = to_char; from_char = from_char }

pub record Encoded : Type 0 where
  pub result : Bytes
  pub result_len : ℕ

-- The bytes behind the loop, with no `=` signs.
unfoldable pub encode_tail : ℕ → Bytes → Bytes → Bytes
encode_tail pad bin res =
    if pad == 2
    then res ++ to_char (sextet0 (get_or bin 0 0)) ∷ to_char (last_sextet1 (get_or bin 0 0)) ∷ []
    else if pad == 1
    then res
      ++ to_char (sextet0 (get_or bin 0 0))
        ∷ to_char (sextet1 (get_or bin 0 0) (get_or bin 1 0))
        ∷ to_char (last_sextet2 (get_or bin 1 0))
        ∷ []
    else res

unfoldable pub encode : Bytes → Encoded
encode bytes =
    let data_len = length bytes in
    let pad = pad_of (data_len % 3) in
    let (result, tail) = encode_loop base64url bytes [] in
    record {
      result = encode_tail pad tail result;
      result_len =
          sub64 (u64 (4 * (data_len + pad)) / 3)
            (if pad == 2 then 2 else if pad == 1 then 1 else 0);
    }

pub record Decoded : Type 0 where
  pub result : Bytes
  pub result_len : ℕ

-- `pad`, and what is added to `data_len`, for a length other than 1.
unfoldable pub missing : ℕ → ℕ
missing data_len =
    if data_len == 2 then 2 else if data_len % 4 == 2 then 2 else if data_len % 4 == 3 then 1 else 0

unfoldable pub decode : Bytes → Action HawkcContext Decoded
decode bytes =
    if length bytes == 1
    then fail base64_error
        (record { format = "Base64 URL-encoding cannot yield encoded length of 1"; args = [] })
    else (do
      let pad = missing (length bytes)
      let data_len = length bytes + pad
      let result_len = sub64 (u64 (3 * data_len) / 4) pad
      let scanned = decode_loop base64url pad data_len bytes []
      result ← checked (decode_tail base64url pad scanned.1 scanned.0)
      pure (record { result = result; result_len = result_len }))
