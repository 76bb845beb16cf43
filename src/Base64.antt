-- ===== src/Base64.antt =====
-- hawkc/base64.c: the tables, the tail with its `=` signs, and the two functions.
pub mod RoundTrip
pub mod AnyText
pub mod Plain
pub mod Bits
pub mod Rfc
use hawkc.Base.{
  ℕ, ◌+◌, ◌-◌, ◌*◌, ◌/◌, ◌%◌, if◌then◌else◌, ltb, ◌==◌, [], ◌∷◌, ◌++◌, Option, some, ◌>>=◌, Bytes,
  codes, length, get_or, get_elem?, u64, sub64, replicate,
}
use hawkc.Sextets.{sextet0, sextet1, last_sextet1, last_sextet2, pad_of}
use hawkc.Alphabet.{Alphabet, encode_loop, decode_loop, decode_tail}

abbrev pub b64 : Bytes
b64 = codes "ABCDEFGHIJKLMNOPQRSTUVWXYZabcdefghijklmnopqrstuvwxyz0123456789+/"

abbrev pub unb64 : Bytes
unb64 =
    replicate 43 0
    ++ (62 ∷ 0 ∷ 0 ∷ 0 ∷ 63 ∷ 52 ∷ 53 ∷ 54 ∷ 55 ∷ 56 ∷ 57 ∷ 58 ∷ 59 ∷ 60 ∷ 61 ∷ 0 ∷ 0 ∷ 0 ∷ 0 ∷ 0
        ∷ 0 ∷ 0 ∷ 0 ∷ 1 ∷ 2 ∷ 3 ∷ 4 ∷ 5 ∷ 6 ∷ 7 ∷ 8 ∷ 9 ∷ 10 ∷ 11 ∷ 12 ∷ 13 ∷ 14 ∷ 15 ∷ 16 ∷ 17 ∷ 18
        ∷ 19 ∷ 20 ∷ 21 ∷ 22 ∷ 23 ∷ 24 ∷ 25 ∷ 0 ∷ 0 ∷ 0 ∷ 0 ∷ 0 ∷ 0 ∷ 26 ∷ 27 ∷ 28 ∷ 29 ∷ 30 ∷ 31
        ∷ 32 ∷ 33 ∷ 34 ∷ 35 ∷ 36 ∷ 37 ∷ 38 ∷ 39 ∷ 40 ∷ 41 ∷ 42 ∷ 43 ∷ 44 ∷ 45 ∷ 46 ∷ 47 ∷ 48 ∷ 49
        ∷ 50 ∷ 51 ∷ [])
    ++ replicate 133 0

unfoldable pub to_char : ℕ → ℕ
to_char i = get_or b64 i 0

unfoldable pub from_char : ℕ → ℕ
from_char c = get_or unb64 c 0

abbrev pub base64 : Alphabet
base64 = record { to_char = to_char; from_char = from_char }

pub record Encoded : Type 0 where
  pub res : Bytes
  pub flen : ℕ

-- The bytes behind the loop, with their `=` signs.
unfoldable pub encode_tail : ℕ → Bytes → Bytes → Bytes
encode_tail pad bin res =
    if pad == 2
    then res
      ++ to_char (sextet0 (get_or bin 0 0))
        ∷ to_char (last_sextet1 (get_or bin 0 0))
        ∷ b'='
        ∷ b'='
        ∷ []
    else if pad == 1
    then res
      ++ to_char (sextet0 (get_or bin 0 0))
        ∷ to_char (sextet1 (get_or bin 0 0) (get_or bin 1 0))
        ∷ to_char (last_sextet2 (get_or bin 1 0))
        ∷ b'='
        ∷ []
    else res

unfoldable pub encode : Bytes → Encoded
encode bin =
    let len = length bin in
    let pad = pad_of (len % 3) in
    let (res, tail) = encode_loop base64 bin [] in
    record { res = encode_tail pad tail res; flen = u64 (4 * (len + pad)) / 3 }

pub record Decoded : Type 0 where
  pub bin : Bytes
  pub flen : ℕ

-- How many of the last two characters are `=`.
unfoldable pub padding : Bytes → Option ℕ
padding s = do
  last ← get_elem? s (length s - 1)
  before ← get_elem? s (length s - 2)
  some ((if last == b'=' then 1 else 0) + (if before == b'=' then 1 else 0))

unfoldable pub decode : Bytes → Option Decoded
decode s = if ltb (length s) 2 then some (record { bin = []; flen = 0 }) else (do
  pad ← padding s
  let flen = sub64 (u64 (3 * length s) / 4) pad
  let scanned = decode_loop base64 pad (length s) s []
  bin ← decode_tail base64 pad scanned.1 scanned.0
  some (record { bin = bin; flen = flen }))
