-- ===== src/Tests/Codec.antt =====
-- Runs of the encoders of hawkc/base64.c, hawkc/base64url.c and hawkc/common.c.
use hawkc.Base.{
  ℕ, ◌∷◌, [], ◌≡◌, ◌↔◌, ◌&&◌, ◌+◌, ◌^◌, refl, arith, Bytes, codes, IsBytes, length, some, none,
  true, false, Bool,
}
use hawkc.Tests.Checks.{every_byte}
use hawkc.Alphabet
use hawkc.Sextets.{pad_of, sextet0, sextet1, sextet2, sextet3, last_sextet1, last_sextet2}
use hawkc.Base64
use hawkc.Base64.RoundTrip.{decode-encode, flen-encode}
use hawkc.Base64.AnyText.{decode_lem, decode_overrun}
use hawkc.Base64url.AnyText.{decode_url_lem}
use hawkc.Base64.Bits.{rfc_base64, rfc_base64url}
use hawkc.Base64.Rfc.{encode-rfc_base64, encode-rfc_base64url}
use hawkc.Base64url
use hawkc.Base64url.RoundTrip.{decode-encode_url}
use hawkc.Outcome.{done}
use hawkc.Context.{init}
use hawkc.Compare.{fixed_time_equal}
use hawkc.Compare.Exact.{fixed_time_equal_lem, fixed_time_equal_negative}
use hawkc.Hex.{bytes_to_hex}
use hawkc.Hex.Inverse.{read_hex, read_hex-bytes_to_hex}
use hawkc.Parser.{is_token}
use hawkc.Parser.Tokens.{tchar, is_token-tchar}

abbrev word : Bytes
word = codes "Hawk"

abbrev high : Bytes
high = 255 ∷ 254 ∷ []

word-IsBytes : IsBytes word
word-IsBytes = every_byte word refl

high-IsBytes : IsBytes high
high-IsBytes = every_byte high refl

encodes_word : (Base64.encode word).res ≡ codes "SGF3aw=="
unfolding Base64.encode Base64.encode_tail Base64.to_char Alphabet.encode_loop pad_of sextet0
    sextet1 sextet2 sextet3 last_sextet1 last_sextet2
encodes_word = refl

encodes_high : (Base64url.encode high).result ≡ codes "__4"
unfolding Base64url.encode Base64url.encode_tail Base64url.to_char Alphabet.encode_loop pad_of
    sextet0 sextet1 sextet2 sextet3 last_sextet1 last_sextet2
encodes_high = refl

encode-rfc_base64_example : (Base64.encode word).res ≡ rfc_base64 word
encode-rfc_base64_example = encode-rfc_base64 word word-IsBytes

encode-rfc_base64url_example : (Base64url.encode high).result ≡ rfc_base64url high
encode-rfc_base64url_example = encode-rfc_base64url high high-IsBytes

hex_digits : bytes_to_hex high ≡ codes "fffe"
unfolding bytes_to_hex
hex_digits = refl

decode-encode_example :
    Base64.decode (Base64.encode word).res ≡ some (record { bin = word; flen = 4 })
decode-encode_example = decode-encode word word-IsBytes (omega arith)

flen-encode_example :
    ((Base64.encode word).flen ≡ length (Base64.encode word).res) × ((Base64.encode word).flen ≡ 8)
flen-encode_example = flen-encode word (omega arith)

decode-encode_url_example :
    Base64url.decode (Base64url.encode high).result init
    ≡ done (record { result = high; result_len = 2 }) init
decode-encode_url_example = decode-encode_url high init high-IsBytes (omega arith)

read_hex-bytes_to_hex_example :
    (read_hex (bytes_to_hex high) ≡ high) × (length (bytes_to_hex high) ≡ 4)
read_hex-bytes_to_hex_example = read_hex-bytes_to_hex high high-IsBytes

-- What stands behind the compared bytes differs.
fixed_time_equal_lem_example :
    (r : Bool) × (fixed_time_equal (codes "abX") (codes "abY") 2 ≡ some r)
    × ((r ≡ true) ↔ (codes "ab" ≡ codes "ab"))
fixed_time_equal_lem_example =
    fixed_time_equal_lem (codes "ab") (codes "ab") (codes "X") (codes "Y") refl (omega arith)

-- Two different texts are equal over a length that `int` makes negative.
fixed_time_equal_negative_example :
    fixed_time_equal (codes "ab") (codes "xyz") (2 ^ 31 + 5) ≡ some true
fixed_time_equal_negative_example =
    fixed_time_equal_negative (codes "ab") (codes "xyz") (2 ^ 31 + 5) (omega arith) (omega arith)

is_token-tchar_example : is_token 124 ≡ (tchar b'|' && false)
is_token-tchar_example = is_token-tchar b'|' (omega arith)

-- A text with a character that is not of the alphabet.
abbrev strange : Bytes
strange = codes "S?F3aw=="

decode_lem_example :
    (pad : ℕ) × (bin : Bytes) × (Base64.padding strange ≡ some pad)
    × (Base64.decode strange ≡ some (record { bin = bin; flen = length bin }))
    × (length bin + pad ≡ 6)
decode_lem_example = decode_lem strange (omega arith) refl (omega arith)

-- One character and one `=` sign.
decode_overrun_example : Base64.decode (codes "A=") ≡ none
unfolding Base64.padding
decode_overrun_example = decode_overrun (codes "A=") refl (omega arith) (omega arith) (omega arith)

-- Five characters, of which the last is not read.
decode_url_lem_example :
    (result : Bytes) × (Base64url.decode (codes "__4_*") init
      ≡ done (record { result = result; result_len = length result }) init)
    × (length result ≡ 3)
decode_url_lem_example = decode_url_lem (codes "__4_*") init (λ e. ground arith) (omega arith)
