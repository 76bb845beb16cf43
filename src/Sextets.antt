-- ===== src/Sextets.antt =====
-- The bit arithmetic that hawkc/base64.c and hawkc/base64url.c share, expression by expression:
-- three bytes to four six-bit values, and four six-bit values to three bytes.
pub mod Inverse
use hawkc.Base.{ℕ, ◌+◌, bit_and, bit_or, u8, ◌<<<◌, ◌>>>◌}

unfoldable pub sextet0 : ℕ → ℕ
sextet0 byte0 = byte0 >>> 2

unfoldable pub sextet1 : ℕ → ℕ → ℕ
sextet1 byte0 byte1 = (bit_and 0x3 byte0 <<< 4) + (byte1 >>> 4)

unfoldable pub sextet2 : ℕ → ℕ → ℕ
sextet2 byte1 byte2 = (bit_and 0x0f byte1 <<< 2) + (byte2 >>> 6)

unfoldable pub sextet3 : ℕ → ℕ
sextet3 byte2 = bit_and 0x3f byte2

-- The tail's forms, with no byte behind.
unfoldable pub last_sextet1 : ℕ → ℕ
last_sextet1 byte0 = bit_and 0x3 byte0 <<< 4

unfoldable pub last_sextet2 : ℕ → ℕ
last_sextet2 byte1 = bit_and 0x0f byte1 <<< 2

-- A store to `unsigned char` keeps the low eight bits.
unfoldable pub octet0 : ℕ → ℕ → ℕ
octet0 a b = u8 (bit_or (a <<< 2) (b >>> 4))

unfoldable pub octet1 : ℕ → ℕ → ℕ
octet1 b c = u8 (bit_or (b <<< 4) (c >>> 2))

unfoldable pub octet2 : ℕ → ℕ → ℕ
octet2 c d = u8 (bit_or (c <<< 6) d)

-- The number of `=` signs for a length: 1 gives 2, 2 gives 1, and 0 gives 0.
unfoldable pub pad_of : ℕ → ℕ
pad_of modulus_len = (bit_and modulus_len 1 <<< 1) + (bit_and modulus_len 2 >>> 1)
