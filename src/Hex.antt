-- ===== src/Hex.antt =====
-- hawkc_bytes_to_hex of hawkc/common.c.
pub mod Inverse
use hawkc.Base.{ℕ, [], ◌∷◌, Bytes, codes, get_or, bit_and, ◌>>>◌}

abbrev pub hex : Bytes
hex = codes "0123456789abcdef"

-- `buf[j * 2]` and `buf[j * 2 + 1]` are written for one `j` after the other.
unfoldable pub bytes_to_hex : Bytes → Bytes
bytes_to_hex [] = []
bytes_to_hex (b ∷ bytes) =
    let v = bit_and b 0xff in
    get_or hex (v >>> 4) 0 ∷ get_or hex (bit_and v 0x0f) 0 ∷ bytes_to_hex bytes
