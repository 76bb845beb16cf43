-- ===== src/Base64/Bits.antt =====
-- The encoding of RFC 4648, section 4, on bit strings, without reference to hawkc/base64.c: the bits
-- of the bytes, in groups of six, each group as a character, and `=` signs up to a multiple of four
-- characters.
use hawkc.Base.{
  ℕ, ◌+◌, ◌-◌, ◌*◌, ◌/◌, ◌%◌, ltb, ◌==◌, if◌then◌else◌, [], ◌∷◌, ◌++◌, List, Bytes, length,
  replicate,
}

-- The eight bits of a byte, the highest first.
abbrev pub bits_of : ℕ → List ℕ
bits_of b =
    (b / 128 % 2)
    ∷ (b / 64 % 2)
    ∷ (b / 32 % 2)
    ∷ (b / 16 % 2)
    ∷ (b / 8 % 2)
    ∷ (b / 4 % 2)
    ∷ (b / 2 % 2)
    ∷ (b % 2)
    ∷ []

abbrev pub bits : Bytes → List ℕ
bits [] = []
bits (b ∷ bs) = bits_of b ++ bits bs

-- The number that bits spell, behind what has been read.
abbrev pub number : ℕ → List ℕ → ℕ
number n [] = n
number n (b ∷ bs) = number (n * 2 + b) bs

-- Groups of six; zero bits fill the last.
abbrev pub groups : List ℕ → List ℕ
groups [] = []
groups (b0 ∷ b1 ∷ b2 ∷ b3 ∷ b4 ∷ b5 ∷ bs) = number 0 (b0 ∷ b1 ∷ b2 ∷ b3 ∷ b4 ∷ b5 ∷ []) ∷ groups bs
groups bs = number 0 (bs ++ replicate (6 - length bs) 0) ∷ []

-- The character of a value, for a variant with these two last characters.
abbrev pub character : ℕ → ℕ → ℕ → ℕ
character c62 c63 v =
    if ltb v 26
    then b'A' + v
    else if ltb v 52
    then b'a' + (v - 26)
    else if ltb v 62
    then b'0' + (v - 52)
    else if v == 62
    then c62
    else c63

abbrev pub characters : ℕ → ℕ → List ℕ → Bytes
characters c62 c63 [] = []
characters c62 c63 (v ∷ vs) = character c62 c63 v ∷ characters c62 c63 vs

-- How many `=` signs a text needs.
abbrev pub signs : Bytes → Bytes
signs bs = replicate ((3 - length bs % 3) % 3) b'='

abbrev pub rfc_base64 : Bytes → Bytes
rfc_base64 bs = characters b'+' b'/' (groups (bits bs)) ++ signs bs

-- The variant of section 5, without `=` signs.
abbrev pub rfc_base64url : Bytes → Bytes
rfc_base64url bs = characters b'-' b'_' (groups (bits bs))
