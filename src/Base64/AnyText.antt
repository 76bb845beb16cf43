-- ===== src/Base64/AnyText.antt =====
-- hawkc_base64_decode of hawkc/base64.c on any text, encoded or not.
use hawkc.Base.{
  ℕ, zero, suc, [], ◌∷◌, ◌+◌, ◌-◌, ◌*◌, ◌/◌, ◌%◌, ◌^◌, ◌<◌, ◌≤◌, ltb, le→ltb, ◌==◌, false,
  if◌then◌else◌, some, none, Bytes, length, get_elem?, u64, sub64, ◌≡◌, refl, ap, arith,
}
use hawkc.Alphabet.{decode_loop, decode_tail}
use hawkc.Alphabet.Lengths.{
  last_bytes, last_chars, length-decode_loop, decode_tail-reads, decode_tail_overrun,
}
use hawkc.Base64.{base64, padding, decode}

-- An index below the length reads a byte.
get_elem?_below : (s : Bytes) (i : ℕ) → i < length s → (c : ℕ) × (get_elem? s i ≡ some c)
get_elem?_below [] i h = absurd (omega arith)
get_elem?_below (c ∷ s) zero h = (c, refl)
get_elem?_below (c ∷ s) (suc i) h = get_elem?_below s i (omega arith)

sign-le : (c : ℕ) → (if c == b'=' then 1 else 0) ≤ 1
sign-le c = ground arith

-- The last two characters can be read, and two of them at most are `=` signs.
padding_given : (s : Bytes) → 2 ≤ length s → (pad : ℕ) × (padding s ≡ some pad) × (pad ≤ 2)
unfolding padding
padding_given s two =
    let (last, last_is) = get_elem?_below s (length s - 1) (omega arith) in
    let (before, before_is) = get_elem?_below s (length s - 2) (omega arith) in
    (
      (if last == b'=' then 1 else 0) + (if before == b'=' then 1 else 0),
      rw (last_is, before_is) refl,
      omega (arith, sign-le last, sign-le before),
    )

module _ (s : Bytes) (two : 2 ≤ length s) (fits : length s < 2 ^ 61) where
  decode_reads :
      (pad : ℕ) (bin : Bytes)
      → padding s ≡ some pad
      → (let scanned = decode_loop base64 pad (length s) s [] in
          decode_tail base64 pad scanned.1 scanned.0 ≡ some bin)
      → sub64 (u64 (3 * length s) / 4) pad ≡ length bin
      → decode s ≡ some (record { bin = bin; flen = length bin })
  decode_reads pad bin pad_is is len =
      let enough : ltb (length s) 2 ≡ false = le→ltb 2 _ two in
      unfold decode in rw (enough, pad_is, is) (ap (λ k. some (record { bin = bin; flen = k })) len)

  -- The loop leaves `r` characters of `4 * j + r`; they are enough for the last group.
  decode_padded :
      (j r pad : ℕ)
      → padding s ≡ some pad
      → length s ≡ 4 * j + r
      → pad ≤ r
      → r < 4 + pad
      → pad ≤ 2
      → last_chars pad ≤ r
      → sub64 (u64 (3 * length s) / 4) pad ≡ 3 * j + last_bytes pad
      → (bin : Bytes) × (decode s ≡ some (record { bin = bin; flen = length bin }))
        × (length bin ≡ 3 * j + last_bytes pad)
  decode_padded j r pad pad_is size low high small enough len =
      let (written, unread) =
        length-decode_loop base64 j r r pad (length s) s [] size size low high in
      let scanned = decode_loop base64 pad (length s) s [] in
      let (bin, is, more) = decode_tail-reads base64 pad scanned.1 scanned.0 small (omega arith) in
      (bin, decode_reads pad bin pad_is is (omega arith), omega arith)

  decode_by_pad :
      (pad : ℕ)
      → padding s ≡ some pad
      → pad ≤ 2
      → length s % 4 ≡ 0
      → (bin : Bytes) × (decode s ≡ some (record { bin = bin; flen = length bin }))
        × (length bin + pad ≡ 3 * (length s / 4))
  decode_by_pad zero pad_is small groups =
      let (bin, is, size) =
        decode_padded (length s / 4) 0 0 pad_is (omega arith) (omega arith) (omega arith)
          (omega arith) (omega arith) (omega arith) in
      (bin, is, omega arith)
  decode_by_pad (suc zero) pad_is small groups =
      let (bin, is, size) =
        decode_padded (length s / 4 - 1) 4 1 pad_is (omega arith) (omega arith) (omega arith)
          (omega arith) (omega arith) (omega arith) in
      (bin, is, omega arith)
  decode_by_pad (suc (suc zero)) pad_is small groups =
      let (bin, is, size) =
        decode_padded (length s / 4 - 1) 4 2 pad_is (omega arith) (omega arith) (omega arith)
          (omega arith) (omega arith) (omega arith) in
      (bin, is, omega arith)
  decode_by_pad (suc (suc (suc n))) pad_is small groups = absurd (omega arith)

-- On every text whose length is a multiple of four, not 0, and below 2 ^ 61, of the alphabet or
-- not, hawkc_base64_decode reads within the text, and `*flen` is the number of bytes that it
-- writes: three for four characters, less one for each of the last two characters that is an `=`.
pub decode_lem :
    (s : Bytes)
    → 0 < length s
    → length s % 4 ≡ 0
    → length s < 2 ^ 61
    → (pad : ℕ) × (bin : Bytes) × (padding s ≡ some pad)
      × (decode s ≡ some (record { bin = bin; flen = length bin }))
      × (length bin + pad ≡ 3 * (length s / 4))
decode_lem s given groups fits =
    let (pad, pad_is, small) = padding_given s (omega arith) in
    let (bin, is, size) = decode_by_pad s (omega arith) fits pad pad_is small groups in
    (pad, bin, pad_is, is, size)

-- On a text of at least two characters, just one of the last two being an `=`, whose length leaves
-- 1 or 2 on division by four, hawkc_base64_decode reads behind the text.
pub decode_overrun :
    (s : Bytes)
    → padding s ≡ some 1
    → 2 ≤ length s
    → 0 < length s % 4
    → length s % 4 < 3
    → decode s ≡ none
decode_overrun s pad_is two given low =
    let r = length s % 4 in
    let enough : ltb (length s) 2 ≡ false = le→ltb 2 _ two in
    let (written, unread) =
      length-decode_loop base64 (length s / 4) r r 1 (length s) s [] (omega arith) (omega arith)
        (omega arith) (omega arith) in
    let scanned = decode_loop base64 1 (length s) s [] in
    unfold decode in
    rw (enough, pad_is, decode_tail_overrun base64 scanned.1 scanned.0 (omega arith))
