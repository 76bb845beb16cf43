-- ===== src/Base64/RoundTrip.antt =====
-- hawkc/base64.c: what the encoder writes, how much of it there is, and that the decoder reads it
-- back.
use hawkc.Base.{
  ℕ, suc, ◌+◌, ◌-◌, ◌*◌, ◌/◌, ◌^◌, ◌<◌, true, false, not, ◌&&◌, ltb, le→ltb, ne→==, ◌==◌, [], ◌∷◌,
  ◌++◌, some, Bytes, length, replicate, u64, length-append, length-replicate, append-nil,
  append_assoc, IsBytes, all_below, all_below_sound, ◌≡◌, ◌≢◌, refl, sym, ap, ◌∙◌, arith,
}
use hawkc.Sextets.{sextet1, sextet2, sextet3}
use hawkc.Sextets.Inverse.{sextets-lt, last_sextet1_lem, last_sextet2_lem}
use hawkc.Alphabet.{IsAlphabet, encode_loop}
use hawkc.Alphabet.Groups.{pads, pads-pad_of, pads_fill, chars, length-chars, decode_tail-loop}
use hawkc.Base64.{to_char, from_char, base64, encode_tail, encode, padding, decode}

alphabet_table : all_below 64 (λ i. (from_char (to_char i) == i) && not (to_char i == b'=')) ≡ true
unfolding all_below to_char from_char
alphabet_table = refl

to_char-ne-pad : (i : ℕ) → i < 64 → to_char i ≢ b'='
to_char-ne-pad i h = ground (arith, all_below_sound 64 _ i alphabet_table h)

-- The tables of base64.c meet the interface.
pub base64-IsAlphabet : IsAlphabet base64
base64-IsAlphabet = record {
  inverse = λ i h. ground (arith, all_below_sound 64 _ i alphabet_table h);
}

-- The characters of `bs`, and their `=` signs.
abbrev pub text : Bytes → Bytes
text bs = chars base64 bs ++ replicate (pads bs) b'='

encode_tail-loop :
    (bs res : Bytes)
    → (let (out, tail) = encode_loop base64 bs res in encode_tail (pads bs) tail out)
      ≡ res ++ text bs
unfolding encode_loop encode_tail
encode_tail-loop [] res = sym (append-nil res)
encode_tail-loop (a ∷ []) res = rw last_sextet1_lem
encode_tail-loop (a ∷ b ∷ []) res = rw last_sextet2_lem
encode_tail-loop (a ∷ b ∷ c ∷ bs) res = encode_tail-loop bs _ ∙ append_assoc res _ (text bs)

pub encode-text : (bs : Bytes) → (encode bs).res ≡ text bs
unfolding encode
encode-text bs = rw pads-pad_of (encode_tail-loop bs [])

length-text : (bs : Bytes) → length (text bs) ≡ length (chars base64 bs) + pads bs
length-text bs =
    let sign : ℕ = b'=' in
    length-append (chars base64 bs) (replicate (pads bs) b'=')
    ∙ omega (arith, length-replicate (pads bs) sign)

flen_lem : (bs : Bytes) → (encode bs).flen ≡ u64 (4 * (length bs + pads bs)) / 3
unfolding encode
flen_lem bs = rw pads-pad_of

-- For fewer than 2 ^ 61 bytes, the `*flen` of hawkc_base64_encode is the number of characters
-- written, which is four for each group of three bytes that is begun.
pub flen-encode :
    (bs : Bytes)
    → length bs < 2 ^ 61
    → ((encode bs).flen ≡ length (encode bs).res) × ((encode bs).flen ≡ 4 * ((length bs + 2) / 3))
flen-encode bs h = (
  rw (flen_lem, encode-text) (omega (arith, length-text bs, length-chars base64 bs, pads_fill bs)),
  rw flen_lem (omega (arith, pads_fill bs)),
)

to_chars-ne-pad :
    (a b c : ℕ)
    → a < 256
    → b < 256
    → c < 256
    → (to_char (sextet1 a b) ≢ b'=') × (to_char (sextet2 b c) ≢ b'=') × (to_char (sextet3 c) ≢ b'=')
to_chars-ne-pad a b c ha hb hc =
    let lt = sextets-lt a b c ha hb hc in
    (to_char-ne-pad _ lt.1, to_char-ne-pad _ lt.2, to_char-ne-pad _ lt.3)

-- Four characters in front do not change the last two of a longer text.
padding_group :
    (c0 c1 c2 c3 x y : ℕ) (s : Bytes)
    → padding (c0 ∷ c1 ∷ c2 ∷ c3 ∷ x ∷ y ∷ s) ≡ padding (x ∷ y ∷ s)
unfolding padding
padding_group c0 c1 c2 c3 x y s =
    let n = length (x ∷ y ∷ s) in
    let last : suc (suc (suc (suc n))) - 1 ≡ suc (suc (suc (suc (n - 1)))) = omega arith in
    let before : suc (suc (suc (suc n))) - 2 ≡ suc (suc (suc (suc (n - 2)))) = omega arith in
    rw (last, before)

text-two : (b : ℕ) (bs : Bytes) → (x : ℕ) × (y : ℕ) × (s : Bytes) × (text (b ∷ bs) ≡ x ∷ y ∷ s)
text-two b [] = (_, _, _, refl)
text-two b (c ∷ []) = (_, _, _, refl)
text-two b (c ∷ d ∷ bs) = (_, _, _, refl)

padding-text :
    (b : ℕ) (bs : Bytes) → IsBytes (b ∷ bs) → padding (text (b ∷ bs)) ≡ some (pads (b ∷ bs))
padding-text b [] h = unfold padding in refl
padding-text b (c ∷ []) (hb, (hc, _)) =
    let ne = to_chars-ne-pad b c 0 hb hc (omega arith) in unfold padding in rw (ne→== _ _ ne.1)
padding-text b (c ∷ d ∷ []) (hb, (hc, (hd, _))) =
    let ne = to_chars-ne-pad b c d hb hc hd in unfold padding in rw (ne→== _ _ ne.1, ne→== _ _ ne.2)
padding-text b (c ∷ d ∷ e ∷ bs) (hb, (hc, (hd, h))) =
    let (x, y, s, shape) = text-two e bs in
    rw shape (padding_group _ _ _ _ x y s ∙ rw (← shape) (padding-text e bs h))

-- For fewer than 2 ^ 61 bytes, hawkc_base64_decode reads the text that hawkc_base64_encode wrote
-- within its range, gives the bytes back, and sets `*flen` to their number.
pub decode-encode :
    (bs : Bytes)
    → IsBytes bs
    → length bs < 2 ^ 61
    → decode (encode bs).res ≡ some (record { bin = bs; flen = length bs })
decode-encode [] h fits = rw encode-text (unfold decode in refl)
decode-encode (b ∷ bs) h fits =
    let t = b ∷ bs in
    let size = length-chars base64 t in
    let fill = pads_fill t in
    let two : ltb (length (text t)) 2 ≡ false = le→ltb 2 _ (omega (arith, length-text t)) in
    rw encode-text (
      unfold decode in
      rw
        (
          two,
          padding-text b bs h,
          length-text t,
          decode_tail-loop base64 base64-IsAlphabet t [] (replicate (pads t) b'=') h,
        )
        (ap (λ n. some (record { bin = t; flen = n })) (omega arith)))
