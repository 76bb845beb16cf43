-- ===== src/Base64url/RoundTrip.antt =====
-- hawkc/base64url.c: what the encoder writes, how much of it there is, that the decoder reads it
-- back, and what the decoder does with a length that no encoding has.
use hawkc.Base.{
  ℕ, ◌+◌, ◌*◌, ◌/◌, ◌^◌, ◌<◌, ◌≤◌, true, false, ◌==◌, [], ◌∷◌, ◌++◌, Bytes, length, u64, sub64,
  if◌then◌else◌, append-nil, append_assoc, IsBytes, all_below, all_below_sound, ◌≡◌, refl, sym, ap,
  ◌∙◌, arith,
}
use hawkc.Sextets.Inverse.{last_sextet1_lem, last_sextet2_lem}
use hawkc.Alphabet.{IsAlphabet, encode_loop}
use hawkc.Alphabet.Groups.{
  pads, pads-le, pads-pad_of, pads_fill, chars, length-chars, decode_tail-loop,
}
use hawkc.Outcome.{done}
use hawkc.Context.{HawkcContext}
use hawkc.Base64url.{to_char, from_char, base64url, encode_tail, encode, missing, decode}

alphabet_table : all_below 64 (λ i. from_char (to_char i) == i) ≡ true
unfolding all_below to_char from_char
alphabet_table = refl

-- The tables of base64url.c meet the interface.
pub base64url-IsAlphabet : IsAlphabet base64url
base64url-IsAlphabet = record {
  inverse = λ i h. ground (arith, all_below_sound 64 _ i alphabet_table h);
}

encode_tail-loop :
    (bs res : Bytes)
    → (let (out, tail) = encode_loop base64url bs res in encode_tail (pads bs) tail out)
      ≡ res ++ chars base64url bs
unfolding encode_loop encode_tail
encode_tail-loop [] res = sym (append-nil res)
encode_tail-loop (a ∷ []) res = rw last_sextet1_lem
encode_tail-loop (a ∷ b ∷ []) res = rw last_sextet2_lem
encode_tail-loop (a ∷ b ∷ c ∷ bs) res =
    encode_tail-loop bs _ ∙ append_assoc res _ (chars base64url bs)

pub encode-chars : (bs : Bytes) → (encode bs).result ≡ chars base64url bs
unfolding encode
encode-chars bs = rw pads-pad_of (encode_tail-loop bs [])

pads-less : (bs : Bytes) → (if pads bs == 2 then 2 else if pads bs == 1 then 1 else 0) ≡ pads bs
pads-less [] = refl
pads-less (a ∷ []) = refl
pads-less (a ∷ b ∷ []) = refl
pads-less (a ∷ b ∷ c ∷ bs) = pads-less bs

result_len_lem :
    (bs : Bytes) → (encode bs).result_len ≡ sub64 (u64 (4 * (length bs + pads bs)) / 3) (pads bs)
unfolding encode
result_len_lem bs = rw (pads-pad_of, pads-less)

-- For fewer than 2 ^ 61 bytes, the `*result_len` of hawkc_base64url_encode is the number of
-- characters written.
pub result_len-encode :
    (bs : Bytes) → length bs < 2 ^ 61 → (encode bs).result_len ≡ length (encode bs).result
result_len-encode bs h =
    rw (result_len_lem, encode-chars)
      (omega (arith, length-chars base64url bs, pads_fill bs, pads-le bs))

-- The decoder finds out from the length alone how short the last group is.
missing_fill : (n p k : ℕ) → p ≤ 2 → n + p ≡ 4 * k → (missing n ≡ p) × ((n == 1) ≡ false)
unfolding missing
missing_fill n p k h e = ground arith

-- For fewer than 2 ^ 61 bytes, hawkc_base64url_decode accepts the text that hawkc_base64url_encode
-- wrote, gives the bytes back, sets `*result_len` to their number, and leaves the context alone.
pub decode-encode_url :
    (bs : Bytes) (ctx : HawkcContext)
    → IsBytes bs
    → length bs < 2 ^ 61
    → decode (encode bs).result ctx ≡ done (record { result = bs; result_len = length bs }) ctx
decode-encode_url bs ctx h fits =
    let size = length-chars base64url bs in
    let fill = pads_fill bs in
    let (short, not_one) =
      missing_fill (length (chars base64url bs)) (pads bs) ((length bs + 2) / 3) (pads-le bs)
        (omega arith) in
    let back = decode_tail-loop base64url base64url-IsAlphabet bs [] [] h in
    rw encode-chars (
      unfold decode in
      rw (not_one, short, rw append-nil at back)
        (ap (λ n. done (record { result = bs; result_len = n }) ctx) (omega (arith, pads-le bs))))
