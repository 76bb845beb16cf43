-- ===== src/Base64/Rfc.antt =====
-- hawkc/base64.c and hawkc/base64url.c write what RFC 4648 says.
use hawkc.Base.{
  ℕ, ◌-◌, ◌/◌, ◌%◌, ◌<◌, ◌==◌, [], ◌∷◌, ◌++◌, Bytes, length, replicate, IsBytes, all_below,
  all_below_sound, true, ◌≡◌, refl, sym, ap, ap₂, ◌∙◌, arith, ==_iff,
}
use hawkc.Sextets.{sextet0, sextet1, sextet2, sextet3}
use hawkc.Sextets.Inverse.{sextets-lt, sextet0_arith, sextet1_arith, sextet2_arith, sextet3_arith}
use hawkc.Alphabet.{Alphabet}
use hawkc.Alphabet.Groups.{pads, chars}
use hawkc.Base64
use hawkc.Base64.RoundTrip.{encode-text}
use hawkc.Base64.Bits.{bits, number, groups, character, characters, rfc_base64, rfc_base64url}
use hawkc.Base64url
use hawkc.Base64url.RoundTrip.{encode-chars}

table : all_below 64 (λ v. Base64.to_char v == character b'+' b'/' v) ≡ true
unfolding all_below Base64.to_char
table = refl

url_table : all_below 64 (λ v. Base64url.to_char v == character b'-' b'_' v) ≡ true
unfolding all_below Base64url.to_char
url_table = refl

to_char-character : (v : ℕ) → v < 64 → Base64.to_char v ≡ character b'+' b'/' v
to_char-character v h = (==_iff _ _).0 (all_below_sound 64 _ v table h)

url_to_char-character : (v : ℕ) → v < 64 → Base64url.to_char v ≡ character b'-' b'_' v
url_to_char-character v h = (==_iff _ _).0 (all_below_sound 64 _ v url_table h)

-- Each character's six bits.
group0 :
    (a : ℕ)
    → a < 256
    → number 0 (
        (a / 128 % 2) ∷ (a / 64 % 2) ∷ (a / 32 % 2) ∷ (a / 16 % 2) ∷ (a / 8 % 2) ∷ (a / 4 % 2) ∷ [])
      ≡ sextet0 a
group0 a h = rw sextet0_arith (omega arith)

group1 :
    (a b : ℕ)
    → a < 256
    → b < 256
    → number 0
        ((a / 2 % 2) ∷ (a % 2) ∷ (b / 128 % 2) ∷ (b / 64 % 2) ∷ (b / 32 % 2) ∷ (b / 16 % 2) ∷ [])
      ≡ sextet1 a b
group1 a b ha hb = omega (arith, sextet1_arith a b ha)

group2 :
    (b c : ℕ)
    → b < 256
    → c < 256
    → number 0
        ((b / 8 % 2) ∷ (b / 4 % 2) ∷ (b / 2 % 2) ∷ (b % 2) ∷ (c / 128 % 2) ∷ (c / 64 % 2) ∷ [])
      ≡ sextet2 b c
group2 b c hb hc = omega (arith, sextet2_arith b c hb)

group3 :
    (c : ℕ)
    → c < 256
    → number 0
        ((c / 32 % 2) ∷ (c / 16 % 2) ∷ (c / 8 % 2) ∷ (c / 4 % 2) ∷ (c / 2 % 2) ∷ (c % 2) ∷ [])
      ≡ sextet3 c
group3 c h = omega (arith, sextet3_arith c h)

module _ (t : Alphabet) (c62 c63 : ℕ)
    (same : (v : ℕ) → v < 64 → t.to_char v ≡ character c62 c63 v) where
  -- `v` is the number of six bits.
  char_of_group : (n v : ℕ) → n ≡ v → v < 64 → t.to_char v ≡ character c62 c63 n
  char_of_group n v e h = same v h ∙ ap (character c62 c63) (sym e)

  chars-groups : (bs : Bytes) → IsBytes bs → chars t bs ≡ characters c62 c63 (groups (bits bs))
  chars-groups [] h = refl
  chars-groups (a ∷ []) (ha, _) =
      let (lt0, lt1, _, _) = sextets-lt a 0 0 ha (omega arith) (omega arith) in
      let p0 = char_of_group _ (sextet0 a) (group0 a ha) lt0 in
      let p1 = char_of_group _ (sextet1 a 0) (group1 a 0 ha (omega arith)) lt1 in
      λ i. p0 i ∷ p1 i ∷ []
  chars-groups (a ∷ b ∷ []) (ha, (hb, _)) =
      let (lt0, lt1, lt2, _) = sextets-lt a b 0 ha hb (omega arith) in
      let p0 = char_of_group _ (sextet0 a) (group0 a ha) lt0 in
      let p1 = char_of_group _ (sextet1 a b) (group1 a b ha hb) lt1 in
      let p2 = char_of_group _ (sextet2 b 0) (group2 b 0 hb (omega arith)) lt2 in
      λ i. p0 i ∷ p1 i ∷ p2 i ∷ []
  chars-groups (a ∷ b ∷ c ∷ bs) (ha, (hb, (hc, h))) =
      let (lt0, lt1, lt2, lt3) = sextets-lt a b c ha hb hc in
      let p0 = char_of_group _ (sextet0 a) (group0 a ha) lt0 in
      let p1 = char_of_group _ (sextet1 a b) (group1 a b ha hb) lt1 in
      let p2 = char_of_group _ (sextet2 b c) (group2 b c hb hc) lt2 in
      let p3 = char_of_group _ (sextet3 c) (group3 c hc) lt3 in
      let rest = chars-groups bs h in λ i. p0 i ∷ p1 i ∷ p2 i ∷ p3 i ∷ rest i

pads-signs : (bs : Bytes) → (3 - length bs % 3) % 3 ≡ pads bs
pads-signs [] = refl
pads-signs (a ∷ []) = refl
pads-signs (a ∷ b ∷ []) = refl
pads-signs (a ∷ b ∷ c ∷ bs) =
    let e : length (a ∷ b ∷ c ∷ bs) % 3 ≡ length bs % 3 = omega arith in rw e (pads-signs bs)

-- hawkc_base64_encode writes the base64 text of RFC 4648, section 4, which is stated on the bits
-- of the bytes: groups of six bits, the last filled with zeros, as characters of the alphabet, and
-- `=` signs up to a multiple of four characters.
pub encode-rfc_base64 : (bs : Bytes) → IsBytes bs → (Base64.encode bs).res ≡ rfc_base64 bs
encode-rfc_base64 bs h =
    encode-text bs
    ∙ ap₂ (λ s n. s ++ replicate n b'=')
        (chars-groups Base64.base64 b'+' b'/' to_char-character bs h) (sym (pads-signs bs))

-- hawkc_base64url_encode writes the base64url text of RFC 4648, section 5, without `=` signs,
-- which is stated on the bits of the bytes.
pub encode-rfc_base64url :
    (bs : Bytes) → IsBytes bs → (Base64url.encode bs).result ≡ rfc_base64url bs
encode-rfc_base64url bs h =
    encode-chars bs ∙ chars-groups Base64url.base64url b'-' b'_' url_to_char-character bs h
