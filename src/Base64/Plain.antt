-- ===== src/Base64/Plain.antt =====
-- The text of hawkc/base64.c can stand between the quotes of a header.
use hawkc.Base.{
  ℕ, zero, suc, ◌==◌, Bool, false, not, ◌&&◌, true, [], ◌∷◌, Bytes, get_or, replicate, All,
  All-append, ◌≡◌, refl, arith,
}
use hawkc.Alphabet.Groups.{pads, chars}
use hawkc.Base64.{b64, to_char, base64, encode}
use hawkc.Base64.RoundTrip.{text, encode-text}
use hawkc.Parser.Grammar.{IsQuoted, end, plain}

abbrev pub IsPlain : ℕ → Type 0
IsPlain c = ((c == b'"') ≡ false) × ((c == b'\\') ≡ false)

abbrev pub all_pass : Bytes → Bool
all_pass [] = true
all_pass (c ∷ s) = not (c == b'"') && not (c == b'\\') && all_pass s

pub get_or-IsPlain : (s : Bytes) (i : ℕ) → All IsPlain s → IsPlain (get_or s i 0)
get_or-IsPlain [] i h = (refl, refl)
get_or-IsPlain (c ∷ s) zero (hc, h) = hc
get_or-IsPlain (c ∷ s) (suc i) (hc, h) = get_or-IsPlain s i h

pub all_pass-IsPlain : (s : Bytes) → all_pass s ≡ true → All IsPlain s
all_pass-IsPlain [] h = tt
all_pass-IsPlain (c ∷ s) h = (ground arith, all_pass-IsPlain s (ground arith))

to_char-IsPlain : (i : ℕ) → IsPlain (to_char i)
unfolding to_char
to_char-IsPlain i = get_or-IsPlain b64 i (all_pass-IsPlain b64 refl)

chars-IsPlain : (bs : Bytes) → All IsPlain (chars base64 bs)
chars-IsPlain [] = tt
chars-IsPlain (a ∷ []) = (to_char-IsPlain _, (to_char-IsPlain _, tt))
chars-IsPlain (a ∷ b ∷ []) = (to_char-IsPlain _, (to_char-IsPlain _, (to_char-IsPlain _, tt)))
chars-IsPlain (a ∷ b ∷ c ∷ bs) = (
  to_char-IsPlain _,
  (to_char-IsPlain _, (to_char-IsPlain _, (to_char-IsPlain _, chars-IsPlain bs))),
)

signs-IsPlain : (n : ℕ) → All IsPlain (replicate n b'=')
signs-IsPlain zero = tt
signs-IsPlain (suc n) = ((refl, refl), signs-IsPlain n)

pub plain-IsQuoted : (s : Bytes) → All IsPlain s → IsQuoted s
plain-IsQuoted [] h = end
plain-IsQuoted (c ∷ s) ((no_quote, no_backslash), h) =
    plain no_quote no_backslash (plain-IsQuoted s h)

pub all_pass-IsQuoted : (s : Bytes) → all_pass s ≡ true → IsQuoted s
all_pass-IsQuoted s h = plain-IsQuoted s (all_pass-IsPlain s h)

pub encode-IsQuoted : (bs : Bytes) → IsQuoted (encode bs).res
encode-IsQuoted bs = rw encode-text (
    plain-IsQuoted (text bs) (
      All-append IsPlain (chars base64 bs) (replicate (pads bs) b'=') (chars-IsPlain bs)
        (signs-IsPlain (pads bs))))
