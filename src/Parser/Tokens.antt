-- ===== src/Parser/Tokens.antt =====
-- IS_TOKEN of hawkc/parser.c against the token characters of the HTTP draft that it cites.
use hawkc.Base.{
  ℕ, ◌<◌, ◌==◌, leb, not, Bool, true, false, ◌&&◌, ◌||◌, [], ◌∷◌, codes, all_below, all_below_sound,
  ◌≡◌, refl, arith, Bytes,
}
use hawkc.Parser.{is_token}

-- Does `c` stand in the list?
abbrev one_of : Bytes → ℕ → Bool
one_of [] c = false
one_of (d ∷ s) c = c == d || one_of s c

-- `tchar`: "!", "#", "$", "%", "&", "'", "*", "+", "-", ".", "^", "_", "`", "|", "~", a digit or a
-- letter.
abbrev pub tchar : ℕ → Bool
tchar c =
    one_of (codes "!#$%&'*+-.^_`|~") c
    || (leb b'0' c && leb c b'9')
    || (leb b'A' c && leb c b'Z')
    || (leb b'a' c && leb c b'z')

abbrev left_out : ℕ → Bool
left_out c = c == b'|' || c == b'~'

abbrev alike : Bool → Bool → Bool
alike true b = b
alike false b = not b

tokens_table : all_below 256 (λ c. alike (is_token c) (tchar c && not (left_out c))) ≡ true
unfolding all_below is_token
tokens_table = refl

alike_sound : (a b : Bool) → alike a b ≡ true → a ≡ b
alike_sound true true e = refl
alike_sound true false e = absurd (ground arith)
alike_sound false true e = absurd (ground arith)
alike_sound false false e = refl

-- Of the 256 byte values, those that IS_TOKEN takes are the token characters of the HTTP draft,
-- less `|` and `~`.
pub is_token-tchar : (c : ℕ) → c < 256 → is_token c ≡ (tchar c && not (left_out c))
is_token-tchar c h =
    alike_sound (is_token c) (tchar c && not (left_out c)) (all_below_sound 256 _ c tokens_table h)
