-- ===== src/Parser/Lexemes.antt =====
-- The pieces of hawkc/parser.c on a text that begins with what they look for.
use hawkc.Base.{
  ℕ, suc, ◌+◌, ◌^◌, ◌<◌, ◌==◌, Bool, true, false, [], ◌∷◌, ◌++◌, some, Bytes, length, length-append,
  drop, drop-append, take-append, append_assoc, All, sub64, ◌≡◌, refl, sym, ap, ◌∙◌, arith,
}
use mathlib.Core.Path.{subst}
use hawkc.Outcome.{done}
use hawkc.Context.{of_bytes}
use hawkc.Parser.{
  is_token, is_space, count_while, closed, longer, quoted_loop, slice, Session, Cursor, advance,
  consume_ows, parse_token, parse_quoted_text,
}
use hawkc.Parser.Grammar.{IsOws, IsToken, IsQuoted, end, plain, escape}

-- The position in front of the header's last bytes `t`, with `more` behind them in memory.
abbrev pub at_text : Bytes → Bytes → Cursor
at_text t more = record { p = t ++ more; remain = length t }

-- A run that the test ends at `t`, or the end of the header.
abbrev pub Stops : (ℕ → Bool) → Bytes → Type 0
Stops test [] = Unit
Stops test (c ∷ t) = test c ≡ false

pub count_while-append :
    (test : ℕ → Bool) (a t more : Bytes)
    → All (λ c. test c ≡ true) a
    → Stops test t
    → count_while test ((a ++ t) ++ more) (length (a ++ t)) ≡ some (length a)
unfolding count_while
count_while-append test [] [] more h stop = refl
count_while-append test [] (c ∷ t) more h stop = rw stop
count_while-append test (x ∷ a) t more (hx, h) stop =
    rw (hx, count_while-append test a t more h stop)

pub advance-append :
    (a t more : Bytes)
    → length (a ++ t) < 2 ^ 64
    → advance (at_text (a ++ t) more) (length a) ≡ at_text t more
advance-append a t more fits =
    let rest : drop (length a) ((a ++ t) ++ more) ≡ t ++ more =
      rw (append_assoc a t more) (drop-append a (t ++ more)) in
    let left : sub64 (length (a ++ t)) (length a) ≡ length t = omega (arith, length-append a t) in
    λ i. record { p = rest i; remain = left i }

slice-append : (a t more : Bytes) → slice ((a ++ t) ++ more) (length a) ≡ of_bytes a
slice-append a t more = rw (append_assoc a t more, take-append a (t ++ more))

module _ {S : Type 0} ⦃session : Session S⦄ where
  pub consume_ows-append :
      (a t more : Bytes) (s : S)
      → length (a ++ t) < 2 ^ 64
      → IsOws a
      → Stops is_space t
      → consume_ows (at_text (a ++ t) more) s ≡ done (at_text t more) s
  consume_ows-append a t more s fits h stop =
      unfold consume_ows in
      rw (count_while-append is_space a t more h stop, advance-append a t more fits)

  pub parse_token-append :
      (a t more : Bytes) (s : S)
      → length (a ++ t) < 2 ^ 64
      → IsToken a
      → Stops is_token t
      → parse_token (at_text (a ++ t) more) s ≡ done (of_bytes a, at_text t more) s
  parse_token-append [] t more s fits (ne, h) stop = absurd (ne refl)
  parse_token-append (x ∷ a) t more s fits (ne, h) stop =
      let some_read : (length (x ∷ a) == 0) ≡ false = ground arith in
      unfold parse_token in
      rw (
        count_while-append is_token (x ∷ a) t more h stop,
        some_read,
        slice-append (x ∷ a) t more,
        advance-append (x ∷ a) t more fits,
      )

quoted_loop_plain :
    (c n k : ℕ) (p : Bytes)
    → n ≡ suc k
    → (c == b'"') ≡ false
    → (c == b'\\') ≡ false
    → quoted_loop (c ∷ p) (suc n) ≡ longer 1 (quoted_loop p n)
quoted_loop_plain c n k p e no_quote no_backslash =
    rw e (unfold quoted_loop in rw (no_quote, no_backslash))

quoted_loop_escape :
    (c d n : ℕ) (p : Bytes)
    → (c == b'\\') ≡ true
    → quoted_loop (c ∷ d ∷ p) (suc (suc n)) ≡ longer 2 (quoted_loop p n)
quoted_loop_escape c d n p backslash =
    let no_quote : (c == b'"') ≡ false = ground arith in
    unfold quoted_loop in rw (no_quote, backslash)

length_quoted : (a t : Bytes) → (k : ℕ) × (length (a ++ b'"' ∷ t) ≡ suc k)
length_quoted [] t = (length t, refl)
length_quoted (c ∷ a) t = (length (a ++ b'"' ∷ t), refl)

pub quoted_loop-append :
    {a : Bytes} (t more : Bytes)
    → IsQuoted a
    → quoted_loop ((a ++ b'"' ∷ t) ++ more) (length (a ++ b'"' ∷ t)) ≡ closed (length a)
quoted_loop-append t more end = at_quote t more
  where
    at_quote : (t more : Bytes) → quoted_loop (b'"' ∷ (t ++ more)) (suc (length t)) ≡ closed 0
    at_quote [] more = unfold quoted_loop in refl
    at_quote (x ∷ t) more = unfold quoted_loop in refl
quoted_loop-append t more (plain {c} {s} no_quote no_backslash h) =
    let (k, e) = length_quoted s t in
    quoted_loop_plain c (length (s ++ b'"' ∷ t)) k ((s ++ b'"' ∷ t) ++ more) e no_quote no_backslash
    ∙ ap (longer 1) (quoted_loop-append t more h)
    ∙ ap closed (omega arith)
quoted_loop-append t more (escape {c} {d} {s} backslash h) =
    quoted_loop_escape c d (length (s ++ b'"' ∷ t)) ((s ++ b'"' ∷ t) ++ more) backslash
    ∙ ap (longer 2) (quoted_loop-append t more h)
    ∙ ap closed (omega arith)

advance_quoted :
    (a t more : Bytes)
    → length (b'"' ∷ (a ++ b'"' ∷ t)) < 2 ^ 64
    → advance (at_text (b'"' ∷ (a ++ b'"' ∷ t)) more) (length a + 2) ≡ at_text t more
advance_quoted a t more fits =
    let text : b'"' ∷ (a ++ b'"' ∷ t) ≡ (b'"' ∷ (a ++ b'"' ∷ [])) ++ t =
      ap (◌∷◌ b'"') (sym (append_assoc a (b'"' ∷ []) t)) in
    let size : length a + 2 ≡ length (b'"' ∷ (a ++ b'"' ∷ [])) =
      omega (arith, length-append a (b'"' ∷ [])) in
    let wrapped = b'"' ∷ (a ++ b'"' ∷ []) in
    ap (λ x. advance (at_text x more) (length a + 2)) text
    ∙ ap (advance (at_text (wrapped ++ t) more)) size
    ∙ advance-append wrapped t more (subst (λ x. length x < 2 ^ 64) text fits)

module _ {S : Type 0} ⦃session : Session S⦄ where
  pub parse_quoted_text-append :
      {a : Bytes} (t more : Bytes) (s : S)
      → length (b'"' ∷ (a ++ b'"' ∷ t)) < 2 ^ 64
      → IsQuoted a
      → parse_quoted_text (at_text (b'"' ∷ (a ++ b'"' ∷ t)) more) s
        ≡ done (of_bytes a, at_text t more) s
  parse_quoted_text-append {a} t more s fits h =
      unfold parse_quoted_text in
      rw (quoted_loop-append t more h, slice-append a (b'"' ∷ t) more, advance_quoted a t more fits)
