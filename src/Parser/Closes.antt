-- ===== src/Parser/Closes.antt =====
-- How the loop of parse_quoted_text (hawkc/parser.c) ends on any text behind an opening quote.
use hawkc.Base.{
  ℕ, ◌==◌, true, false, Bool-cases, inl, inr, [], ◌∷◌, ◌++◌, Bytes, length, ◌≡◌, refl, ap, ◌∙◌,
  arith,
}
use mathlib.Core.Path.{subst}
use hawkc.Parser.{unclosed, dangling, longer, quoted_loop}
use hawkc.Parser.Grammar.{IsQuoted, end, plain, escape}

-- A text behind an opening quote has a closing quote, or the loop refuses it.
pub data Closes (mem : Bytes) : Bytes → Type 0 where
  closes : {a : Bytes} (t : Bytes) → IsQuoted a → Closes mem (a ++ b'"' ∷ t)
  open_end : {t : Bytes} → quoted_loop (t ++ mem) (length t) ≡ unclosed → Closes mem t
  cut_off : {t : Bytes} → quoted_loop (t ++ mem) (length t) ≡ dangling → Closes mem t

module _ (mem : Bytes) where
  at_plain :
      (c d : ℕ) (t : Bytes)
      → (c == b'"') ≡ false
      → (c == b'\\') ≡ false
      → quoted_loop ((c ∷ d ∷ t) ++ mem) (length (c ∷ d ∷ t))
        ≡ longer 1 (quoted_loop ((d ∷ t) ++ mem) (length (d ∷ t)))
  at_plain c d t no_quote no_backslash = unfold quoted_loop in rw (no_quote, no_backslash)

  at_escape :
      (c d : ℕ) (t : Bytes)
      → (c == b'"') ≡ false
      → (c == b'\\') ≡ true
      → quoted_loop ((c ∷ d ∷ t) ++ mem) (length (c ∷ d ∷ t))
        ≡ longer 2 (quoted_loop (t ++ mem) (length t))
  at_escape c d t no_quote backslash = unfold quoted_loop in rw (no_quote, backslash)

  behind_plain :
      {t : Bytes} (c : ℕ)
      → (c == b'"') ≡ false
      → (c == b'\\') ≡ false
      → quoted_loop ((c ∷ t) ++ mem) (length (c ∷ t)) ≡ longer 1 (quoted_loop (t ++ mem) (length t))
      → Closes mem t
      → Closes mem (c ∷ t)
  behind_plain c no_quote no_backslash round (closes t h) = closes t (plain no_quote no_backslash h)
  behind_plain c no_quote no_backslash round (open_end e) = open_end (round ∙ ap (longer 1) e)
  behind_plain c no_quote no_backslash round (cut_off e) = cut_off (round ∙ ap (longer 1) e)

  behind_escape :
      {t : Bytes} (c d : ℕ)
      → (c == b'"') ≡ false
      → (c == b'\\') ≡ true
      → Closes mem t
      → Closes mem (c ∷ d ∷ t)
  behind_escape c d no_quote backslash (closes t h) = closes t (escape backslash h)
  behind_escape {t} c d no_quote backslash (open_end e) =
      open_end (at_escape c d t no_quote backslash ∙ ap (longer 2) e)
  behind_escape {t} c d no_quote backslash (cut_off e) =
      cut_off (at_escape c d t no_quote backslash ∙ ap (longer 2) e)

  at_quote : (c : ℕ) (t : Bytes) → (c == b'"') ≡ true → Closes mem (c ∷ t)
  at_quote c t h =
      let same : b'"' ≡ c = ground arith in subst (λ q. Closes mem (q ∷ t)) same (closes t end)

  at_last : (c : ℕ) → (c == b'"') ≡ false → Closes mem (c ∷ [])
  at_last c no_quote = elim (Bool-cases (c == b'\\')) [
    | inl backslash ↦ cut_off {t = c ∷ []} (unfold quoted_loop in rw (no_quote, backslash))
    | inr no_backslash ↦ open_end {t = c ∷ []} (unfold quoted_loop in rw (no_quote, no_backslash))
  ]

  pub closing : (t : Bytes) → Closes mem t
  closing [] = open_end {t = []} (unfold quoted_loop in refl)
  closing (c ∷ []) = elim (Bool-cases (c == b'"')) [
    | inl quote ↦ at_quote c [] quote
    | inr no_quote ↦ at_last c no_quote
  ]
  closing (c ∷ d ∷ t) =
      let further = closing (d ∷ t) in
      let escaped = closing t in
      elim (Bool-cases (c == b'"')) [
        | inl quote ↦ at_quote c (d ∷ t) quote
        | inr no_quote ↦ elim (Bool-cases (c == b'\\')) [
          | inl backslash ↦ behind_escape c d no_quote backslash escaped
          | inr no_backslash ↦
              behind_plain c no_quote no_backslash (at_plain c d t no_quote no_backslash) further
        ]
      ]
