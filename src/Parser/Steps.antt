-- ===== src/Parser/Steps.antt =====
-- The steps of hawkc/parser.c on any text with a byte behind it: what each takes off its front, and
-- that it is never undefined.
use hawkc.Base.{
  ℕ, ◌<◌, ◌^◌, ◌==◌, ltb, true, false, Bool-cases, inl, inr, [], ◌∷◌, ◌++◌, Bytes, length, ◌≡◌, ◌≢◌,
  refl, ap, arith,
}
use mathlib.Core.Path.{subst}
use hawkc.Context.{HawkcString, of_bytes}
use hawkc.Outcome.{Action, bind}
use hawkc.Outcome.Gives.{Gives, gives, refuses}
use hawkc.Parser.{
  is_token, is_space, Session, Cursor, advance, consume_ows, parse_token, parse_quoted_text,
  parse_value, parse_equals, parse_delimiter,
}
use hawkc.Parser.Grammar.{IsOws, IsToken, Value, token, quoted, IsValue, content, render_value}
use hawkc.Parser.Lexemes.{
  at_text, Stops, count_while-append, advance-append, consume_ows-append, parse_token-append,
  parse_quoted_text-append,
}
use hawkc.Parser.Boundaries.{suffix-lt, value_suffix-lt}
use hawkc.Parser.Spans.{Span, span, split_front}
use hawkc.Parser.Closes.{Closes, closes, open_end, cut_off, closing}

-- A value at the front of the text, and a call that goes well behind each.
abbrev ValueThen :
    {S B : Type 0}
    → Type 0
    → (B → Type 0)
    → Bytes
    → Bytes
    → S
    → (HawkcString × Cursor → Action S B)
    → Type 0
ValueThen F Q mem t s next =
    (v : Value) (t' : Bytes)
    → t ≡ render_value v t'
    → length t' < 2 ^ 64
    → IsValue v
    → Gives F Q (next (of_bytes (content v), at_text t' mem) s)

module _ {S B F : Type 0} ⦃session : Session S⦄ {Q : B → Type 0} (mem : Bytes) where
  pub consume_ows-Gives :
      {t : Bytes} (s : S) (next : Cursor → Action S B)
      → Span is_space t
      → length t < 2 ^ 64
      → ((a t' : Bytes)
          → t ≡ a ++ t'
          → length t' < 2 ^ 64
          → IsOws a
          → Stops is_space t'
          → Gives F Q (next (at_text t' mem) s))
      → Gives F Q (bind (consume_ows (at_text t mem) s) next)
  consume_ows-Gives s next (span a t ha stop) fits h =
      rw (consume_ows-append a t mem s fits ha stop) (h a t refl (suffix-lt a t fits) ha stop)

  no_token :
      (t : Bytes) (s : S) (next : HawkcString × Cursor → Action S B)
      → Stops is_token t
      → Gives F Q (bind (parse_token (at_text t mem) s) next)
  no_token t s next stop =
      unfold parse_token in rw (count_while-append is_token [] t mem tt stop) refuses

  pub parse_token-Gives :
      {t : Bytes} (s : S) (next : HawkcString × Cursor → Action S B)
      → Span is_token t
      → length t < 2 ^ 64
      → ((a t' : Bytes)
          → t ≡ a ++ t'
          → length t' < 2 ^ 64
          → IsToken a
          → Stops is_token t'
          → Gives F Q (next (of_bytes a, at_text t' mem) s))
      → Gives F Q (bind (parse_token (at_text t mem) s) next)
  parse_token-Gives s next (span [] t ha stop) fits h = no_token t s next stop
  parse_token-Gives s next (span (c ∷ a) t ha stop) fits h =
      let some_read : c ∷ a ≢ [] = λ e. cc in
      rw (parse_token-append (c ∷ a) t mem s fits (some_read, ha) stop)
        (h (c ∷ a) t refl (suffix-lt (c ∷ a) t fits) (some_read, ha) stop)

  quoted_Gives :
      {t : Bytes} (s : S) (next : HawkcString × Cursor → Action S B)
      → Closes mem t
      → length (b'"' ∷ t) < 2 ^ 64
      → ValueThen F Q mem (b'"' ∷ t) s next
      → Gives F Q (bind (parse_quoted_text (at_text (b'"' ∷ t) mem) s) next)
  quoted_Gives s next (closes {a} t ha) fits h =
      rw (parse_quoted_text-append t mem s fits ha)
        (h (quoted a) t refl (value_suffix-lt (quoted a) t fits) ha)
  quoted_Gives s next (open_end e) fits h = unfold parse_quoted_text in rw e refuses
  quoted_Gives s next (cut_off e) fits h = unfold parse_quoted_text in rw e refuses

  token_Gives :
      (t : Bytes) (s : S) (next : HawkcString × Cursor → Action S B)
      → length t < 2 ^ 64
      → ValueThen F Q mem t s next
      → Gives F Q (bind (parse_token (at_text t mem) s) next)
  token_Gives t s next fits h =
      parse_token-Gives s next (split_front is_token t) fits
        λ a t' e fits' ha stop. h (token a) t' e fits' ha

module _ {S B F : Type 0} ⦃session : Session S⦄ {Q : B → Type 0} (x : ℕ) (mem : Bytes) where
  pub parse_value-Gives :
      (t : Bytes) (s : S) (next : HawkcString × Cursor → Action S B)
      → length t < 2 ^ 64
      → ValueThen F Q (x ∷ mem) t s next
      → Gives F Q (bind (parse_value (at_text t (x ∷ mem)) s) next)
  parse_value-Gives [] s next fits h = elim (Bool-cases (x == b'"')) [
    | inl quote ↦ unfold parse_value parse_quoted_text in rw quote refuses
    | inr other ↦ unfold parse_value in rw other (token_Gives (x ∷ mem) [] s next fits h)
  ]
  parse_value-Gives (c ∷ t) s next fits h = elim (Bool-cases (c == b'"')) [
    | inl quote ↦
        let same : b'"' ≡ c = ground arith in
        subst
          (λ q.
            length (q ∷ t) < 2 ^ 64
            → ValueThen F Q (x ∷ mem) (q ∷ t) s next
            → Gives F Q (bind (parse_value (at_text (q ∷ t) (x ∷ mem)) s) next))
          same
          (λ fits' h'.
            unfold parse_value in quoted_Gives (x ∷ mem) s next (closing (x ∷ mem) t) fits' h')
          fits h
    | inr other ↦ unfold parse_value in rw other (token_Gives (x ∷ mem) (c ∷ t) s next fits h)
  ]

  pub parse_equals-Gives :
      (t : Bytes) (s : S) (next : Cursor → Action S B)
      → x ≢ b'='
      → length t < 2 ^ 64
      → ((t' : Bytes)
          → t ≡ b'=' ∷ t'
          → length t' < 2 ^ 64
          → Gives F Q (next (at_text t' (x ∷ mem)) s))
      → Gives F Q (bind (parse_equals (at_text t (x ∷ mem)) s) next)
  parse_equals-Gives [] s next other fits h =
      let missing : (x == b'=') ≡ false = ground arith in unfold parse_equals in rw missing refuses
  parse_equals-Gives (c ∷ t) s next other fits h = elim (Bool-cases (c == b'=')) [
    | inl sign ↦
        let same : c ≡ b'=' = ground arith in
        let here : advance (at_text (c ∷ t) (x ∷ mem)) 1 ≡ at_text t (x ∷ mem) =
          advance-append (c ∷ []) t (x ∷ mem) fits in
        unfold parse_equals in
        rw (sign, here) (h t (ap (λ d. d ∷ t) same) (suffix-lt (c ∷ []) t fits))
    | inr missing ↦ unfold parse_equals in rw missing refuses
  ]

module _ {S F : Type 0} ⦃session : Session S⦄ (x : ℕ) (mem : Bytes) where
  pub parse_delimiter-Gives :
      {P : Cursor → Type 0} (t : Bytes) (s : S)
      → length t < 2 ^ 64
      → (t ≡ [] → P (at_text [] (x ∷ mem)))
      → ((ows t' : Bytes)
          → t ≡ b',' ∷ (ows ++ t')
          → length t' < 2 ^ 64
          → IsOws ows
          → P (at_text t' (x ∷ mem)))
      → Gives F P (parse_delimiter (at_text t (x ∷ mem)) s)
  parse_delimiter-Gives [] s fits over further = unfold parse_delimiter in gives (over refl)
  parse_delimiter-Gives {P} (c ∷ t) s fits over further =
      let some_left : ltb 0 (length (c ∷ t)) ≡ true = ground arith in
      elim (Bool-cases (c == b',')) [
        | inl comma ↦
            let same : c ≡ b',' = ground arith in
            let here : advance (at_text (c ∷ t) (x ∷ mem)) 1 ≡ at_text t (x ∷ mem) =
              advance-append (c ∷ []) t (x ∷ mem) fits in
            unfold parse_delimiter in
            rw (some_left, comma, here)
              (front same (split_front is_space t) (suffix-lt (c ∷ []) t fits) further)
        | inr missing ↦ unfold parse_delimiter in rw (some_left, missing) refuses
      ]
    where
      front :
          {t : Bytes}
          → c ≡ b','
          → Span is_space t
          → length t < 2 ^ 64
          → ((ows t' : Bytes)
              → c ∷ t ≡ b',' ∷ (ows ++ t')
              → length t' < 2 ^ 64
              → IsOws ows
              → P (at_text t' (x ∷ mem)))
          → Gives F P (consume_ows (at_text t (x ∷ mem)) s)
      front same (span a t ha stop) fits further =
          rw (consume_ows-append a t (x ∷ mem) s fits ha stop)
            (gives (further a t (ap (λ d. d ∷ (a ++ t)) same) (suffix-lt a t fits) ha))
