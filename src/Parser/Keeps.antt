-- ===== src/Parser/Keeps.antt =====
-- hawkc/parser.c changes the session by its handlers and by setting an error only.
use hawkc.Base.{
  ℕ, zero, suc, ltb, not, ◌==◌, Bool-cases, inl, inr, [], ◌∷◌, Bytes, length, get_elem?,
}
use hawkc.Context.{HawkcString, ErrorString}
use hawkc.Context.Error.{HawkcError}
use hawkc.Outcome.Keeps.{
  Keeps, returned, failed_in, faulted, cut, Keeps-bind, Keeps-if, Keeps-checked,
}
use hawkc.Parser.{
  is_token, is_space, count_while, quoted_end, quoted_start, Quoted, closed, unclosed, dangling,
  unreadable, quoted_loop, Session, SchemeHandler, ParamHandler, Cursor, advance, consume_ows,
  parse_token, parse_quoted_text, parse_value, parse_equals, parse_delimiter, parse_param,
  params_loop, parse_auth_header,
}

module _ {S : Type 0} ⦃session : Session S⦄ (I : S → Type 0)
    (set_error_keeps : (s : S) (e : HawkcError) (message : ErrorString)
      → I s
      → I (session.set_error s e message)) where
  consume_ows-Keeps : (c : Cursor) (s : S) → I s → Keeps I (consume_ows c s)
  unfolding consume_ows
  consume_ows-Keeps c s h =
      Keeps-bind (Keeps-checked (count_while is_space c.p c.remain) s h) λ n s' h'. returned h'

  parse_token-Keeps : (c : Cursor) (s : S) → I s → Keeps I (parse_token c s)
  unfolding parse_token
  parse_token-Keeps c s h =
      Keeps-bind (Keeps-checked (count_while is_token c.p c.remain) s h)
        λ n s' h'. Keeps-if (n == 0) _ _ s' (failed_in (set_error_keeps _ _ _ h')) (returned h')

  quoted_end-Keeps :
      (c : Cursor) (p : Bytes) (q : Quoted) (s : S) → I s → Keeps I (quoted_end c p q s)
  unfolding quoted_end
  quoted_end-Keeps c p (closed k) s h = returned h
  quoted_end-Keeps c p unclosed s h = failed_in (set_error_keeps _ _ _ h)
  quoted_end-Keeps c p dangling s h = failed_in (set_error_keeps _ _ _ h)
  quoted_end-Keeps c p unreadable s h = faulted

  quoted_start-Keeps :
      (c : Cursor) (p : Bytes) (len : ℕ) (s : S) → I s → Keeps I (quoted_start c p len s)
  unfolding quoted_start
  quoted_start-Keeps c p zero s h = failed_in (set_error_keeps _ _ _ h)
  quoted_start-Keeps c [] (suc len) s h = faulted
  quoted_start-Keeps c (quote ∷ p) (suc len) s h =
      Keeps-if (not (quote == b'"')) _ _ s (failed_in (set_error_keeps _ _ _ h))
        (quoted_end-Keeps c p (quoted_loop p len) s h)

  parse_value-Keeps : (c : Cursor) (s : S) → I s → Keeps I (parse_value c s)
  unfolding parse_value parse_quoted_text
  parse_value-Keeps c s h = Keeps-bind (Keeps-checked (get_elem? c.p 0) s h) λ first s' h'.
      Keeps-if (first == b'"') _ _ s' (quoted_start-Keeps c c.p c.remain s' h')
        (parse_token-Keeps c s' h')

  parse_equals-Keeps : (c : Cursor) (s : S) → I s → Keeps I (parse_equals c s)
  unfolding parse_equals
  parse_equals-Keeps c s h = Keeps-bind (Keeps-checked (get_elem? c.p 0) s h) λ sign s' h'.
      Keeps-if (not (sign == b'=')) _ _ s' (failed_in (set_error_keeps _ _ _ h')) (returned h')

  parse_delimiter-Keeps : (c : Cursor) (s : S) → I s → Keeps I (parse_delimiter c s)
  unfolding parse_delimiter
  parse_delimiter-Keeps c s h =
      Keeps-if (ltb 0 c.remain) _ _ s
        (Keeps-bind (Keeps-checked (get_elem? c.p 0) s h) λ d s' h'.
          Keeps-if (d == b',') _ _ s' (consume_ows-Keeps (advance c 1) s' h')
            (failed_in (set_error_keeps _ _ _ h')))
        (returned h)

  module _ (handler : ParamHandler S)
      (handler_keeps : (key value : HawkcString) (s : S)
        → I s
        → Keeps I (handler key value s)) where
    parse_param-Keeps : (c : Cursor) (s : S) → I s → Keeps I (parse_param handler c s)
    unfolding parse_param
    parse_param-Keeps c s h = Keeps-bind (parse_token-Keeps c s h) λ (key, c1) s1 h1.
        Keeps-bind (consume_ows-Keeps c1 s1 h1) λ c2 s2 h2.
          Keeps-bind (parse_equals-Keeps c2 s2 h2) λ c3 s3 h3.
            Keeps-bind (consume_ows-Keeps c3 s3 h3) λ c4 s4 h4.
              Keeps-bind (parse_value-Keeps c4 s4 h4) λ (value, c5) s5 h5.
                Keeps-bind (consume_ows-Keeps c5 s5 h5) λ c6 s6 h6.
                  Keeps-bind (handler_keeps key value s6 h6)
                    λ _ s7 h7. parse_delimiter-Keeps c6 s7 h7

    params_loop-Keeps :
        (fuel : ℕ) (c : Cursor) (s : S) → I s → Keeps I (params_loop fuel handler c s)
    unfolding params_loop
    params_loop-Keeps zero c s h = elim (Bool-cases (ltb 0 c.remain)) [
      | inl more ↦ rw more cut
      | inr over ↦ rw over (returned h)
    ]
    params_loop-Keeps (suc fuel) c s h = elim (Bool-cases (ltb 0 c.remain)) [
      | inl more ↦
          rw more (Keeps-bind (parse_param-Keeps c s h) λ c' s' h'. params_loop-Keeps fuel c' s' h')
      | inr over ↦ rw over (returned h)
    ]

    pub parse_auth_header-Keeps :
        (scheme_handler : SchemeHandler S) (value : Bytes) (len : ℕ) (s : S)
        → ((scheme : HawkcString) (t : S) → I t → Keeps I (scheme_handler scheme t))
        → I s
        → Keeps I (parse_auth_header value len scheme_handler handler s)
    unfolding parse_auth_header
    parse_auth_header-Keeps scheme_handler value len s scheme_keeps h =
        Keeps-bind (parse_token-Keeps (record { p = value; remain = len }) s h)
          λ (scheme, c1) s1 h1. Keeps-bind (scheme_keeps scheme s1 h1) λ _ s2 h2.
            Keeps-bind (consume_ows-Keeps c1 s2 h2)
              λ c2 s3 h3. params_loop-Keeps (suc (length value)) c2 s3 h3
