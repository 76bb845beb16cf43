-- ===== src/Parser/Terminates.antt =====
-- The rounds that the model of hawkc_parse_auth_header (hawkc/parser.c) allows are enough.
use hawkc.Base.{
  length-drop, ℕ, zero, suc, ◌+◌, ◌-◌, ◌<◌, ◌≤◌, ltb, not, ◌==◌, Bool, false, Bool-cases, inl, inr,
  [], ◌∷◌, some, Bytes, length, drop, get_elem?, ◌≡◌, ◌≢◌, arith,
}
use native.Mathlib.Nat.{le_trans, le_refl}
use hawkc.Context.{HawkcString}
use hawkc.Outcome.{no_fuel}
use hawkc.Outcome.Ends.{
  Ends, returns, fails, faults, Ends-ne-no_fuel, Ends-bind, Ends-mono, Ends-if, Ends-checked,
  Ends-of,
}
use hawkc.Parser.{
  is_token, is_space, count_while, quoted_end, quoted_start, Quoted, closed, unclosed, dangling,
  unreadable, quoted_loop, Session, SchemeHandler, ParamHandler, Cursor, advance, consume_ows,
  parse_token, parse_quoted_text, parse_value, parse_equals, parse_delimiter, parse_param,
  params_loop, parse_auth_header,
}

-- What is counted can be read.
count_while-le :
    (test : ℕ → Bool) (p : Bytes) (len n : ℕ) → count_while test p len ≡ some n → n ≤ length p
unfolding count_while
count_while-le test p zero n e = ground arith
count_while-le test [] (suc len) n e = ground arith
count_while-le test (c ∷ p) (suc len) n e = ground (arith, count_while-le test p len (n - 1))

drop-shorter : (n : ℕ) (p : Bytes) → n ≤ length p → (n == 0) ≡ false → length (drop n p) < length p
drop-shorter n p within some_read = ground (arith, length-drop n p)

drop-within : (n : ℕ) (p : Bytes) → length (drop n p) ≤ length p
drop-within n p = omega (arith, length-drop n p)

lt→le : {a b : ℕ} → a < b → a ≤ b
lt→le h = omega arith

lt_of_le : {a b c : ℕ} → a ≤ b → b < c → a < c
lt_of_le h k = omega arith

-- A call that moves the position forward at most.
abbrev Within : ℕ → Cursor → Type 0
Within n c = length c.p ≤ n

module _ {S : Type 0} ⦃session : Session S⦄ where
  consume_ows-Ends : (c : Cursor) (s : S) → Ends (Within (length c.p)) (consume_ows c s)
  unfolding consume_ows
  consume_ows-Ends c s =
      Ends-bind (Ends-checked (count_while is_space c.p c.remain) s (λ n e. tt))
        λ n s' _. returns (drop-within n c.p)

  parse_token-Ends :
      (c : Cursor) (s : S) → Ends (λ (key, c'). length c'.p < length c.p) (parse_token c s)
  unfolding parse_token
  parse_token-Ends c s =
      Ends-bind
        (Ends-checked (count_while is_token c.p c.remain) s
          (λ n e. count_while-le is_token c.p c.remain n e))
        λ n s' h.
          Ends-if (n == 0) _ _ s' (λ none_read. fails)
            (λ some_read. returns (drop-shorter n c.p h some_read))

  quoted_end-Ends :
      (c : Cursor) (p : Bytes) (q : Quoted) (s : S)
      → Ends (λ (text, c'). length c'.p ≤ length c.p) (quoted_end c p q s)
  unfolding quoted_end
  quoted_end-Ends c p (closed k) s = returns (drop-within (k + 2) c.p)
  quoted_end-Ends c p unclosed s = fails
  quoted_end-Ends c p dangling s = fails
  quoted_end-Ends c p unreadable s = faults

  quoted_start-Ends :
      (c : Cursor) (p : Bytes) (len : ℕ) (s : S)
      → Ends (λ (text, c'). length c'.p ≤ length c.p) (quoted_start c p len s)
  unfolding quoted_start
  quoted_start-Ends c p zero s = fails
  quoted_start-Ends c [] (suc len) s = faults
  quoted_start-Ends c (quote ∷ p) (suc len) s =
      Ends-if (not (quote == b'"')) _ _ s (λ e. fails)
        (λ e. quoted_end-Ends c p (quoted_loop p len) s)

  parse_value-Ends :
      (c : Cursor) (s : S) → Ends (λ (value, c'). length c'.p ≤ length c.p) (parse_value c s)
  unfolding parse_value parse_quoted_text
  parse_value-Ends c s = Ends-bind (Ends-checked (get_elem? c.p 0) s (λ first e. tt)) λ first s' _.
      Ends-if (first == b'"') _ _ s' (λ e. quoted_start-Ends c c.p c.remain s')
        (λ e. Ends-mono (parse_token-Ends c s') λ (k, c') h. lt→le h)

  parse_equals-Ends : (c : Cursor) (s : S) → Ends (Within (length c.p)) (parse_equals c s)
  unfolding parse_equals
  parse_equals-Ends c s = Ends-bind (Ends-checked (get_elem? c.p 0) s (λ sign e. tt)) λ sign s' _.
      Ends-if (not (sign == b'=')) _ _ s' (λ e. fails) (λ e. returns (drop-within 1 c.p))

  parse_delimiter-Ends : (c : Cursor) (s : S) → Ends (Within (length c.p)) (parse_delimiter c s)
  unfolding parse_delimiter
  parse_delimiter-Ends c s =
      Ends-if (ltb 0 c.remain) _ _ s
        (λ e. Ends-bind (Ends-checked (get_elem? c.p 0) s (λ d e. tt)) λ d s' _.
          Ends-if (d == b',') _ _ s'
            (λ e.
              Ends-mono (consume_ows-Ends (advance c 1) s') λ c' h. le_trans h (drop-within 1 c.p))
            (λ e. fails))
        (λ e. returns (le_refl (length c.p)))

module _ {S : Type 0} ⦃session : Session S⦄ (handler : ParamHandler S)
    (handler_ends : (key value : HawkcString) (s : S) → handler key value s ≢ no_fuel) where
  -- A round reads a byte at least.
  parse_param-Ends :
      (c : Cursor) (s : S) → Ends (λ c'. length c'.p < length c.p) (parse_param handler c s)
  unfolding parse_param
  parse_param-Ends c s = Ends-bind (parse_token-Ends c s) λ (key, c1) s1 h1.
      Ends-bind (consume_ows-Ends c1 s1) λ c2 s2 h2. Ends-bind (parse_equals-Ends c2 s2) λ c3 s3 h3.
        Ends-bind (consume_ows-Ends c3 s3) λ c4 s4 h4.
          Ends-bind (parse_value-Ends c4 s4) λ (value, c5) s5 h5.
            Ends-bind (consume_ows-Ends c5 s5) λ c6 s6 h6.
              Ends-bind (Ends-of (handler key value s6) (handler_ends key value s6)) λ _ s7 _.
                Ends-mono (parse_delimiter-Ends c6 s7) λ c7 h7.
                  lt_of_le (le_trans h7 (le_trans h6 (le_trans h5 (le_trans h4 (le_trans h3 h2)))))
                    h1

  params_loop-Ends :
      (fuel : ℕ) (c : Cursor) (s : S)
      → length c.p < fuel
      → Ends (λ _. Unit {0}) (params_loop fuel handler c s)
  unfolding params_loop
  params_loop-Ends zero c s enough = absurd (omega arith)
  params_loop-Ends (suc fuel) c s enough = elim (Bool-cases (ltb 0 c.remain)) [
    | inl more ↦ rw more (
        Ends-bind (parse_param-Ends c s) λ c' s' shorter. params_loop-Ends fuel c' s' (omega arith))
    | inr over ↦ rw over (returns tt)
  ]

-- Whatever the header, its length and the memory behind it, and for handlers that always end,
-- hawkc_parse_auth_header is never cut short by the model: each round of its loop reads a byte at
-- least, so the rounds allowed are enough.
pub parse_auth_header-ne-no_fuel :
    {S : Type 0} ⦃session : Session S⦄ (scheme_handler : SchemeHandler S)
    (param_handler : ParamHandler S) (value : Bytes) (len : ℕ) (s : S)
    → ((scheme : HawkcString) (t : S) → scheme_handler scheme t ≢ no_fuel)
    → ((key text : HawkcString) (t : S) → param_handler key text t ≢ no_fuel)
    → parse_auth_header value len scheme_handler param_handler s ≢ no_fuel
unfolding parse_auth_header
parse_auth_header-ne-no_fuel scheme_handler param_handler value len s scheme_ends param_ends =
    Ends-ne-no_fuel (
      Ends-bind (parse_token-Ends (record { p = value; remain = len }) s) λ (scheme, c1) s1 h1.
        Ends-bind (Ends-of (scheme_handler scheme s1) (scheme_ends scheme s1)) λ _ s2 _.
          Ends-bind (consume_ows-Ends c1 s2) λ c2 s3 h2.
            params_loop-Ends param_handler param_ends (suc (length value)) c2 s3 (omega arith))
