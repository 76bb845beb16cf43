-- ===== src/Parser.antt =====
-- hawkc/parser.c. A pointer into the header is the list of the bytes that may be read from it on
-- (the header's, and what stands behind them in memory), and a length says how many of them
-- belong to the header. Reading past the list is a fault.
pub mod Grammar
pub mod Lexemes
pub mod Tokens
pub mod Boundaries
pub mod Complete
pub mod Terminates
pub mod Spans
pub mod Closes
pub mod Steps
pub mod Rounds
pub mod Reads
pub mod Sound
pub mod Overrun
pub mod Keeps
use hawkc.Base.{
  ℕ, zero, suc, ◌+◌, ◌-◌, ◌<◌, if◌then◌else◌, leb, ltb, not, String, get_elem?, ◌==◌, Bool, true,
  false, ◌&&◌, ◌||◌, [], ◌∷◌, Option, none, some, Bytes, length, take, drop, sub64,
}
use mathlib.Core.Option
use hawkc.Outcome.{Outcome, Action, done, failed, fault, no_fuel, checked, pure, ◌>>=◌, ◌>>◌}
use hawkc.Context.{HawkcString, ErrorString, at}
use hawkc.Context.Error.{HawkcError, parse_error}

abbrev between : ℕ → ℕ → ℕ → Bool
between lo hi c = leb lo c && leb c hi

-- IS_TOKEN
unfoldable pub is_token : ℕ → Bool
is_token c =
    between b'0' b'9' c
    || between b'A' b'Z' c
    || between b'^' b'z' c
    || between b'#' b'\'' c
    || c == b'!'
    || c == b'*'
    || c == b'+'
    || c == b'-'
    || c == b'.'

-- IS_SPACE
unfoldable pub is_space : ℕ → Bool
is_space c = c == b' ' || c == b'\t'

-- `while (i < len && P(*p)) { i++; p++; }` of consume_ows and parse_token: the final `i`.
unfoldable pub count_while : (ℕ → Bool) → Bytes → ℕ → Option ℕ
count_while test p zero = some 0
count_while test [] (suc len) = none
count_while test (c ∷ p) (suc len) =
    let rest = count_while test p len in if test c then Option.map suc rest else some 0

-- How the loop of parse_quoted_text ends: at a quote behind so many bytes, at the end of the
-- header, at a backslash that is the last byte, or by a read out of range.
pub data Quoted : Type 0 where
  closed : ℕ → Quoted
  unclosed : Quoted
  dangling : Quoted
  unreadable : Quoted

abbrev pub longer : ℕ → Quoted → Quoted
longer n (closed k) = closed (n + k)
longer n q = q

-- From `p` on, with `len - i` bytes left. The byte behind a backslash is consumed unread.
unfoldable pub quoted_loop : Bytes → ℕ → Quoted
quoted_loop p zero = unclosed
quoted_loop [] (suc left) = unreadable
quoted_loop (c ∷ p) (suc zero) =
    if c == b'"' then closed 0 else if c == b'\\' then dangling else unclosed
quoted_loop (c ∷ p) (suc (suc left)) =
    let escaped = longer 2 (quoted_loop (drop 1 p) left) in
    let plain = longer 1 (quoted_loop p (suc left)) in
    if c == b'"' then closed 0 else if c == b'\\' then escaped else plain

-- The part of the header that a string points to.
abbrev pub slice : Bytes → ℕ → HawkcString
slice p len = record { len = len; chars = at (take len p) }

-- What the parser asks of the state that it hands to the callbacks: hawkc_set_error on it.
pub record Session (S : Type 0) : Type 0 where
  pub set_error : S → HawkcError → ErrorString → S

abbrev pub SchemeHandler : Type 0 → Type 0
SchemeHandler S = HawkcString → Action S (Unit {0})

abbrev pub ParamHandler : Type 0 → Type 0
ParamHandler S = HawkcString → HawkcString → Action S (Unit {0})

-- The position in the header: `p` and `remain`.
pub record Cursor : Type 0 where
  pub p : Bytes
  pub remain : ℕ

-- `p += n; remain -= n;`
abbrev pub advance : Cursor → ℕ → Cursor
advance c n = record { p = drop n c.p; remain = sub64 c.remain n }

module _ {S : Type 0} ⦃session : Session S⦄ where
  abbrev parse_failure : {A : Type 0} → String → Action S A
  parse_failure message s =
      failed parse_error (session.set_error s parse_error (record { format = message; args = [] }))

  unfoldable pub consume_ows : Cursor → Action S Cursor
  consume_ows c s = (checked (count_while is_space c.p c.remain) >>= λ n. pure (advance c n)) s

  -- The token, and the position behind it.
  unfoldable pub parse_token : Cursor → Action S (HawkcString × Cursor)
  parse_token c s =
      (checked (count_while is_token c.p c.remain) >>= λ i.
      if i == 0
      then parse_failure "Token must have at least one character"
      else pure (slice c.p i, advance c i))
        s

  pub quoted_end : Cursor → Bytes → Quoted → Action S (HawkcString × Cursor)
  quoted_end c p (closed k) s = done (slice p k, advance c (k + 2)) s
  quoted_end c p unclosed s = parse_failure "Quoted text must end with '\"'" s
  quoted_end c p dangling s = parse_failure "\\ at end of text" s
  quoted_end c p unreadable s = fault

  pub quoted_start : Cursor → Bytes → ℕ → Action S (HawkcString × Cursor)
  quoted_start c p zero s = parse_failure "Quoted text must start with '\"'" s
  quoted_start c [] (suc len) s = fault
  quoted_start c (quote ∷ p) (suc len) s =
      (if not (quote == b'"')
          then parse_failure "Quoted text must start with '\"'"
          else quoted_end c p (quoted_loop p len))
        s

  unfoldable pub parse_quoted_text : Cursor → Action S (HawkcString × Cursor)
  unfolding quoted_start quoted_end
  parse_quoted_text c = quoted_start c c.p c.remain

  -- `*p`
  abbrev pub peek : Cursor → Action S ℕ
  peek c = checked (get_elem? c.p 0)

  -- The first character of the value says whether it is quoted.
  unfoldable pub parse_value : Cursor → Action S (HawkcString × Cursor)
  parse_value c s =
      (peek c >>= λ first. if first == b'"' then parse_quoted_text c else parse_token c) s

  -- The `=` sign, which is looked for whatever `remain` says.
  unfoldable pub parse_equals : Cursor → Action S Cursor
  parse_equals c s =
      (peek c >>= λ sign.
      if not (sign == b'=')
      then parse_failure "Missing '=' for parameter value"
      else pure (advance c 1))
        s

  -- The delimiter, if there is more.
  unfoldable pub parse_delimiter : Cursor → Action S Cursor
  parse_delimiter c s =
      (if ltb 0 c.remain
          then (peek c >>= λ delimiter.
              if delimiter == b','
              then consume_ows (advance c 1)
              else parse_failure "',' required after parameter value")
          else pure c)
        s

  -- The body of the loop over key/value pairs.
  unfoldable pub parse_param : ParamHandler S → Cursor → Action S Cursor
  parse_param handler c = do
    (key, c1) ← parse_token c
    c2 ← consume_ows c1
    c3 ← parse_equals c2
    c4 ← consume_ows c3
    (value, c5) ← parse_value c4
    c6 ← consume_ows c5
    handler key value
    parse_delimiter c6

  -- `while (remain > 0)`
  unfoldable pub params_loop : ℕ → ParamHandler S → Cursor → Action S (Unit {0})
  params_loop zero handler c s = if ltb 0 c.remain then no_fuel else done tt s
  params_loop (suc fuel) handler c s =
      let body = (parse_param handler c >>= λ next. params_loop fuel handler next) s in
      if ltb 0 c.remain then body else done tt s

  -- A round reads a byte at least, so the readable bytes bound the rounds.
  unfoldable pub parse_auth_header :
      Bytes → ℕ → SchemeHandler S → ParamHandler S → Action S (Unit {0})
  parse_auth_header value len scheme_handler param_handler = do
    (scheme, c1) ← parse_token (record { p = value; remain = len })
    scheme_handler scheme
    c2 ← consume_ows c1
    params_loop (suc (length value)) param_handler c2
