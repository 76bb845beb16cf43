-- ===== src/Parser/Grammar.antt =====
-- The header fields that hawkc/parser.c is written for, independently of the parser: a scheme, and
-- parameters `key=value` or `key="value"` with optional white space, separated by commas.
use hawkc.Base.{ℕ, ◌==◌, true, false, [], ◌∷◌, ◌++◌, List, Bytes, All, ◌≡◌, ◌≢◌}
use hawkc.Outcome.{Action, pure, ◌>>◌}
use hawkc.Context.{of_bytes}
use hawkc.Parser.{is_token, is_space, SchemeHandler, ParamHandler}

-- White space, and a token with a character at least.
abbrev pub IsOws : Bytes → Type 0
IsOws = All (λ c. is_space c ≡ true)

abbrev pub IsToken : Bytes → Type 0
IsToken s = (s ≢ []) × All (λ c. is_token c ≡ true) s

-- The inside of a quoted text: a backslash has a byte behind it, and no other quote stands there.
pub data IsQuoted : Bytes → Type 0 where
  end : IsQuoted []
  plain :
      {c : ℕ} {s : Bytes}
      → (c == b'"') ≡ false
      → (c == b'\\') ≡ false
      → IsQuoted s
      → IsQuoted (c ∷ s)
  escape : {c d : ℕ} {s : Bytes} → (c == b'\\') ≡ true → IsQuoted s → IsQuoted (c ∷ d ∷ s)

pub data Value : Type 0 where
  token : Bytes → Value
  quoted : Bytes → Value

abbrev pub IsValue : Value → Type 0
IsValue (token s) = IsToken s
IsValue (quoted s) = IsQuoted s

-- The bytes that are handed over for a value: what stands between the quotes, escapes and all.
abbrev pub content : Value → Bytes
content (token s) = s
content (quoted s) = s

abbrev pub render_value : Value → Bytes → Bytes
render_value (token s) rest = s ++ rest
render_value (quoted s) rest = b'"' ∷ (s ++ (b'"' ∷ rest))

-- A parameter with the white space that surrounds its parts.
pub record Param : Type 0 where
  pub key : Bytes
  pub before_equals : Bytes
  pub before_value : Bytes
  pub value : Value
  pub behind : Bytes

pub record IsParam (q : Param) : Type 0 where
  pub key_token : IsToken q.key
  pub before_equals_ows : IsOws q.before_equals
  pub before_value_ows : IsOws q.before_value
  pub value_valid : IsValue q.value
  pub behind_ows : IsOws q.behind

abbrev pub render_param : Param → Bytes → Bytes
render_param q rest =
    q.key
    ++ (q.before_equals ++ (b'=' ∷ (q.before_value ++ render_value q.value (q.behind ++ rest))))

-- A comma and white space stand between two parameters, and may stand behind the last.
pub data Params : List Param → Bytes → Type 0 where
  none : Params [] []
  last : {q : Param} → IsParam q → Params (q ∷ []) (render_param q [])
  more :
      {q : Param} {qs : List Param} (ows s : Bytes)
      → IsParam q
      → IsOws ows
      → Params qs s
      → Params (q ∷ qs) (render_param q (b',' ∷ (ows ++ s)))

-- Without white space the scheme stands alone: a key would be read as part of it.
pub data Header : Bytes → List Param → Bytes → Type 0 where
  header :
      {scheme : Bytes} {qs : List Param} (ows s : Bytes)
      → IsToken scheme
      → IsOws ows
      → (ows ≡ [] → s ≡ [])
      → Params qs s
      → Header scheme qs (scheme ++ (ows ++ s))

-- The calls that a parser of the header has to make, in this order, up to the first that fails.
abbrev pub handle_params : {S : Type 0} → ParamHandler S → List Param → Action S (Unit {0})
handle_params handler [] = pure tt
handle_params handler (q ∷ qs) =
    handler (of_bytes q.key) (of_bytes (content q.value)) >> handle_params handler qs

abbrev pub handle_header :
    {S : Type 0} → SchemeHandler S → ParamHandler S → Bytes → List Param → Action S (Unit {0})
handle_header scheme_handler param_handler scheme qs =
    scheme_handler (of_bytes scheme) >> handle_params param_handler qs
