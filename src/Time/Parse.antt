-- ===== src/Time/Parse.antt =====
-- hawkc_my_digittoint and hawkc_parse_time of hawkc/common.c.
pub mod Exact
use hawkc.Decimal.{is_digit}
use hawkc.Base.{
  ℕ, ◌+◌, ◌-◌, ◌*◌, ◌%◌, ◌^◌, if◌then◌else◌, ltb, leb, Bool, not, ◌&&◌, [], ◌∷◌, Option, none, some,
  Bytes,
}
use hawkc.Base.Int.{ℤ, pos, negsuc}
use hawkc.Outcome.{Action, pure, checked, ◌>>=◌}
use hawkc.Context.{HawkcContext, HawkcString, FormatArg, load, fail}
use hawkc.Context.Error.{time_value_error}

-- The value of a byte held in a (signed) `char`, as a 32-bit pattern.
abbrev char32 : ℕ → ℕ
char32 ch = if ltb ch 128 then ch else ch + 2 ^ 32 - 256

-- `(unsigned) (ch - c)`.
abbrev minus32 : ℕ → ℕ → ℕ
minus32 ch c = (char32 ch + 2 ^ 32 - c) % 2 ^ 32

unfoldable pub my_digittoint : ℕ → ℤ
my_digittoint ch =
    if ltb (minus32 ch b'0') 10
    then pos (minus32 ch b'0')
    else if ltb (minus32 ch b'a') 6
    then pos (minus32 ch b'a' + 10)
    else if ltb (minus32 ch b'A') 6
    then pos (minus32 ch b'A' + 10)
    else negsuc 0

-- `(t * 10) + digit` of two `time_t` values; `none` is an overflow. (`t` is not negative.)
unfoldable pub shift_in : ℤ → ℤ → Option ℤ
shift_in (pos t) (pos d) = if ltb (t * 10 + d) (2 ^ 63) then some (pos (t * 10 + d)) else none
shift_in t d = none

-- `i++` of an `int` that is not negative; `none` is an overflow.
unfoldable pub count_up : ℕ → Option ℕ
count_up i = if ltb (i + 1) (2 ^ 31) then some (i + 1) else none

-- The loop over the characters of `ts` from the `i`-th on, with `t` so far.
unfoldable pub parse_digits : HawkcString → ℕ → Bytes → ℤ → Action HawkcContext ℤ
parse_digits ts i [] t = pure t
parse_digits ts i (c ∷ s) t =
    if not (is_digit c)
    then fail time_value_error
        (record { format = "'%.*s' is not a valid integer"; args = FormatArg.text ts ∷ [] })
    else (do
      t' ← checked (shift_in t (my_digittoint c))
      i' ← checked (count_up i)
      parse_digits ts i' s t')

unfoldable pub parse_time : HawkcString → Action HawkcContext ℤ
parse_time ts ctx = (checked (load ctx ts) >>= λ chars. parse_digits ts 0 chars (pos 0)) ctx
