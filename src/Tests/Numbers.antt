-- ===== src/Tests/Numbers.antt =====
-- Runs of the number routines of hawkc/common.c.
use hawkc.Base.{◌+◌, ◌^◌, ◌<◌, ◌≤◌, [], ◌∷◌, Bytes, codes, some, none, ◌≡◌, refl, arith}
use hawkc.Tests.Checks.{every_sound}
use hawkc.Base.Int.{pos, negsuc}
use hawkc.Decimal.{decimal, AllDigits, is_digit}
use hawkc.Outcome.{done, failed, fault}
use hawkc.Context.{HawkcString, FormatArg, init, of_bytes, set_error, load-of_bytes}
use hawkc.Context.Error.{time_value_error}
use hawkc.Time.Ttoa.{ttoa, number_of_digits}
use hawkc.Time.Ttoa.Numeral.{ttoa_nonneg, ttoa_least, ttoa_lem}
use hawkc.Time.Ttoa.Length.{number_of_digits_bounds, magnitude}
use hawkc.Time.Parse.{parse_time}
use hawkc.Time.Parse.Exact.{parse_time_complete, parse_time-ttoa, parse_time_lem}

-- 2 ^ 32 + 17 is cut to 17.
large_time : ttoa (pos (2 ^ 32 + 17)) ≡ some (decimal 17)
large_time = ttoa_nonneg (pos (2 ^ 32 + 17)) 17 refl (omega arith)

least_int : ttoa (pos (2 ^ 31)) ≡ none
least_int = ttoa_least (pos (2 ^ 31)) refl

ttoa_lem_example : ttoa (negsuc 41) ≡ some (b'-' ∷ decimal 42)
ttoa_lem_example = ttoa_lem (negsuc 41)

number_of_digits_bounds_example :
    (1234 < 10 ^ number_of_digits (pos 1234))
    × (0 < 1234 → 10 ^ number_of_digits (pos 1234) ≤ 12340)
    × (magnitude (pos 1234) ≡ 0 → number_of_digits (pos 1234) ≡ 0)
number_of_digits_bounds_example = number_of_digits_bounds (pos 1234) (omega arith)

parse_time-ttoa_example :
    (s : Bytes) × (ttoa (pos 1353832234) ≡ some s)
    × (parse_time (of_bytes s) init ≡ done (pos 1353832234) init)
parse_time-ttoa_example = parse_time-ttoa 1353832234 init (omega arith)

leading_zeros : parse_time (of_bytes (codes "0042")) init ≡ done (pos 42) init
leading_zeros =
    parse_time_complete (of_bytes (codes "0042")) init (codes "0042")
      (load-of_bytes init (codes "0042")) (every_sound is_digit (codes "0042") refl) (omega arith)
      (omega arith)

abbrev ill : HawkcString
ill = of_bytes (codes "13x5")

parse_time_lem_example :
    parse_time ill init
    ≡ failed time_value_error (
        set_error init time_value_error
          (record { format = "'%.*s' is not a valid integer"; args = FormatArg.text ill ∷ [] }))
parse_time_lem_example =
    parse_time_lem ill init (codes "13") (codes "x5") (load-of_bytes init (codes "13x5"))
      (every_sound is_digit (codes "13") refl) refl

abbrev long_time : Bytes
long_time = codes "9223372036854775808"

digits_of_long_time : AllDigits long_time
digits_of_long_time = every_sound is_digit long_time refl

too_long : parse_time (of_bytes long_time) init ≡ fault
too_long =
    parse_time_lem (of_bytes long_time) init long_time [] (load-of_bytes init long_time)
      digits_of_long_time tt
