-- ===== src/Context/Error.antt =====
-- HawkcError of hawkc/hawkc.h, and the error strings of hawkc/common.c.
use hawkc.Base.{
  ℕ, if◌then◌else◌, leb, List, [], ◌∷◌, Option, none, get_elem?, String, ◌≡◌, ◌⊎◌, arith,
}

pub data HawkcError : Type 0 where
  ok parse_error bad_scheme_error token_validation_error error_unknown_algorithm : HawkcError
  crypto_error time_value_error no_mem required_buffer_too_large error : HawkcError
  base64_error overflow_error : HawkcError

-- The value of the enumerator.
unfoldable pub code : HawkcError → ℕ
code ok = 0
code parse_error = 1
code bad_scheme_error = 2
code token_validation_error = 3
code error_unknown_algorithm = 4
code crypto_error = 5
code time_value_error = 6
code no_mem = 7
code required_buffer_too_large = 8
code error = 9
code base64_error = 10
code overflow_error = 11

abbrev pub error_strings : List String
error_strings =
    "No error" ∷ "Token parse error" ∷ "Authentication scheme name not Hawk" ∷ "Token invalid"
    ∷ "Unknown algorithm" ∷ "Some unrecognized error in the crypto library occurred"
    ∷ "Not a unix time value" ∷ "Unable to allocate memory" ∷ "Required buffer size is too large"
    ∷ "Unspecific error" ∷ "Unexpected string length or padding in base64 en- or decoding"
    ∷ "Unexpected number value would cause integer overflow" ∷ []

-- `none` is the failed assertion. (`e >= HAWKC_OK` holds of every enumerator.)
unfoldable pub strerror : HawkcError → Option String
unfolding code
strerror e = if leb (code e) (code error) then get_elem? error_strings (code e) else none

-- The assertion of hawkc_strerror fails for HAWKC_BASE64_ERROR and HAWKC_OVERFLOW_ERROR, and for
-- no other error.
pub strerror_lem :
    (e : HawkcError)
    → (strerror e ≡ none → (e ≡ base64_error) ⊎ (e ≡ overflow_error))
      × ((e ≡ base64_error) ⊎ (e ≡ overflow_error) → strerror e ≡ none)
unfolding strerror code
strerror_lem ok = ground arith
strerror_lem parse_error = ground arith
strerror_lem bad_scheme_error = ground arith
strerror_lem token_validation_error = ground arith
strerror_lem error_unknown_algorithm = ground arith
strerror_lem crypto_error = ground arith
strerror_lem time_value_error = ground arith
strerror_lem no_mem = ground arith
strerror_lem required_buffer_too_large = ground arith
strerror_lem error = ground arith
strerror_lem base64_error = ground arith
strerror_lem overflow_error = ground arith
