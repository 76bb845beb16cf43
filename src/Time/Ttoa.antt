-- ===== src/Time/Ttoa.antt =====
-- hawkc_number_of_digits, strreverse and hawkc_ttoa of hawkc/common.c. `time_t` has 64 bits,
-- `int` 32.
pub mod Reverse
pub mod Numeral
pub mod Length
use hawkc.Base.{
  ℕ, zero, suc, ◌+◌, ◌-◌, if◌then◌else◌, ltb, [], ◌∷◌, ◌++◌, Option, none, some, ◌>>=◌, Bytes,
  codes, length, get_elem?, get_or, set,
}
use hawkc.Base.Int.{ℤ, pos, negsuc, is_negative, is_zero, neg, quot, rem, cast_int}

-- `while (t != 0) { t /= 10; ++count; }`
unfoldable pub count_digits : ℕ → ℤ → ℕ → ℕ
count_digits zero t count = count
count_digits (suc fuel) t count =
    let rest = count_digits fuel (quot t 10) (count + 1) in if is_zero t then count else rest

-- A 64-bit `time_t` has 19 digits at most.
unfoldable pub number_of_digits : ℤ → ℕ
unfolding count_digits
number_of_digits t = count_digits 19 t 0

-- `while (end > begin) { aux = *end, *end-- = *begin, *begin++ = aux; }` on positions of `buf`;
-- the two meet within `length buf` rounds.
unfoldable pub strreverse_loop : ℕ → Bytes → ℕ → ℕ → Bytes
strreverse_loop zero buf begin end = buf
strreverse_loop (suc fuel) buf begin end =
    let aux = get_or buf end 0 in
    let swapped = set (set buf end (get_or buf begin 0)) begin aux in
    let rest = strreverse_loop fuel swapped (begin + 1) (end - 1) in
    if ltb begin end then rest else buf

unfoldable pub strreverse : Bytes → ℕ → ℕ → Bytes
strreverse buf begin end = strreverse_loop (length buf) buf begin end

-- `num[res.rem]`; a negative index is out of range.
unfoldable pub num_at : ℤ → Option ℕ
num_at (pos i) = get_elem? (codes "0123456789") i
num_at (negsuc i) = none

-- The do-while loop: `div` takes its argument as `int`. The characters in the order in which they
-- are written; ten rounds are enough for an `int`.
unfoldable pub ttoa_loop : ℕ → ℤ → Option Bytes
ttoa_loop zero value = none
ttoa_loop (suc fuel) value =
    let int_value = cast_int value in
    let rest = ttoa_loop fuel (quot int_value 10) in
    (do
      d ← num_at (rem int_value 10)
      if is_zero (quot int_value 10) then some (d ∷ []) else (do more ← rest; some (d ∷ more)))

-- The text that is written to `buf`; its length is the result. `none` is a read outside `num`.
unfoldable pub ttoa : ℤ → Option Bytes
ttoa value = do
  let sign = cast_int value
  digits ← ttoa_loop 10 (if is_negative sign then neg value else value)
  let wstr = if is_negative sign then digits ++ b'-' ∷ [] else digits
  some (strreverse wstr 0 (length wstr - 1))
