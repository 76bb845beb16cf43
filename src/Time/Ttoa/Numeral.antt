-- ===== src/Time/Ttoa/Numeral.antt =====
-- hawkc_ttoa and hawkc_number_of_digits of hawkc/common.c against decimal numerals.
use hawkc.Base.{
  Bool-cases, if◌then◌else◌, Option, Bytes, ℕ, zero, suc, ◌+◌, ◌-◌, ◌/◌, ◌%◌, ◌^◌, ◌<◌, ◌≤◌, ◌==◌,
  le_or_lt, inl, inr, true, false, [], ◌∷◌, ◌++◌, some, none, ◌>>=◌, ◌≡◌, refl, ap, ◌∙◌, arith,
  reverse-append,
}
use hawkc.Base.Int.{ℤ, pos, negsuc, cast_int, neg}
use hawkc.Decimal.{digits_up, digits_up_fuel, digits_up_last, digits_up_more, decimal, tenth_fits}
use hawkc.Time.Ttoa.{num_at, ttoa_loop, ttoa}
use hawkc.Time.Ttoa.Reverse.{strreverse-reverse}

num_at_digit : (i : ℕ) → i < 10 → num_at (pos i) ≡ some (b'0' + i)
unfolding num_at
num_at_digit zero h = refl
num_at_digit (suc zero) h = refl
num_at_digit (suc (suc zero)) h = refl
num_at_digit (suc (suc (suc zero))) h = refl
num_at_digit (suc (suc (suc (suc zero)))) h = refl
num_at_digit (suc (suc (suc (suc (suc zero))))) h = refl
num_at_digit (suc (suc (suc (suc (suc (suc zero)))))) h = refl
num_at_digit (suc (suc (suc (suc (suc (suc (suc zero))))))) h = refl
num_at_digit (suc (suc (suc (suc (suc (suc (suc (suc zero)))))))) h = refl
num_at_digit (suc (suc (suc (suc (suc (suc (suc (suc (suc zero))))))))) h = refl
num_at_digit (suc (suc (suc (suc (suc (suc (suc (suc (suc (suc n)))))))))) h = absurd (omega arith)

-- A value that fits `int` is not changed by the conversion.
pub cast_int_small : (n : ℕ) → n < 2 ^ 31 → cast_int (pos n) ≡ pos n
cast_int_small n h = ground arith

-- One round writes the lowest digit.
ttoa_loop_last : (f n : ℕ) → n < 10 → ttoa_loop (suc f) (pos n) ≡ some ((b'0' + n % 10) ∷ [])
ttoa_loop_last f n small =
    let stop : (n / 10 == 0) ≡ true = ground arith in
    unfold ttoa_loop in
    rw (cast_int_small n (omega arith), num_at_digit (n % 10) (omega arith), stop)

ttoa_loop_more :
    (f n : ℕ)
    → n < 2 ^ 31
    → 10 ≤ n
    → ttoa_loop (suc f) (pos n)
      ≡ (do more ← ttoa_loop f (pos (n / 10)); some ((b'0' + n % 10) ∷ more))
ttoa_loop_more f n fits large =
    let go : (n / 10 == 0) ≡ false = ground arith in
    unfold ttoa_loop in rw (cast_int_small n fits, num_at_digit (n % 10) (omega arith), go)

-- The range of `int`.
pub cast_int_pos : (t : ℤ) (n : ℕ) → cast_int t ≡ pos n → n < 2 ^ 31
cast_int_pos (pos v) n e = ground arith
cast_int_pos (negsuc v) n e = ground arith

pub cast_int_negsuc : (t : ℤ) (n : ℕ) → cast_int t ≡ negsuc n → n < 2 ^ 31
cast_int_negsuc (pos v) n e = ground arith
cast_int_negsuc (negsuc v) n e = ground arith

ttoa_loop-digits_up :
    (f n : ℕ) → n < 2 ^ 31 → n < 10 ^ suc f → ttoa_loop (suc f) (pos n) ≡ some (digits_up (suc f) n)
ttoa_loop-digits_up zero n fits h =
    rw (ttoa_loop_last 0 n (omega arith), digits_up_last 0 n (omega arith))
ttoa_loop-digits_up (suc f) n fits h = elim (le_or_lt 10 n) [
  | inr small ↦ rw (ttoa_loop_last (suc f) n small, digits_up_last (suc f) n small)
  | inl large ↦ rw (
    ttoa_loop_more (suc f) n fits large,
    digits_up_more (suc f) n large,
    ttoa_loop-digits_up f (n / 10) (omega arith) (tenth_fits (suc f) n h),
  )
]

-- Only the low 32 bits of the value reach the loop.
ttoa_loop-cast_int :
    (f : ℕ) (value : ℤ) (n : ℕ)
    → cast_int value ≡ pos n
    → n < 2 ^ 31
    → ttoa_loop (suc f) value ≡ ttoa_loop (suc f) (pos n)
unfolding ttoa_loop
ttoa_loop-cast_int f value n low fits = rw (low, cast_int_small n fits)

ttoa_digits :
    (value : ℤ) (n : ℕ)
    → cast_int value ≡ pos n
    → n < 2 ^ 31
    → ttoa_loop 10 value ≡ some (digits_up 19 n)
ttoa_digits value n low fits =
    ttoa_loop-cast_int 9 value n low fits
    ∙ ttoa_loop-digits_up 9 n fits (omega arith)
    ∙ ap some (digits_up_fuel 9 18 n (omega arith) (omega arith))

-- Where `(int) value` is not negative.
pub ttoa_nonneg :
    (value : ℤ) (n : ℕ) → cast_int value ≡ pos n → n < 2 ^ 31 → ttoa value ≡ some (decimal n)
ttoa_nonneg value n low fits =
    let digits = ttoa_digits value n low fits in
    unfold ttoa in rw (low, digits, strreverse-reverse (digits_up 19 n))

cast_int-neg :
    (value : ℤ) (n : ℕ)
    → cast_int value ≡ negsuc n
    → suc n < 2 ^ 31
    → cast_int (neg value) ≡ pos (suc n)
cast_int-neg (pos v) n low fits = ground arith
cast_int-neg (negsuc v) n low fits = ground arith

-- Where it is negative and not the least `int`.
pub ttoa_negative :
    (value : ℤ) (n : ℕ)
    → cast_int value ≡ negsuc n
    → suc n < 2 ^ 31
    → ttoa value ≡ some (b'-' ∷ decimal (suc n))
ttoa_negative value n low fits =
    let digits = ttoa_digits (neg value) (suc n) (cast_int-neg value n low fits) fits in
    unfold ttoa in
    rw (
      low,
      digits,
      strreverse-reverse (digits_up 19 (suc n) ++ b'-' ∷ []),
      reverse-append (digits_up 19 (suc n)) (b'-' ∷ []),
    )

-- Where it is the least `int`, whose absolute value is no `int`.
pub ttoa_least : (value : ℤ) → cast_int value ≡ negsuc (2 ^ 31 - 1) → ttoa value ≡ none
ttoa_least value low = unfold ttoa in rw (low, first)
  where
    again :
        (value : ℤ)
        → cast_int value ≡ negsuc (2 ^ 31 - 1)
        → cast_int (neg value) ≡ negsuc (2 ^ 31 - 1)
    again (pos v) e = ground arith
    again (negsuc v) e = ground arith

    first : ttoa_loop 10 (neg value) ≡ none
    first = unfold ttoa_loop num_at in rw (again value low)

-- The decimal numeral of an `int`, but for the least.
abbrev pub numeral : ℤ → Option Bytes
numeral (pos n) = some (decimal n)
numeral (negsuc n) = if n == 2 ^ 31 - 1 then none else some (b'-' ∷ decimal (suc n))

-- For every time, hawkc_ttoa writes the decimal numeral of `(int) value`, with a minus sign for a
-- negative one; where that is the least `int`, it reads `num` out of range instead.
pub ttoa_lem : (value : ℤ) → ttoa value ≡ numeral (cast_int value)
ttoa_lem value = by_int (cast_int value) refl
  where
    by_int : (low : ℤ) → cast_int value ≡ low → ttoa value ≡ numeral low
    by_int (pos n) is = ttoa_nonneg value n is (cast_int_pos value n is)
    by_int (negsuc n) is = elim (Bool-cases (n == 2 ^ 31 - 1)) [
      | inl least ↦
          let n_is : n ≡ 2 ^ 31 - 1 = ground arith in
          rw least (ttoa_least value (is ∙ ap negsuc n_is))
      | inr other ↦
          let small : suc n < 2 ^ 31 = ground (arith, cast_int_negsuc value n is) in
          rw other (ttoa_negative value n is small)
    ]
