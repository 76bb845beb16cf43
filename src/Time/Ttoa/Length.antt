-- ===== src/Time/Ttoa/Length.antt =====
-- How the length of what hawkc_ttoa writes compares with hawkc_number_of_digits.
use hawkc.Base.{
  ℕ, zero, suc, ◌+◌, ◌-◌, ◌*◌, ◌/◌, ◌^◌, ◌<◌, ◌≤◌, le_or_lt, inl, inr, ◌∷◌, Bytes, length, some,
  ◌≡◌, refl, ap, sym, ◌∙◌, arith,
}
use hawkc.Base.Int.{ℤ, pos, negsuc, pos_part, neg_part, cast_int, quot}
use hawkc.Decimal.{
  digits_up, digits_up_fuel, decimal, width, width-zero, width_more, length-digits_up,
  length-reverse, width_bounds,
}
use hawkc.Time.Ttoa.{count_digits, number_of_digits, ttoa}
use hawkc.Time.Ttoa.Numeral.{
  ttoa_nonneg, ttoa_negative, ttoa_least, cast_int_pos, cast_int_negsuc, cast_int_small,
}

abbrev pub magnitude : ℤ → ℕ
magnitude t = pos_part t + neg_part t

magnitude-quot : (t : ℤ) → magnitude (quot t 10) ≡ magnitude t / 10
magnitude-quot (pos n) = ground arith
magnitude-quot (negsuc n) = ground arith

count_digits_more :
    (f : ℕ) (t : ℤ) (count : ℕ)
    → 0 < magnitude t
    → count_digits (suc f) t count ≡ count_digits f (quot t 10) (count + 1)
unfolding count_digits
count_digits_more f (pos n) count h = ground arith
count_digits_more f (negsuc n) count h = refl

count_digits-width :
    (f : ℕ) (t : ℤ) (count : ℕ) → count_digits f t count ≡ count + width f (magnitude t)
count_digits-width zero t count = unfold count_digits width in omega arith
count_digits-width (suc f) t count = elim (le_or_lt 1 (magnitude t)) [
  | inl some_left ↦
      rw
        (
          count_digits_more f t count some_left,
          count_digits-width f (quot t 10) (count + 1),
          magnitude-quot t,
          width_more f (magnitude t) some_left,
        )
        (omega arith)
  | inr none_left ↦ nothing t none_left
]
  where
    nothing :
        (t : ℤ)
        → magnitude t < 1
        → count_digits (suc f) t count ≡ count + width (suc f) (magnitude t)
    nothing (pos zero) h = unfold count_digits width in omega arith
    nothing (pos (suc n)) h = absurd (omega arith)
    nothing (negsuc n) h = absurd (omega arith)

number_of_digits-width : (t : ℤ) → number_of_digits t ≡ width 19 (magnitude t)
unfolding number_of_digits
number_of_digits-width t = count_digits-width 19 t 0 ∙ omega arith

-- For a time whose absolute value is below 10 ^ 19, hawkc_number_of_digits is the least exponent
-- of a power of ten above the absolute value; it is 0 for the time 0.
pub number_of_digits_bounds :
    (t : ℤ)
    → magnitude t < 10 ^ 19
    → (magnitude t < 10 ^ number_of_digits t)
      × (0 < magnitude t → 10 ^ number_of_digits t ≤ 10 * magnitude t)
      × (magnitude t ≡ 0 → number_of_digits t ≡ 0)
number_of_digits_bounds t h =
    let (above, below) = width_bounds 19 (magnitude t) h in
    rw (number_of_digits-width t) (above, below, λ e. rw (e, width-zero 19))

length-decimal :
    (n : ℕ) (t : ℤ)
    → magnitude t ≡ n
    → n < 10 ^ 19
    → 0 < n
    → length (decimal n) ≡ number_of_digits t
length-decimal n t e h p =
    length-reverse (digits_up 19 n)
    ∙ length-digits_up 18 n h p
    ∙ sym (number_of_digits-width t ∙ ap (width 19) e)

-- The numbers whose text is one character longer than hawkc_number_of_digits says.
abbrev pub one_more : ℤ → ℕ
one_more (pos zero) = 1
one_more (pos (suc n)) = 0
one_more (negsuc n) = 1

-- For a time that fits `int`, hawkc_ttoa writes as many characters as hawkc_number_of_digits
-- counts, and one more for zero and for negative times.
pub length-ttoa :
    (t : ℤ)
    → magnitude t < 2 ^ 31
    → (s : Bytes) × (ttoa t ≡ some s) × (length s ≡ number_of_digits t + one_more t)
length-ttoa (pos zero) h =
    (decimal 0, ttoa_nonneg (pos 0) 0 refl (omega arith), unfold number_of_digits digits_up in refl)
length-ttoa (pos (suc n)) h = (
  decimal (suc n),
  ttoa_nonneg (pos (suc n)) (suc n) (cast_int_small (suc n) (omega arith)) (omega arith),
  length-decimal (suc n) (pos (suc n)) (omega arith) (omega arith) (omega arith) ∙ omega arith,
)
length-ttoa (negsuc n) h = (
  b'-' ∷ decimal (suc n),
  ttoa_negative (negsuc n) n (ground arith) (omega arith),
  omega (arith, length-decimal (suc n) (negsuc n) (omega arith) (omega arith) (omega arith)),
)

length-digits_up_le : (f n : ℕ) → length (digits_up f n) ≤ f
unfolding digits_up
length-digits_up_le zero n = omega arith
length-digits_up_le (suc f) n = ground (arith, length-digits_up_le f (n / 10))

pub length-decimal_int : (n : ℕ) → n < 2 ^ 31 → length (decimal n) ≤ 10
length-decimal_int n h = omega (
  arith,
  length-reverse (digits_up 19 n),
  ap length (digits_up_fuel 9 18 n (omega arith) (omega arith)),
  length-digits_up_le 10 n,
)

-- Whatever the time, what hawkc_ttoa writes has at most eleven characters.
pub length-ttoa_le : (t : ℤ) (s : Bytes) → ttoa t ≡ some s → length s ≤ 11
length-ttoa_le t s e = by_int (cast_int t) refl
  where
    by_int : (v : ℤ) → cast_int t ≡ v → length s ≤ 11
    by_int (pos n) low =
        let fits = cast_int_pos t n low in
        ground (arith, ttoa_nonneg t n low fits, length-decimal_int n fits)
    by_int (negsuc n) low = elim (le_or_lt (2 ^ 31 - 1) n) [
      | inl least ↦
          let n_is : n ≡ 2 ^ 31 - 1 = omega (arith, cast_int_negsuc t n low) in
          ground (arith, ttoa_least t (low ∙ ap negsuc n_is))
      | inr fits ↦
          ground
            (arith, ttoa_negative t n low (omega arith), length-decimal_int (suc n) (omega arith))
    ]
