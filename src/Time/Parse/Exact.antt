-- ===== src/Time/Parse/Exact.antt =====
-- hawkc_parse_time of hawkc/common.c on every text: digits, a byte that is no digit, and a number
-- that does not fit `time_t`; and on what hawkc_ttoa writes.
use hawkc.Base.{
  ℕ, ◌+◌, ◌-◌, ◌*◌, ◌^◌, ◌<◌, ◌≤◌, lt→ltb, le→ltb, le_or_lt, ltb, if◌then◌else◌, inl, inr, true,
  false, ◌&&◌, ◌⊎◌, length, [], ◌∷◌, ◌++◌, Bytes, some, none, ◌≡◌, refl, ap, ◌∙◌, arith, append-nil,
}
use hawkc.Base.Int.{ℤ, pos}
use hawkc.Decimal.{is_digit, AllDigits, value, le-value, decimal, decimal_spells}
use hawkc.Outcome.{Action, done, failed, fault}
use hawkc.Context.{
  HawkcContext, HawkcString, FormatArg, load, fail, set_error, of_bytes, load-of_bytes,
}
use hawkc.Context.Error.{time_value_error}
use hawkc.Time.Ttoa.{ttoa}
use hawkc.Time.Ttoa.Length.{length-decimal_int}
use hawkc.Time.Ttoa.Numeral.{ttoa_nonneg, cast_int_small}
use hawkc.Time.Parse.{my_digittoint, shift_in, count_up, parse_digits, parse_time}

digit_value : (c : ℕ) → is_digit c ≡ true → my_digittoint c ≡ pos (c - b'0')
unfolding my_digittoint
digit_value c h = ground arith

shift_in_fits :
    (c v : ℕ)
    → is_digit c ≡ true
    → v * 10 + (c - b'0') < 2 ^ 63
    → shift_in (pos v) (my_digittoint c) ≡ some (pos (v * 10 + (c - b'0')))
shift_in_fits c v h fits = rw (digit_value c h) (unfold shift_in in rw (lt→ltb _ _ fits))

shift_in_overflow :
    (c v : ℕ)
    → is_digit c ≡ true
    → 2 ^ 63 ≤ v * 10 + (c - b'0')
    → shift_in (pos v) (my_digittoint c) ≡ none
shift_in_overflow c v h fits = rw (digit_value c h) (unfold shift_in in rw (le→ltb _ _ fits))

count_up_fits : (i : ℕ) → i + 1 < 2 ^ 31 → count_up i ≡ some (i + 1)
unfolding count_up
count_up_fits i h = rw (lt→ltb _ _ h)

count_up_overflow : (i : ℕ) → 2 ^ 31 ≤ i + 1 → count_up i ≡ none
unfolding count_up
count_up_overflow i h = rw (le→ltb _ _ h)

module _ (ts : HawkcString) (ctx : HawkcContext) where
  parse_digits_step :
      (i c : ℕ) (s : Bytes) (v : ℕ)
      → is_digit c ≡ true
      → v * 10 + (c - b'0') < 2 ^ 63
      → i + 1 < 2 ^ 31
      → parse_digits ts i (c ∷ s) (pos v) ctx
        ≡ parse_digits ts (i + 1) s (pos (v * 10 + (c - b'0'))) ctx
  parse_digits_step i c s v h fits counted =
      unfold parse_digits in rw (h, shift_in_fits c v h fits, count_up_fits i counted)

  -- Digits in front only move the number on.
  parse_digits-append :
      (i : ℕ) (good rest : Bytes) (v : ℕ)
      → AllDigits good
      → value v good < 2 ^ 63
      → i + length good < 2 ^ 31
      → parse_digits ts i (good ++ rest) (pos v) ctx
        ≡ parse_digits ts (i + length good) rest (pos (value v good)) ctx
  parse_digits-append i [] rest v h fits counted =
      ap (λ j. parse_digits ts j rest (pos v) ctx) (omega arith)
  parse_digits-append i (c ∷ good) rest v (hc, h) fits counted =
      let fits' : v * 10 + (c - b'0') < 2 ^ 63 =
        omega (arith, le-value good (v * 10 + (c - b'0'))) in
      parse_digits_step i c (good ++ rest) v hc fits' (omega arith)
      ∙ parse_digits-append (i + 1) good rest (v * 10 + (c - b'0')) h fits (omega arith)
      ∙ ap (λ j. parse_digits ts j rest (pos (value v (c ∷ good))) ctx) (omega arith)

  parse_digits_overflow :
      (i : ℕ) (s rest : Bytes) (v : ℕ)
      → AllDigits s
      → v < 2 ^ 63
      → i < 2 ^ 31
      → (2 ^ 63 ≤ value v s) ⊎ (2 ^ 31 ≤ i + length s)
      → parse_digits ts i (s ++ rest) (pos v) ctx ≡ fault
  parse_digits_overflow i [] rest v h small counted (inl large) = absurd (omega arith)
  parse_digits_overflow i [] rest v h small counted (inr long) = absurd (omega arith)
  parse_digits_overflow i (c ∷ s) rest v (hc, h) small counted large =
      elim (le_or_lt (2 ^ 63) (v * 10 + (c - b'0'))) [
        | inl over ↦ unfold parse_digits in rw (hc, shift_in_overflow c v hc over)
        | inr fits ↦ elim (le_or_lt (2 ^ 31) (i + 1)) [
          | inl full ↦
              unfold parse_digits in rw (hc, shift_in_fits c v hc fits, count_up_overflow i full)
          | inr more ↦
              parse_digits_step i c (s ++ rest) v hc fits more
              ∙ parse_digits_overflow (i + 1) s rest (v * 10 + (c - b'0')) h fits more
                  (elim large [ inl large ↦ inl large | inr long ↦ inr (omega arith) ])
        ]
      ]

-- Fewer than 2 ^ 31 digits whose number is below 2 ^ 63.
pub parse_time_complete :
    (ts : HawkcString) (ctx : HawkcContext) (s : Bytes)
    → load ctx ts ≡ some s
    → AllDigits s
    → value 0 s < 2 ^ 63
    → length s < 2 ^ 31
    → parse_time ts ctx ≡ done (pos (value 0 s)) ctx
parse_time_complete ts ctx s e h fits counted =
    let plain = parse_digits-append ts ctx 0 s [] 0 h fits (omega arith) in
    unfold parse_time in rw e ((rw append-nil at plain) ∙ (unfold parse_digits in refl))

-- Such digits with something else behind them.
parse_time-not_digit :
    (ts : HawkcString) (ctx : HawkcContext) (good rest : Bytes) (c : ℕ)
    → load ctx ts ≡ some (good ++ (c ∷ rest))
    → AllDigits good
    → value 0 good < 2 ^ 63
    → length good < 2 ^ 31
    → is_digit c ≡ false
    → parse_time ts ctx
      ≡ failed time_value_error (
          set_error ctx time_value_error
            (record { format = "'%.*s' is not a valid integer"; args = FormatArg.text ts ∷ [] }))
parse_time-not_digit ts ctx good rest c e h fits counted bad =
    unfold parse_time in
    rw (e, parse_digits-append ts ctx 0 good (c ∷ rest) 0 h fits (omega arith))
      (unfold parse_digits fail in rw bad)

-- Digits whose number is 2 ^ 63 or more, or 2 ^ 31 digits or more.
parse_time_overflow :
    (ts : HawkcString) (ctx : HawkcContext) (s rest : Bytes)
    → load ctx ts ≡ some (s ++ rest)
    → AllDigits s
    → (2 ^ 63 ≤ value 0 s) ⊎ (2 ^ 31 ≤ length s)
    → parse_time ts ctx ≡ fault
parse_time_overflow ts ctx s rest e h large =
    unfold parse_time in
    rw e (
      parse_digits_overflow ts ctx 0 s rest 0 h (omega arith) (omega arith)
        (elim large [ inl large ↦ inl large | inr long ↦ inr (omega arith) ]))

-- What stands behind the first digits of a text: nothing, or a byte that is no digit.
abbrev pub NoDigit : Bytes → Type 0
NoDigit [] = Unit
NoDigit (c ∷ rest) = is_digit c ≡ false

-- What a number with this text behind it is read as.
abbrev pub read_as : HawkcString → ℕ → Bytes → Action HawkcContext ℤ
read_as ts n [] ctx = done (pos n) ctx
read_as ts n (c ∷ rest) ctx = failed time_value_error (
    set_error ctx time_value_error
      (record { format = "'%.*s' is not a valid integer"; args = FormatArg.text ts ∷ [] }))

-- On a text of digits with nothing or a byte that is no digit behind them, hawkc_parse_time
-- overflows `time_t` where the digits' number is 2 ^ 63 or more, and its `int` counter where there
-- are 2 ^ 31 digits or more, zeros in front included; both are undefined behaviour. Otherwise it
-- gives that number and leaves the context alone where nothing stands behind the digits, and else
-- fails with HAWKC_TIME_VALUE_ERROR and a message that shows the text, setting only the error.
pub parse_time_lem :
    (ts : HawkcString) (ctx : HawkcContext) (digits rest : Bytes)
    → load ctx ts ≡ some (digits ++ rest)
    → AllDigits digits
    → NoDigit rest
    → parse_time ts ctx ≡ (
        if ltb (value 0 digits) (2 ^ 63) && ltb (length digits) (2 ^ 31)
        then read_as ts (value 0 digits) rest ctx
        else fault)
parse_time_lem ts ctx digits rest e h stop = elim (le_or_lt (2 ^ 63) (value 0 digits)) [
  | inl large ↦
      let over : ltb (value 0 digits) (2 ^ 63) ≡ false = le→ltb _ _ large in
      rw over (parse_time_overflow ts ctx digits rest e h (inl large))
  | inr small ↦
      let fits : ltb (value 0 digits) (2 ^ 63) ≡ true = lt→ltb _ _ small in
      elim (le_or_lt (2 ^ 31) (length digits)) [
        | inl long ↦
            let over : ltb (length digits) (2 ^ 31) ≡ false = le→ltb _ _ long in
            rw (fits, over) (parse_time_overflow ts ctx digits rest e h (inr long))
        | inr short ↦
            let counted : ltb (length digits) (2 ^ 31) ≡ true = lt→ltb _ _ short in
            rw (fits, counted) (read rest e stop small short)
      ]
]
  where
    read :
        (rest : Bytes)
        → load ctx ts ≡ some (digits ++ rest)
        → NoDigit rest
        → value 0 digits < 2 ^ 63
        → length digits < 2 ^ 31
        → parse_time ts ctx ≡ read_as ts (value 0 digits) rest ctx
    read [] e stop small short =
        parse_time_complete ts ctx digits (e ∙ ap some (append-nil digits)) h small short
    read (c ∷ rest) e stop small short =
        parse_time-not_digit ts ctx digits rest c e h small short stop

-- For a time from 0 to 2 ^ 31 - 1 hawkc_ttoa writes a text that hawkc_parse_time reads as that
-- time, leaving the context alone.
pub parse_time-ttoa :
    (n : ℕ) (ctx : HawkcContext)
    → n < 2 ^ 31
    → (s : Bytes) × (ttoa (pos n) ≡ some s) × (parse_time (of_bytes s) ctx ≡ done (pos n) ctx)
parse_time-ttoa n ctx h =
    let (digits, spells) = decimal_spells n (omega arith) in
    (
      decimal n,
      ttoa_nonneg (pos n) n (cast_int_small n h) h,
      parse_time_complete (of_bytes (decimal n)) ctx (decimal n) (load-of_bytes ctx (decimal n))
            digits (omega (arith, spells)) (omega (arith, length-decimal_int n h))
          ∙ ap (λ v. done (pos v) ctx) spells,
    )
