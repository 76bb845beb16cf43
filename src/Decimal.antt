-- ===== src/Decimal.antt =====
-- Decimal numerals, independently of the loops of hawkc/common.c: the digits of a number, the
-- number that digits spell, and that the two fit.
use hawkc.Base.{
  ℕ, zero, suc, ◌+◌, ◌-◌, ◌*◌, ◌/◌, ◌%◌, ◌^◌, ◌<◌, ◌≤◌, if◌then◌else◌, le_or_lt, ◌==◌, Bool-cases,
  inl, inr, true, false, [], ◌∷◌, ◌++◌, Bytes, length, reverse, All, All-append, ◌≡◌, refl, ap, ◌∙◌,
  arith, length-append, leb, ◌&&◌, Bool,
}
use mathlib.Core.List.{reverse-cons}
use native.Mathlib.Nat.{pow-suc}

abbrev pub is_digit : ℕ → Bool
is_digit c = leb b'0' c && leb c b'9'

abbrev pub AllDigits : Bytes → Type 0
AllDigits = All (λ c. is_digit c ≡ true)

-- The number that a text spells behind `n`.
abbrev pub value : ℕ → Bytes → ℕ
value n [] = n
value n (c ∷ s) = value (n * 10 + (c - b'0')) s

-- The digits of `n`, lowest first, and up to `fuel` of them.
unfoldable pub digits_up : ℕ → ℕ → Bytes
digits_up zero n = []
digits_up (suc fuel) n =
    let rest = digits_up fuel (n / 10) in (b'0' + n % 10) ∷ (if n / 10 == 0 then [] else rest)

-- The decimal numeral of `n`, for `n` below 10 ^ 19.
abbrev pub decimal : ℕ → Bytes
decimal n = reverse (digits_up 19 n)

pub tenth_fits : (f n : ℕ) → n < 10 ^ suc f → n / 10 < 10 ^ f
tenth_fits f n h = omega (arith, pow-suc 10 f)

value-snoc : (s : Bytes) (n c : ℕ) → value n (s ++ c ∷ []) ≡ value n s * 10 + (c - b'0')
value-snoc [] n c = refl
value-snoc (d ∷ s) n c = value-snoc s (n * 10 + (d - b'0')) c

pub le-value : (digits : Bytes) (start : ℕ) → start ≤ value start digits
le-value [] start = omega arith
le-value (d ∷ digits) start =
    let rest = le-value digits (start * 10 + (d - b'0')) in omega (arith, rest)

pub digits_up_last : (f n : ℕ) → n < 10 → digits_up (suc f) n ≡ (b'0' + n % 10) ∷ []
unfolding digits_up
digits_up_last f n h = ground arith

pub digits_up_more :
    (f n : ℕ) → 10 ≤ n → digits_up (suc f) n ≡ (b'0' + n % 10) ∷ digits_up f (n / 10)
digits_up_more f n h =
    let more : (n / 10 == 0) ≡ false = ground arith in unfold digits_up in rw more

-- More fuel than enough makes no difference.
pub digits_up_fuel :
    (f g n : ℕ) → n < 10 ^ suc f → n < 10 ^ suc g → digits_up (suc f) n ≡ digits_up (suc g) n
digits_up_fuel zero g n h k =
    rw (digits_up_last 0 n (omega arith), digits_up_last g n (omega arith))
digits_up_fuel (suc f) zero n h k =
    rw (digits_up_last (suc f) n (omega arith), digits_up_last 0 n (omega arith))
digits_up_fuel (suc f) (suc g) n h k = elim (le_or_lt 10 n) [
  | inr small ↦ rw (digits_up_last (suc f) n small, digits_up_last (suc g) n small)
  | inl large ↦
      rw (digits_up_more (suc f) n large, digits_up_more (suc g) n large)
        (ap (◌∷◌ (b'0' + n % 10))
          (digits_up_fuel f g (n / 10) (tenth_fits (suc f) n h) (tenth_fits (suc g) n k)))
]

value-digits_up : (f n : ℕ) → n < 10 ^ suc f → value 0 (reverse (digits_up (suc f) n)) ≡ n
value-digits_up zero n h = rw (digits_up_last 0 n (omega arith)) (omega arith)
value-digits_up (suc f) n h = elim (le_or_lt 10 n) [
  | inr small ↦ rw (digits_up_last (suc f) n small) (omega arith)
  | inl large ↦
      rw
        (
          digits_up_more (suc f) n large,
          reverse-cons _ _,
          value-snoc,
          value-digits_up f (n / 10) (tenth_fits (suc f) n h),
        )
        (omega arith)
]

pub length-reverse : (s : Bytes) → length (reverse s) ≡ length s
length-reverse [] = refl
length-reverse (x ∷ s) =
    ap length (reverse-cons x s)
    ∙ omega (arith, length-append (reverse s) (x ∷ []), length-reverse s)

digit_of_rem : (n : ℕ) → is_digit (b'0' + n % 10) ≡ true
digit_of_rem n = ground arith

AllDigits-reverse : (s : Bytes) → AllDigits s → AllDigits (reverse s)
AllDigits-reverse [] h = tt
AllDigits-reverse (x ∷ s) (hx, hs) =
    rw (reverse-cons x s) (All-append _ (reverse s) (x ∷ []) (AllDigits-reverse s hs) (hx, tt))

AllDigits-digits_up : (f n : ℕ) → AllDigits (digits_up f n)
unfolding digits_up
AllDigits-digits_up zero n = tt
AllDigits-digits_up (suc f) n = elim (Bool-cases (n / 10 == 0)) [
  | inl last ↦ rw last (digit_of_rem n, tt)
  | inr more ↦ rw more (digit_of_rem n, AllDigits-digits_up f (n / 10))
]

-- What `decimal` promises: digits only, and they spell the number.
pub decimal_spells : (n : ℕ) → n < 10 ^ 19 → AllDigits (decimal n) × (value 0 (decimal n) ≡ n)
decimal_spells n h = (AllDigits-reverse _ (AllDigits-digits_up 19 n), value-digits_up 18 n h)

-- The number of digits of `n`, and none for 0.
unfoldable pub width : ℕ → ℕ → ℕ
width zero n = 0
width (suc fuel) n = let rest = width fuel (n / 10) in if n == 0 then 0 else rest + 1

pub width-zero : (f : ℕ) → width f 0 ≡ 0
unfolding width
width-zero zero = refl
width-zero (suc f) = refl

pub width_more : (f n : ℕ) → 0 < n → width (suc f) n ≡ suc (width f (n / 10))
unfolding width
width_more f n h = ground arith

tenth_zero : (n : ℕ) → n < 10 → n / 10 ≡ 0
tenth_zero n h = omega arith

-- Where the fuel is enough, the width is the exponent of the least power of ten above `n`.
pub width_bounds : (f n : ℕ) → n < 10 ^ f → (n < 10 ^ width f n) × (0 < n → 10 ^ width f n ≤ 10 * n)
width_bounds zero n h = (unfold width in h, λ p. absurd (omega arith))
width_bounds (suc f) zero h = rw (width-zero (suc f)) (omega arith, λ p. absurd (omega arith))
width_bounds (suc f) (suc m) h =
    let n : ℕ = suc m in
    let (above, below) = width_bounds f (n / 10) (tenth_fits f n h) in
    rw (width_more f (suc m) (omega arith)) (
      omega (arith, pow-suc 10 (width f (n / 10))),
      λ p. (elim (le_or_lt 10 n) [
        | inr small ↦ rw (tenth_zero n small, width-zero f) (omega arith)
        | inl large ↦ omega (arith, pow-suc 10 (width f (n / 10)), below (omega arith))
      ]),
    )

pub length-digits_up :
    (f n : ℕ) → n < 10 ^ suc f → 0 < n → length (digits_up (suc f) n) ≡ width (suc f) n
length-digits_up zero n h p =
    rw
      (digits_up_last 0 n (omega arith), width_more 0 n p, tenth_zero n (omega arith), width-zero 0)
length-digits_up (suc f) n h p = elim (le_or_lt 10 n) [
  | inr small ↦ rw (
    digits_up_last (suc f) n small,
    width_more (suc f) n p,
    tenth_zero n small,
    width-zero (suc f),
  )
  | inl large ↦
      rw (digits_up_more (suc f) n large, width_more (suc f) n p)
        (ap suc (length-digits_up f (n / 10) (tenth_fits (suc f) n h) (omega arith)))
]
