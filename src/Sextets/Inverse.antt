-- ===== src/Sextets/Inverse.antt =====
-- The expressions of Sextets as plain arithmetic: six-bit values stay below 64, and joining them
-- again gives the bytes that they came from.
use hawkc.Base.{
  ℕ, ◌+◌, ◌*◌, ◌/◌, ◌%◌, ◌<◌, ◌≡◌, refl, arith, bit_and_masks, bit_or_two, bit_or_four, bit_or_six,
}
use hawkc.Sextets.{
  sextet0, sextet1, sextet2, sextet3, last_sextet1, last_sextet2, octet0, octet1, octet2, pad_of,
}

pub sextet0_arith : (a : ℕ) → sextet0 a ≡ a / 4
unfolding sextet0
sextet0_arith a = omega arith

pub sextet1_arith : (a b : ℕ) → a < 256 → sextet1 a b ≡ a % 4 * 16 + b / 16
unfolding sextet1
sextet1_arith a b h = omega (arith, bit_and_masks a h)

pub sextet2_arith : (b c : ℕ) → b < 256 → sextet2 b c ≡ b % 16 * 4 + c / 64
unfolding sextet2
sextet2_arith b c h = omega (arith, bit_and_masks b h)

pub sextet3_arith : (c : ℕ) → c < 256 → sextet3 c ≡ c % 64
unfolding sextet3
sextet3_arith c h = omega (arith, bit_and_masks c h)

pub last_sextet1_lem : (a : ℕ) → last_sextet1 a ≡ sextet1 a 0
unfolding last_sextet1 sextet1
last_sextet1_lem a = omega arith

pub last_sextet2_lem : (b : ℕ) → last_sextet2 b ≡ sextet2 b 0
unfolding last_sextet2 sextet2
last_sextet2_lem b = omega arith

pub octet0_arith : (a b : ℕ) → a < 64 → b < 64 → octet0 a b ≡ a * 4 + b / 16
unfolding octet0
octet0_arith a b ha hb = omega (arith, bit_or_two a (b / 16) ha (omega arith))

pub octet1_arith : (b c : ℕ) → b < 64 → c < 64 → octet1 b c ≡ (b * 16 + c / 4) % 256
unfolding octet1
octet1_arith b c hb hc = omega (arith, bit_or_four b (c / 4) hb (omega arith))

pub octet2_arith : (c d : ℕ) → c < 64 → d < 64 → octet2 c d ≡ (c * 64 + d) % 256
unfolding octet2
octet2_arith c d hc hd = omega (arith, bit_or_six c d hc hd)

module _ (a b c : ℕ) (ha : a < 256) (hb : b < 256) (hc : c < 256) where
  pub sextets-lt : (sextet0 a < 64) × (sextet1 a b < 64) × (sextet2 b c < 64) × (sextet3 c < 64)
  sextets-lt =
      omega (arith, sextet0_arith a, sextet1_arith a b ha, sextet2_arith b c hb, sextet3_arith c hc)

  -- Three bytes survive the way through four six-bit values.
  pub octets-sextets :
      (octet0 (sextet0 a) (sextet1 a b) ≡ a)
      × (octet1 (sextet1 a b) (sextet2 b c) ≡ b)
      × (octet2 (sextet2 b c) (sextet3 c) ≡ c)
  octets-sextets = (
    rw (octet0_arith _ _ (sextets-lt.0) (sextets-lt.1), sextet0_arith a, sextet1_arith a b ha)
        (omega arith),
    rw (octet1_arith _ _ (sextets-lt.1) (sextets-lt.2), sextet1_arith a b ha, sextet2_arith b c hb)
        (omega arith),
    rw (octet2_arith _ _ (sextets-lt.2) (sextets-lt.3), sextet2_arith b c hb, sextet3_arith c hc)
        (omega arith),
  )

-- The bit trick of the encoders is `(3 - n % 3) % 3`.
pub pad_of_values : (pad_of 0 ≡ 0) × (pad_of 1 ≡ 2) × (pad_of 2 ≡ 1)
unfolding pad_of
pad_of_values = (refl, refl, refl)
