-- ===== src/Base/Tables.antt =====
-- Facts over small ranges, checked value by value: masks of a byte, and `|` of bit fields that
-- do not overlap.
use Prim.Native.Nat.{ℕ, zero, suc, ◌+◌, ◌*◌, ◌%◌, ◌<◌, bit_and, bit_or}
use mathlib.Core.Path.{◌≡◌, refl}
use mathlib.Core.Bool.{Bool, true, ◌&&◌}
use native.Mathlib.Omega.{arith}
use hawkc.Base.Tests.{◌==◌, ==_iff}

-- The test at `bound - 1`, and so on down to 0.
unfoldable pub all_below : ℕ → (ℕ → Bool) → Bool
all_below zero test = true
all_below (suc last) test = test last && all_below last test

pub all_below_sound :
    (bound : ℕ) (test : ℕ → Bool) (v : ℕ) → all_below bound test ≡ true → v < bound → test v ≡ true
unfolding all_below
all_below_sound zero test v table below = absurd (omega arith)
all_below_sound (suc last) test v table below = ground (arith, all_below_sound last test v)

-- A test that holds at all pairs below two bounds.
pub all_pairs_sound :
    (n m : ℕ) (p : ℕ → ℕ → Bool) (x y : ℕ)
    → all_below n (λ a. all_below m (p a)) ≡ true
    → x < n
    → y < m
    → p x y ≡ true
all_pairs_sound n m p x y h hx hy =
    all_below_sound m (p x) y (all_below_sound n (λ a. all_below m (p a)) x h hx) hy

mask_table :
    all_below 256
      (λ b. (bit_and 0x3 b == b % 4) && (bit_and 0x0f b == b % 16) && (bit_and 0x3f b == b % 64))
    ≡ true
unfolding all_below
mask_table = refl

-- The masks of the base64 and hex encoders are remainders.
pub bit_and_masks :
    (b : ℕ)
    → b < 256
    → (bit_and 0x3 b ≡ b % 4) × (bit_and 0x0f b ≡ b % 16) × (bit_and 0x3f b ≡ b % 64)
bit_and_masks b h = ground (arith, all_below_sound 256 _ b mask_table h)

nibble_table : all_below 256 (λ b. (bit_and b 0xff == b) && (bit_and b 0x0f == b % 16)) ≡ true
unfolding all_below
nibble_table = refl

pub bit_and_nibble : (b : ℕ) → b < 256 → (bit_and b 0xff ≡ b) × (bit_and b 0x0f ≡ b % 16)
bit_and_nibble b h = ground (arith, all_below_sound 256 _ b nibble_table h)

abbrev fields : ℕ → ℕ → ℕ → Bool
fields k a r = bit_or (a * k) r == a * k + r

fields_four : all_below 64 (λ a. all_below 4 (fields 4 a)) ≡ true
unfolding all_below
fields_four = refl

fields_sixteen : all_below 64 (λ a. all_below 16 (fields 16 a)) ≡ true
unfolding all_below
fields_sixteen = refl

fields_sixty_four : all_below 64 (λ a. all_below 64 (fields 64 a)) ≡ true
unfolding all_below
fields_sixty_four = refl

-- `|` joins a six-bit value, shifted by 2, 4 or 6 places, with a value that fits below it.
pub bit_or_two : (a r : ℕ) → a < 64 → r < 4 → bit_or (a * 4) r ≡ a * 4 + r
bit_or_two a r ha hr = (==_iff _ _).0 (all_pairs_sound 64 4 (fields 4) a r fields_four ha hr)

pub bit_or_four : (a r : ℕ) → a < 64 → r < 16 → bit_or (a * 16) r ≡ a * 16 + r
bit_or_four a r ha hr = (==_iff _ _).0 (all_pairs_sound 64 16 (fields 16) a r fields_sixteen ha hr)

pub bit_or_six : (a r : ℕ) → a < 64 → r < 64 → bit_or (a * 64) r ≡ a * 64 + r
bit_or_six a r ha hr =
    (==_iff _ _).0 (all_pairs_sound 64 64 (fields 64) a r fields_sixty_four ha hr)
