-- ===== src/Base/Words.antt =====
-- C's unsigned arithmetic: `size_t` has 64 bits, a stored `unsigned char` keeps 8.
use Prim.Native.Nat.{ℕ, ◌+◌, ◌-◌, ◌*◌, ◌/◌, ◌%◌, ◌^◌, ◌<◌}
use mathlib.Core.Path.{◌≡◌}
use native.Mathlib.Omega.{arith}

abbrev pub u64 : ℕ → ℕ
u64 n = n % 2 ^ 64

abbrev pub u8 : ℕ → ℕ
u8 n = n % 2 ^ 8

-- a - b of two `size_t` values.
abbrev pub sub64 : ℕ → ℕ → ℕ
sub64 a b = (a + 2 ^ 64 - b) % 2 ^ 64

infixl 75 ◌<<<◌ ◌>>>◌
abbrev pub ◌<<<◌ : ℕ → ℕ → ℕ
x <<< k = x * 2 ^ k

abbrev pub ◌>>>◌ : ℕ → ℕ → ℕ
x >>> k = x / 2 ^ k

-- A number that fits is kept.
pub u64_same : {n m : ℕ} → n ≡ m → m < 2 ^ 64 → u64 n ≡ m
u64_same same fits = omega arith
