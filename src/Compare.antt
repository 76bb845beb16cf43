-- ===== src/Compare.antt =====
-- hawkc_fixed_time_equal of hawkc/common.c.
use hawkc.Base.{
  ℕ, zero, suc, ◌+◌, if◌then◌else◌, ◌==◌, not, Bool, true, false, [], ◌∷◌, Option, none, some,
  Bytes,
}
use hawkc.Base.Int.{pos, cast_int, ltb_ℤ}
pub mod Exact

-- `for (i = 0; (int) i < (int) len; i++)` from `lhs + i` and `rhs + i` on. `none` is a read out of
-- range. As many rounds as `len` says are enough.
unfoldable pub fixed_time_loop : ℕ → ℕ → ℕ → Bytes → Bytes → Bool → Option Bool
fixed_time_loop zero i len lhs rhs equal = some equal
fixed_time_loop (suc fuel) i len [] rhs equal =
    if ltb_ℤ (cast_int (pos i)) (cast_int (pos len)) then none else some equal
fixed_time_loop (suc fuel) i len (l ∷ lhs) [] equal =
    if ltb_ℤ (cast_int (pos i)) (cast_int (pos len)) then none else some equal
fixed_time_loop (suc fuel) i len (l ∷ lhs) (r ∷ rhs) equal =
    let rest = fixed_time_loop fuel (i + 1) len lhs rhs (if not (l == r) then false else equal) in
    if ltb_ℤ (cast_int (pos i)) (cast_int (pos len)) then rest else some equal

unfoldable pub fixed_time_equal : Bytes → Bytes → ℕ → Option Bool
fixed_time_equal lhs rhs len = fixed_time_loop len 0 len lhs rhs true
