-- ===== src/Compare/Exact.antt =====
-- hawkc_fixed_time_equal decides equality, for lengths that fit `int`.
use hawkc.Base.{
  equal, equal_iff, ℕ, zero, suc, ◌+◌, ◌^◌, ◌<◌, ◌≤◌, if◌then◌else◌, ◌==◌, not, ◌&&◌, Bool, true,
  false, [], ◌∷◌, ◌++◌, some, Bytes, length, ◌≡◌, refl, ap, ◌∙◌, arith, ◌↔◌,
}
use hawkc.Base.Int.{pos, cast_int, ltb_ℤ}
use hawkc.Compare.{fixed_time_loop, fixed_time_equal}

in_range :
    (i len : ℕ) → i < len → len < 2 ^ 31 → ltb_ℤ (cast_int (pos i)) (cast_int (pos len)) ≡ true
in_range i len h fits = ground arith

loop_step :
    (fuel i len x y : ℕ) (a b : Bytes) (so_far : Bool)
    → i < len
    → len < 2 ^ 31
    → fixed_time_loop (suc fuel) i len (x ∷ a) (y ∷ b) so_far
      ≡ fixed_time_loop fuel (i + 1) len a b (if not (x == y) then false else so_far)
loop_step fuel i len x y a b so_far h fits = unfold fixed_time_loop in rw (in_range i len h fits)

loop_stop :
    (fuel i len : ℕ) (a b : Bytes) (so_far : Bool)
    → ltb_ℤ (cast_int (pos i)) (cast_int (pos len)) ≡ false
    → fixed_time_loop fuel i len a b so_far ≡ some so_far
unfolding fixed_time_loop
loop_stop zero i len a b so_far h = refl
loop_stop (suc fuel) i len [] b so_far h = rw h
loop_stop (suc fuel) i len (x ∷ a) [] so_far h = rw h
loop_stop (suc fuel) i len (x ∷ a) (y ∷ b) so_far h = rw h

loop-equal :
    (a b more_a more_b : Bytes) (i len : ℕ) (so_far : Bool)
    → length a ≡ length b
    → i + length a ≡ len
    → len < 2 ^ 31
    → fixed_time_loop (length a) i len (a ++ more_a) (b ++ more_b) so_far
      ≡ some (equal a b && so_far)
loop-equal [] [] more_a more_b i len so_far e n fits = unfold fixed_time_loop in refl
loop-equal [] (y ∷ b) more_a more_b i len so_far e n fits = absurd (omega arith)
loop-equal (x ∷ a) [] more_a more_b i len so_far e n fits = absurd (omega arith)
loop-equal (x ∷ a) (y ∷ b) more_a more_b i len so_far e n fits =
    let rest =
      loop-equal a b more_a more_b (i + 1) len (if not (x == y) then false else so_far)
        (omega arith) (omega arith) fits in
    loop_step (length a) i len x y (a ++ more_a) (b ++ more_b) so_far (omega arith) fits
    ∙ rest
    ∙ ap some (ground arith)

-- Of two byte strings of one length below 2 ^ 31 hawkc_fixed_time_equal says that they are equal
-- exactly when they are, whatever stands behind them.
pub fixed_time_equal_lem :
    (a b more_a more_b : Bytes)
    → length a ≡ length b
    → length a < 2 ^ 31
    → (r : Bool) × (fixed_time_equal (a ++ more_a) (b ++ more_b) (length a) ≡ some r)
      × ((r ≡ true) ↔ (a ≡ b))
unfolding fixed_time_equal
fixed_time_equal_lem a b more_a more_b e fits = (
  equal a b,
  loop-equal a b more_a more_b 0 (length a) true e (omega arith) fits ∙ ap some (ground arith),
  equal_iff a b,
)

-- For a length from 2 ^ 31 to 2 ^ 32 - 1 hawkc_fixed_time_equal compares nothing, and says that
-- the strings are equal.
pub fixed_time_equal_negative :
    (a b : Bytes) (len : ℕ) → 2 ^ 31 ≤ len → len < 2 ^ 32 → fixed_time_equal a b len ≡ some true
unfolding fixed_time_equal
fixed_time_equal_negative a b len lo hi = loop_stop len 0 len a b true (ground arith)
