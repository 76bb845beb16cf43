-- ===== src/Hex/Inverse.antt =====
-- The hex text of hawkc/common.c has two digits for each byte, and determines the bytes:
-- hawkc_my_digittoint reads the digits.
use hawkc.Base.{
  ℕ, ◌+◌, ◌*◌, ◌/◌, ◌%◌, ◌<◌, true, ◌==◌, [], ◌∷◌, Bytes, length, get_or, IsBytes, all_below,
  all_below_sound, bit_and_nibble, ◌≡◌, refl, ap₂, arith,
}
use hawkc.Base.Int.{pos_part}
use hawkc.Hex.{hex, bytes_to_hex}
use hawkc.Time.Parse.{my_digittoint}

-- Pairs of digits, read by hawkc_my_digittoint.
abbrev pub read_hex : Bytes → Bytes
read_hex (h ∷ l ∷ s) = (pos_part (my_digittoint h) * 16 + pos_part (my_digittoint l)) ∷ read_hex s
read_hex _ = []

digit_table : all_below 16 (λ i. pos_part (my_digittoint (get_or hex i 0)) == i) ≡ true
unfolding all_below my_digittoint
digit_table = refl

digit_back : (i : ℕ) → i < 16 → pos_part (my_digittoint (get_or hex i 0)) ≡ i
digit_back i h = ground (arith, all_below_sound 16 _ i digit_table h)

-- The text that hawkc_bytes_to_hex writes has two characters for each byte, and an independent
-- reader of hexadecimal digits gets the bytes back from it.
pub read_hex-bytes_to_hex :
    (bs : Bytes)
    → IsBytes bs
    → (read_hex (bytes_to_hex bs) ≡ bs) × (length (bytes_to_hex bs) ≡ 2 * length bs)
unfolding bytes_to_hex
read_hex-bytes_to_hex [] h = (refl, refl)
read_hex-bytes_to_hex (b ∷ bs) (hb, h) =
    let (same, twice) = read_hex-bytes_to_hex bs h in
    let (whole, low) = bit_and_nibble b hb in
    rw (whole, low, digit_back (b / 16) (omega arith), digit_back (b % 16) (omega arith))
      (ap₂ ◌∷◌ (omega arith) same, omega arith)
