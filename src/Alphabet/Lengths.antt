-- ===== src/Alphabet/Lengths.antt =====
-- How far the decoders of hawkc/base64.c and hawkc/base64url.c read on any text, and how much they
-- write.
use hawkc.Base.{
  ℕ, zero, suc, ◌+◌, ◌-◌, ◌*◌, ◌<◌, ◌≤◌, leb, true, false, [], ◌∷◌, ◌++◌, some, none, Bytes, length,
  length-append, ◌≡◌, refl, arith,
}
use hawkc.Sextets.{octet0, octet1, octet2}
use hawkc.Alphabet.{Alphabet, decode_loop, decode_tail}

-- The bytes of the last group, by `pad`.
abbrev pub last_bytes : ℕ → ℕ
last_bytes (suc zero) = 2
last_bytes (suc (suc zero)) = 1
last_bytes pad = 0

-- The characters that it is read from.
abbrev pub last_chars : ℕ → ℕ
last_chars (suc zero) = 3
last_chars (suc (suc zero)) = 2
last_chars pad = 0

module _ (t : Alphabet) where
  -- After `j` rounds `r` characters are left; the test sees `m` of them.
  pub length-decode_loop :
      (j r m pad left : ℕ) (s bin : Bytes)
      → length s ≡ 4 * j + r
      → left ≡ 4 * j + m
      → pad ≤ m
      → m < 4 + pad
      → let scanned = decode_loop t pad left s bin in
        (length scanned.0 ≡ length bin + 3 * j) × (length scanned.1 ≡ r)
  unfolding decode_loop
  length-decode_loop zero r m pad left (c0 ∷ c1 ∷ c2 ∷ c3 ∷ s) bin size at low high =
      let stop : leb (4 + pad) left ≡ false = ground arith in rw stop (omega arith, omega arith)
  length-decode_loop zero r m pad left [] bin size at low high = (omega arith, omega arith)
  length-decode_loop zero r m pad left (c0 ∷ []) bin size at low high = (omega arith, omega arith)
  length-decode_loop zero r m pad left (c0 ∷ c1 ∷ []) bin size at low high =
      (omega arith, omega arith)
  length-decode_loop zero r m pad left (c0 ∷ c1 ∷ c2 ∷ []) bin size at low high =
      (omega arith, omega arith)
  length-decode_loop (suc j) r m pad left (c0 ∷ c1 ∷ c2 ∷ c3 ∷ s) bin size at low high =
      let go : leb (4 + pad) left ≡ true = ground arith in
      let a = t.from_char c0 in
      let b = t.from_char c1 in
      let c = t.from_char c2 in
      let d = t.from_char c3 in
      let group = octet0 a b ∷ octet1 b c ∷ octet2 c d ∷ [] in
      let (written, unread) =
        length-decode_loop j r m pad (left - 4) s (bin ++ group) (omega arith) (omega arith) low
          high in
      rw go (omega (arith, written, length-append bin group), unread)
  length-decode_loop (suc j) r m pad left [] bin size at low high = absurd (omega arith)
  length-decode_loop (suc j) r m pad left (c0 ∷ []) bin size at low high = absurd (omega arith)
  length-decode_loop (suc j) r m pad left (c0 ∷ c1 ∷ []) bin size at low high = absurd (omega arith)
  length-decode_loop (suc j) r m pad left (c0 ∷ c1 ∷ c2 ∷ []) bin size at low high =
      absurd (omega arith)

  pub decode_tail-reads :
      (pad : ℕ) (s bin : Bytes)
      → pad ≤ 2
      → last_chars pad ≤ length s
      → (out : Bytes) × (decode_tail t pad s bin ≡ some out)
        × (length out ≡ length bin + last_bytes pad)
  unfolding decode_tail
  decode_tail-reads zero s bin small enough = (bin, refl, omega arith)
  decode_tail-reads (suc zero) (c0 ∷ c1 ∷ c2 ∷ s) bin small enough = (_, refl, length-append bin _)
  decode_tail-reads (suc zero) [] bin small enough = absurd (omega arith)
  decode_tail-reads (suc zero) (c0 ∷ []) bin small enough = absurd (omega arith)
  decode_tail-reads (suc zero) (c0 ∷ c1 ∷ []) bin small enough = absurd (omega arith)
  decode_tail-reads (suc (suc zero)) (c0 ∷ c1 ∷ s) bin small enough = (_, refl, length-append bin _)
  decode_tail-reads (suc (suc zero)) [] bin small enough = absurd (omega arith)
  decode_tail-reads (suc (suc zero)) (c0 ∷ []) bin small enough = absurd (omega arith)
  decode_tail-reads (suc (suc (suc n))) s bin small enough = absurd (omega arith)

  pub decode_tail_overrun : (s bin : Bytes) → length s < 3 → decode_tail t 1 s bin ≡ none
  unfolding decode_tail
  decode_tail_overrun [] bin short = refl
  decode_tail_overrun (c0 ∷ []) bin short = refl
  decode_tail_overrun (c0 ∷ c1 ∷ []) bin short = refl
  decode_tail_overrun (c0 ∷ c1 ∷ c2 ∷ s) bin short = absurd (omega arith)
