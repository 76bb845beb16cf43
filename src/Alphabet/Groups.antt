-- ===== src/Alphabet/Groups.antt =====
-- The loops over groups: what the encoder writes by recursion, and that the decoder reads it back.
use hawkc.Base.{
  ℕ, ◌+◌, ◌-◌, ◌*◌, ◌/◌, ◌%◌, ◌<◌, ◌≤◌, leb, le→leb, false, [], ◌∷◌, ◌++◌, some, Bytes, length,
  IsBytes, append-nil, append_assoc, ◌≡◌, refl, ap, ◌∙◌, arith,
}
use hawkc.Sextets.{sextet0, sextet1, sextet2, sextet3, octet0, octet1, octet2, pad_of}
use hawkc.Sextets.Inverse.{sextets-lt, octets-sextets, pad_of_values}
use hawkc.Alphabet.{Alphabet, IsAlphabet, decode_loop, decode_tail}

-- How many characters the last group is short of four.
abbrev pub pads : Bytes → ℕ
pads [] = 0
pads (a ∷ []) = 2
pads (a ∷ b ∷ []) = 1
pads (a ∷ b ∷ c ∷ bs) = pads bs

pub pads-pad_of : (bs : Bytes) → pad_of (length bs % 3) ≡ pads bs
pads-pad_of [] = pad_of_values.0
pads-pad_of (a ∷ []) = pad_of_values.1
pads-pad_of (a ∷ b ∷ []) = pad_of_values.2
pads-pad_of (a ∷ b ∷ c ∷ bs) =
    let e : length (a ∷ b ∷ c ∷ bs) % 3 ≡ length bs % 3 = omega arith in rw e (pads-pad_of bs)

pub pads_fill : (bs : Bytes) → length bs + pads bs ≡ 3 * ((length bs + 2) / 3)
pads_fill [] = refl
pads_fill (a ∷ []) = refl
pads_fill (a ∷ b ∷ []) = refl
pads_fill (a ∷ b ∷ c ∷ bs) = omega (arith, pads_fill bs)

pub pads-le : (bs : Bytes) → pads bs ≤ 2
pads-le [] = omega arith
pads-le (a ∷ []) = omega arith
pads-le (a ∷ b ∷ []) = omega arith
pads-le (a ∷ b ∷ c ∷ bs) = pads-le bs

module _ (t : Alphabet) where
  open t use {to_char, from_char}

  -- The characters of the six-bit values of `bs`.
  abbrev pub chars : Bytes → Bytes
  chars [] = []
  chars (a ∷ []) = to_char (sextet0 a) ∷ to_char (sextet1 a 0) ∷ []
  chars (a ∷ b ∷ []) = to_char (sextet0 a) ∷ to_char (sextet1 a b) ∷ to_char (sextet2 b 0) ∷ []
  chars (a ∷ b ∷ c ∷ bs) =
      to_char (sextet0 a)
      ∷ to_char (sextet1 a b)
      ∷ to_char (sextet2 b c)
      ∷ to_char (sextet3 c)
      ∷ chars bs

  pub length-chars : (bs : Bytes) → 3 * (length (chars bs) + pads bs) ≡ 4 * (length bs + pads bs)
  length-chars [] = refl
  length-chars (a ∷ []) = refl
  length-chars (a ∷ b ∷ []) = refl
  length-chars (a ∷ b ∷ c ∷ bs) = omega (arith, length-chars bs)

  decode_loop_stop :
      (pad left : ℕ) (s out : Bytes) → left < 4 + pad → decode_loop t pad left s out ≡ (out, s)
  unfolding decode_loop
  decode_loop_stop pad left [] out h = refl
  decode_loop_stop pad left (c0 ∷ []) out h = refl
  decode_loop_stop pad left (c0 ∷ c1 ∷ []) out h = refl
  decode_loop_stop pad left (c0 ∷ c1 ∷ c2 ∷ []) out h = refl
  decode_loop_stop pad left (c0 ∷ c1 ∷ c2 ∷ c3 ∷ s) out h =
      let stop : leb (4 + pad) left ≡ false = ground arith in rw stop

module _ (t : Alphabet) (law : IsAlphabet t) where
  open t use {to_char, from_char}

  -- The three stores of a decoding round on the four characters of a group.
  octets_of_group :
      (a b c : ℕ)
      → a < 256
      → b < 256
      → c < 256
      → (octet0 (from_char (to_char (sextet0 a))) (from_char (to_char (sextet1 a b))) ≡ a)
        × (octet1 (from_char (to_char (sextet1 a b))) (from_char (to_char (sextet2 b c))) ≡ b)
        × (octet2 (from_char (to_char (sextet2 b c))) (from_char (to_char (sextet3 c))) ≡ c)
  octets_of_group a b c ha hb hc =
      let lt = sextets-lt a b c ha hb hc in
      rw (law.inverse _ lt.0, law.inverse _ lt.1, law.inverse _ lt.2, law.inverse _ lt.3)
        (octets-sextets a b c ha hb hc)

  decode_loop_group :
      (a b c left pad : ℕ) (s out : Bytes)
      → a < 256
      → b < 256
      → c < 256
      → 4 + pad ≤ left
      → decode_loop t pad left
          (to_char (sextet0 a)
            ∷ to_char (sextet1 a b)
            ∷ to_char (sextet2 b c)
            ∷ to_char (sextet3 c)
            ∷ s)
          out
        ≡ decode_loop t pad (left - 4) s (out ++ a ∷ b ∷ c ∷ [])
  unfolding decode_loop
  decode_loop_group a b c left pad s out ha hb hc h =
      let e = octets_of_group a b c ha hb hc in rw (le→leb (4 + pad) left h, e.0, e.1, e.2)

  -- The loop and the tail give back `bs` behind what has been written before. What stands behind
  -- the characters (`=` signs, or nothing) is not looked at.
  pub decode_tail-loop :
      (bs out more : Bytes)
      → IsBytes bs
      → (let (bin, s) =
            decode_loop t (pads bs) (length (chars t bs) + pads bs) (chars t bs ++ more) out in
          decode_tail t (pads bs) s bin)
        ≡ some (out ++ bs)
  decode_tail-loop [] out more h =
      rw (decode_loop_stop t 0 (0 + 0) more out (omega arith)) (unfold decode_tail in rw append-nil)
  decode_tail-loop (a ∷ []) out more (ha, _) =
      let e = octets_of_group a 0 0 ha (omega arith) (omega arith) in
      rw (decode_loop_stop t 2 (2 + 2) (chars t (a ∷ []) ++ more) out (omega arith))
        (unfold decode_tail in rw e.0)
  decode_tail-loop (a ∷ b ∷ []) out more (ha, (hb, _)) =
      let e = octets_of_group a b 0 ha hb (omega arith) in
      rw (decode_loop_stop t 1 (3 + 1) (chars t (a ∷ b ∷ []) ++ more) out (omega arith))
        (unfold decode_tail in rw (e.0, e.1))
  decode_tail-loop (a ∷ b ∷ c ∷ bs) out more (ha, (hb, (hc, h))) =
      let left = length (chars t (a ∷ b ∷ c ∷ bs)) + pads bs in
      let shorter : left - 4 ≡ length (chars t bs) + pads bs = omega arith in
      rw
        (
          decode_loop_group a b c left (pads bs) (chars t bs ++ more) out ha hb hc (omega arith),
          shorter,
        )
        (decode_tail-loop bs (out ++ a ∷ b ∷ c ∷ []) more h ∙ ap some (append_assoc out _ bs))
