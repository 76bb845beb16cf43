-- ===== src/Alphabet.antt =====
-- The loops that hawkc/base64.c and hawkc/base64url.c share but for their tables, over an
-- interface for the two tables of a variant.
-- A buffer that is written from its start on is the list of the bytes written; `rc` and `cb` are
-- the lengths of these lists, and `byteNo` and `charNo` say how much of the input has been read,
-- so the loops keep what is left of it.
pub mod Groups
pub mod Lengths
use hawkc.Base.{
  ℕ, ◌+◌, ◌-◌, ◌<◌, if◌then◌else◌, leb, ◌==◌, [], ◌∷◌, ◌++◌, Option, some, ◌>>=◌, Bytes, get_elem?,
  ◌≡◌,
}
use hawkc.Sextets.{sextet0, sextet1, sextet2, sextet3, octet0, octet1, octet2}

-- `b64[i]` and `unb64[c]`.
pub record Alphabet : Type 0 where
  pub to_char : ℕ → ℕ
  pub from_char : ℕ → ℕ

-- What the loops need of the tables.
pub record IsAlphabet (t : Alphabet) : Type 0 where
  pub inverse : (i : ℕ) → i < 64 → t.from_char (t.to_char i) ≡ i

module _ (t : Alphabet) where
  open t use {to_char, from_char}

  -- `for (byteNo = 0; byteNo + 3 <= len; byteNo += 3)`: the result so far and `bin + byteNo`.
  unfoldable pub encode_loop : Bytes → Bytes → Bytes × Bytes
  encode_loop (byte0 ∷ byte1 ∷ byte2 ∷ bin) res = encode_loop bin (
      res
      ++ to_char (sextet0 byte0)
        ∷ to_char (sextet1 byte0 byte1)
        ∷ to_char (sextet2 byte1 byte2)
        ∷ to_char (sextet3 byte2)
        ∷ [])
  encode_loop bin res = (res, bin)

  -- `for (charNo = 0; charNo + 4 + pad <= len; charNo += 4)`, with `left` for `len - charNo`: the
  -- bytes so far and the input from `charNo` on.
  unfoldable pub decode_loop : ℕ → ℕ → Bytes → Bytes → Bytes × Bytes
  decode_loop pad left (c0 ∷ c1 ∷ c2 ∷ c3 ∷ s) bin =
      let a = from_char c0 in
      let b = from_char c1 in
      let c = from_char c2 in
      let d = from_char c3 in
      let rest = decode_loop pad (left - 4) s (bin ++ octet0 a b ∷ octet1 b c ∷ octet2 c d ∷ []) in
      if leb (4 + pad) left then rest else (bin, c0 ∷ c1 ∷ c2 ∷ c3 ∷ s)
  decode_loop pad left s bin = (bin, s)

  -- The last, shorter group. `none` is a read behind the input.
  unfoldable pub decode_tail : ℕ → Bytes → Bytes → Option Bytes
  decode_tail pad s bin =
      if pad == 1
      then (do
        c0 ← get_elem? s 0
        c1 ← get_elem? s 1
        c2 ← get_elem? s 2
        let a = from_char c0
        let b = from_char c1
        let c = from_char c2
        some (bin ++ octet0 a b ∷ octet1 b c ∷ []))
      else if pad == 2
      then (do
        c0 ← get_elem? s 0
        c1 ← get_elem? s 1
        let a = from_char c0
        let b = from_char c1
        some (bin ++ octet0 a b ∷ []))
      else some bin
