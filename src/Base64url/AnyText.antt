-- ===== src/Base64url/AnyText.antt =====
-- hawkc_base64url_decode of hawkc/base64url.c on any text, encoded or not.
use hawkc.Base.{
  ℕ, ◌+◌, ◌*◌, ◌/◌, ◌%◌, ◌^◌, ◌<◌, ◌≤◌, ◌==◌, Bool-cases, inl, inr, false, [], some, Bytes, length,
  u64, sub64, ◌≡◌, ◌≢◌, ap, arith,
}
use hawkc.Outcome.{done, ◌>>=◌}
use hawkc.Context.{HawkcContext}
use hawkc.Alphabet.{decode_loop, decode_tail}
use hawkc.Alphabet.Lengths.{last_bytes, last_chars, length-decode_loop, decode_tail-reads}
use hawkc.Base64url.{base64url, missing, decode}

-- What is missing makes the last group of two or three characters whole.
data LastGroup (n pad : ℕ) : Type 0 where
  two_left : pad ≡ 2 → n % 4 ≡ 2 → LastGroup n pad
  three_left : pad ≡ 1 → n % 4 ≡ 3 → LastGroup n pad
  none_left : pad ≡ 0 → n % 4 < 2 → LastGroup n pad

missing-LastGroup : (n : ℕ) → LastGroup n (missing n)
unfolding missing
missing-LastGroup n = elim (Bool-cases (n == 2)) [
  | inl two ↦ two_left (rw two) (ground arith)
  | inr other ↦ elim (Bool-cases (n % 4 == 2)) [
    | inl two ↦ two_left (rw (other, two)) (ground arith)
    | inr not_two ↦ elim (Bool-cases (n % 4 == 3)) [
      | inl three ↦ three_left (rw (other, not_two, three)) (ground arith)
      | inr less ↦ none_left (rw (other, not_two, less)) (ground arith)
    ]
  ]
]

module _ (s : Bytes) (ctx : HawkcContext) (other : length s ≢ 1) (fits : length s < 2 ^ 61) where
  decode_reads :
      (pad : ℕ) (result : Bytes)
      → missing (length s) ≡ pad
      → (let scanned = decode_loop base64url pad (length s + pad) s [] in
          decode_tail base64url pad scanned.1 scanned.0 ≡ some result)
      → sub64 (u64 (3 * (length s + pad)) / 4) pad ≡ length result
      → decode s ctx ≡ done (record { result = result; result_len = length result }) ctx
  decode_reads pad result pad_is is len =
      let not_one : (length s == 1) ≡ false = ground arith in
      unfold decode in
      rw (not_one, pad_is, is, ◌>>=◌)
        (ap (λ k. done (record { result = result; result_len = k }) ctx) len)

  decode_padded :
      (pad : ℕ)
      → missing (length s) ≡ pad
      → pad ≤ 2
      → last_chars pad ≤ length s % 4
      → 3 * (length s / 4) + last_bytes pad ≡ 3 * length s / 4
      → sub64 (u64 (3 * (length s + pad)) / 4) pad ≡ 3 * length s / 4
      → length s % 4 < 4
      → (result : Bytes) × (decode s ctx
          ≡ done (record { result = result; result_len = length result }) ctx)
        × (length result ≡ 3 * length s / 4)
  decode_padded pad pad_is small enough size len four =
      let n = length s in
      let (written, unread) =
        length-decode_loop base64url (n / 4) (n % 4) (n % 4 + pad) pad (n + pad) s [] (omega arith)
          (omega arith) (omega arith) (omega arith) in
      let scanned = decode_loop base64url pad (n + pad) s [] in
      let (result, is, more) =
        decode_tail-reads base64url pad scanned.1 scanned.0 small (omega arith) in
      let result_size : length result ≡ 3 * n / 4 = omega arith in
      (result, decode_reads pad result pad_is is (omega arith), result_size)

  -- On every text whose length is not 1 and below 2 ^ 61, of the alphabet or not,
  -- hawkc_base64url_decode returns HAWKC_OK, reads within the text, leaves the context alone, and
  -- `*result_len` is the number of bytes that it writes, which is three quarters of the length,
  -- rounded down.
  pub decode_url_lem :
      (result : Bytes) × (decode s ctx
        ≡ done (record { result = result; result_len = length result }) ctx)
      × (length result ≡ 3 * length s / 4)
  decode_url_lem = by_group (missing-LastGroup (length s))
    where
      by_group :
          LastGroup (length s) (missing (length s))
          → (result : Bytes) × (decode s ctx
              ≡ done (record { result = result; result_len = length result }) ctx)
            × (length result ≡ 3 * length s / 4)
      by_group (two_left pad_is left) =
          decode_padded 2 pad_is (omega arith) (omega arith) (omega arith) (omega arith)
            (omega arith)
      by_group (three_left pad_is left) =
          decode_padded 1 pad_is (omega arith) (omega arith) (omega arith) (omega arith)
            (omega arith)
      by_group (none_left pad_is left) =
          decode_padded 0 pad_is (omega arith) (omega arith) (omega arith) (omega arith)
            (omega arith)
