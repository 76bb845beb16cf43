-- ===== src/Authorization/Validate.antt =====
-- hawkc_validate_hmac of hawkc/authorization.c against the comparison of two MACs.
use hawkc.Base.{
  ℕ, ◌≤◌, ◌++◌, if◌then◌else◌, ◌==◌, Bool, true, false, Bool-cases, Option, some, Bytes, length,
  drop, ◌≡◌, ◌↔◌, ap, ap₂, ◌∙◌, arith, inl, inr,
}
use hawkc.Outcome.{Action, done, bind, checked, get, ◌>>=◌}
use hawkc.Context.{HawkcContext, HawkcAlgorithm, HawkcString, Ptr, pointee, at}
use hawkc.Compare.{fixed_time_equal}
use hawkc.Compare.Exact.{fixed_time_equal_lem}
use hawkc.BaseString.{create_base_string}
use hawkc.Crypto.{Platform, IsPlatform, hmac}
use hawkc.Authorization.{validate_hmac}
use hawkc.Authorization.Signed.{signed_context, mac_of, IsSigning, sign_done}

-- The comparison behind the call of hawkc_hmac.
abbrev pub compare_bytes : ℕ → Bytes → Bytes → ℕ → Option Bool
compare_bytes given_len given mac len =
    if given_len == len then fixed_time_equal given mac len else some false

pub compare_bytes_lem :
    (given more mac rest : Bytes)
    → length mac ≤ 44
    → (r : Bool) × (compare_bytes (length given) (given ++ more) (mac ++ rest) (length mac)
        ≡ some r)
      × ((r ≡ true) ↔ (given ≡ mac))
compare_bytes_lem given more mac rest short = elim (Bool-cases (length given == length mac)) [
  | inl same ↦
      let lengths : length given ≡ length mac = ground arith in
      let (r, is, right) = fixed_time_equal_lem given mac more rest lengths (omega arith) in
      let same_len : length given == length given ≡ true = ground arith in
      (r, rw⁻¹ lengths (rw same_len is), right)
  | inr other ↦
      (false, rw other, (λ e. absurd (ground arith), λ e. absurd (ground (arith, ap length e))))
]

abbrev pub compare_macs : HawkcContext → HawkcString → Ptr → ℕ → Option Bool
compare_macs ctx mac hmac len = compare_bytes mac.len (pointee ctx mac.chars) (pointee ctx hmac) len

-- A request whose MAC can be checked.
module _ (os : Platform) (h : IsPlatform os) (ctx : HawkcContext) (a : HawkcAlgorithm)
    (md : Bytes → Bytes → Bytes) (key given more : Bytes) (room : ℕ) where
  -- When algorithm and password are set, the password's length fits `int` as HMAC_Init takes it,
  -- all strings can be read, the parsed time is from 1 to 2 ^ 31 - 1, the header has a MAC in the
  -- caller's bytes, the context's HMAC buffer is as hawkc_context_init sets it up, the sum of the
  -- lengths is below 2 ^ 64 and there is a buffer for the calculated length, the base string is
  -- written and hawkc_validate_hmac returns HAWKC_OK; its verdict is true exactly when the MAC of
  -- the header is the base64 text of the HMAC of that base string under that password. OpenSSL's
  -- digests are assumed to have 20 and 32 bytes.
  pub validate_hmac_lem :
      IsSigning os h ctx ctx.header_in a md key room
      → ctx.header_in.mac ≡ record { len = length given; chars = at (given ++ more) }
      → (base : Bytes) × (r : Bool) × (after : HawkcContext) × (create_base_string ctx ctx.header_in
          ≡ some base)
        × (validate_hmac os ctx ≡ done r after)
        × ((r ≡ true) ↔ (given ≡ mac_of md key base))
  unfolding validate_hmac pointee
  validate_hmac_lem v given_at =
      let (base, base_is, signed, short) = sign_done os h ctx ctx.header_in a md key room v in
      let mac = mac_of md key base in
      let after = signed_context ctx mac in
      let (r, is, right) =
        compare_bytes_lem given more mac (drop (length mac) ctx.hmac_bytes) short in
      let compared : compare_macs after after.header_in.mac after.hmac.chars (length mac) ≡ some r =
        ap₂ (λ s p. compare_macs after s p (length mac)) given_at v.buffer_at ∙ is in
      let verdict : Action HawkcContext Bool =
        get >>= λ c. checked (compare_macs c c.header_in.mac c.hmac.chars c.hmac.len) in
      (
        base,
        r,
        after,
        base_is,
        ap (λ o. bind o (λ _. verdict)) signed ∙ ap (λ c. checked c after) compared,
        right,
      )
