-- ===== src/Authorization/Buffer.antt =====
-- The buffer for the base string in hawkc/authorization.c, and what is put into it.
use hawkc.Base.{
  ℕ, Bool-cases, inl, inr, ◌^◌, ◌<◌, ◌≤◌, ◌∷◌, ltb, leb, lt→ltb, le→ltb, le→leb, true, false,
  Option, none, some, Bytes, length, refl, ◌≡◌, arith,
}
use hawkc.Outcome.{Outcome, Action, done, failed, fault, modify, ◌>>=◌, ◌>>◌}
use hawkc.Context.{HawkcContext, AuthorizationHeader, Block, ErrorString, set_error, fail}
use hawkc.Context.Error.{HawkcError}
use hawkc.Time.Ttoa.Length.{magnitude, one_more}
use hawkc.BaseString.{calculate_base_string_length, create_base_string}
use hawkc.BaseString.Length.{IsSignable, total, length-create_base_string}
use hawkc.Crypto.{Platform, hmac}
use hawkc.Authorization.{base_buffer, base_buffer_size, max_dyn_base_buffer_size, free_buffer, sign}
use hawkc.Authorization.Freed.{free_buffer-hmac}
use hawkc.Context.Memory.{is_set, calloc, calloc_answer, new_block, with_blocks}

-- A buffer of `size` bytes is there for a base string of `required` bytes.
pub data Room (os : Platform) (ctx : HawkcContext) (required : ℕ) : ℕ → Type 0 where
  static : required ≤ base_buffer_size → Room os ctx required base_buffer_size
  dynamic :
      base_buffer_size < required
      → required ≤ max_dyn_base_buffer_size
      → calloc_answer os ctx 1 required ≡ true
      → is_set ctx.free ≡ is_set ctx.calloc
      → Room os ctx required required

-- The block that it is, and the context while it is allocated.
abbrev block_of :
    {os : Platform} {ctx : HawkcContext} {required size : ℕ}
    → Room os ctx required size
    → Option Block
block_of (static _) = none
block_of {ctx = ctx} (dynamic _ _ _ _) = some (new_block (is_set ctx.calloc) ctx)

abbrev during : HawkcContext → Option Block → HawkcContext
during ctx none = ctx
during ctx (some b) = with_blocks (b ∷ ctx.blocks) ctx

base_buffer-Room :
    {os : Platform} {ctx : HawkcContext} {required size : ℕ} (room : Room os ctx required size)
    → base_buffer os required ctx ≡ done (size, block_of room) (during ctx (block_of room))
unfolding base_buffer calloc
base_buffer-Room (static fits) =
    let small : ltb base_buffer_size _ ≡ false = le→ltb _ _ fits in rw small
base_buffer-Room (dynamic above below given paired) =
    let large : ltb base_buffer_size _ ≡ true = lt→ltb _ _ above in
    let allowed : ltb max_dyn_base_buffer_size _ ≡ false = le→ltb _ _ below in
    rw (large, allowed, given)

-- The signing gives it back.
freed-Room :
    {os : Platform} {ctx : HawkcContext} {required size : ℕ} (room : Room os ctx required size)
    (base : Bytes)
    → free_buffer
        (block_of room)
        (hmac os ctx.algorithm ctx.password base ctx.hmac.chars (during ctx (block_of room)))
      ≡ hmac os ctx.algorithm ctx.password base ctx.hmac.chars ctx
freed-Room (static fits) base = unfold free_buffer in refl
freed-Room {os} {ctx} (dynamic above below given paired) base =
    free_buffer-hmac os ctx.algorithm ctx.password base ctx.hmac.chars _ ctx paired

-- What an allocation comes to, whatever the required size.
pub data Buffered (ctx : HawkcContext) : Outcome HawkcContext (ℕ × Option Block) → Type 0 where
  declined :
      (e : HawkcError) (message : ErrorString) → Buffered ctx (failed e (set_error ctx e message))
  kept : (size : ℕ) → Buffered ctx (done (size, none) ctx)
  allocated :
      (size : ℕ) (b : Block) → Buffered ctx (done (size, some b) (with_blocks (b ∷ ctx.blocks) ctx))

pub base_buffer-Buffered :
    (os : Platform) (required : ℕ) (ctx : HawkcContext) → Buffered ctx (base_buffer os required ctx)
unfolding base_buffer calloc fail
base_buffer-Buffered os required ctx = elim (Bool-cases (ltb base_buffer_size required)) [
  | inl above ↦ elim (Bool-cases (ltb max_dyn_base_buffer_size required)) [
    | inl over ↦ rw (above, over) (declined _ _)
    | inr below ↦ elim (Bool-cases (calloc_answer os ctx 1 required)) [
      | inl given ↦ rw (above, below, given) (allocated required _)
      | inr missing ↦ rw (above, below, missing) (declined _ _)
    ]
  ]
  | inr small ↦ rw small (kept base_buffer_size)
]

-- What happens once the base string is written.
abbrev pub finish : Platform → HawkcContext → Bytes → Action HawkcContext (Unit {0})
finish os ctx base = hmac os ctx.algorithm ctx.password base ctx.hmac.chars >>= λ len.
    modify λ after. record after { hmac = record (after.hmac) { len = len } }

-- A base string that the buffer holds is signed.
pub sign_fits :
    (os : Platform) (ctx : HawkcContext) (header : AuthorizationHeader) (size : ℕ) (base : Bytes)
    → Room os ctx (calculate_base_string_length ctx header) size
    → create_base_string ctx header ≡ some base
    → length base ≤ size
    → sign os header ctx ≡ finish os ctx base ctx
unfolding sign
sign_fits os ctx header size base room is fits =
    let written : leb (length base) size ≡ true = le→leb _ _ fits in
    rw (base_buffer-Room room, is, written, freed-Room room base, ◌>>=◌, ◌>>◌)

-- Signing a readable header whose time is zero or negative (its absolute value below 2 ^ 31, the
-- sum of the lengths below 2 ^ 64) writes past the end of the buffer whenever the buffer is as
-- long as was calculated: when 512 bytes are, or when 513 to 2048 are, the block is allocated, and
-- the functions that allocate and free are both the caller's or both the C library's.
pub sign_overflow :
    (os : Platform) (ctx : HawkcContext) (header : AuthorizationHeader)
    → IsSignable ctx header
    → magnitude header.ts < 2 ^ 31
    → one_more header.ts ≡ 1
    → total ctx header < 2 ^ 64
    → Room os ctx
        (calculate_base_string_length ctx header)
        (calculate_base_string_length ctx header)
    → sign os header ctx ≡ fault
unfolding sign
sign_overflow os ctx header readable small uncounted fits room =
    let (base, is, len) = length-create_base_string ctx header readable small fits in
    let required = calculate_base_string_length ctx header in
    let over : leb (length base) required ≡ false = ground (arith) in
    rw (base_buffer-Room room, is, over, ◌>>=◌, ◌>>◌)
