-- ===== src/Context.antt =====
-- The structures of hawkc/hawkc.h and the accessors of hawkc/common.c.
pub mod Error
pub mod Setters
pub mod Buffers
pub mod Memory
use hawkc.Base.{
  ℕ, ◌+◌, if◌then◌else◌, leb, ◌==◌, Bool, true, false, ◌&&◌, List, [], ◌∷◌, Option, none, some,
  Bytes, codes, length, take, drop, ◌++◌, replicate, String, ◌≡◌, refl, ap, arith, ◌≤◌, zero, suc,
  le→leb,
}
use mathlib.Core.Option
use hawkc.Base.Int.{ℤ, pos}
use hawkc.Outcome.{Action, failed}
use Error.{HawkcError, ok}

abbrev pub max_hmac_bytes_b64 : ℕ
max_hmac_bytes_b64 = 45

abbrev pub max_nonce_bytes : ℕ
max_nonce_bytes = 6

abbrev pub max_nonce_hex_bytes : ℕ
max_nonce_hex_bytes = 12

-- Where a `data` pointer points: nowhere, to bytes of the caller (those that may be read), or to
-- one of the three buffers inside the context, whose content changes when they are written.
pub data Ptr : Type 0 where
  null : Ptr
  at : Bytes → Ptr
  hmac_buffer ts_hmac_buffer nonce_buffer : Ptr

pub record HawkcString : Type 0 where
  pub len : ℕ
  pub chars : Ptr

pub record HawkcAlgorithm : Type 0 where
  pub name : Bytes

pub record AuthorizationHeader : Type 0 where
  pub id : HawkcString
  pub mac : HawkcString
  pub hash : HawkcString
  pub nonce : HawkcString
  pub ts : ℤ
  pub app : HawkcString
  pub dlg : HawkcString
  pub ext : HawkcString

pub record WwwAuthenticateHeader : Type 0 where
  pub ts : ℤ
  pub tsm : HawkcString

-- An argument of hawkc_set_error's format. The text that vsnprintf makes of it is not modelled.
pub data FormatArg : Type 0 where
  text : HawkcString → FormatArg
  number : ℕ → FormatArg
  name : Bytes → FormatArg

pub record ErrorString : Type 0 where
  pub format : String
  pub args : List FormatArg

-- Allocation functions by what they answer: is the pointer for `count` items of `size` bytes, or
-- for `size` bytes, other than NULL?
abbrev pub CallocFunc : Type 0
CallocFunc = ℕ → ℕ → Bool

abbrev pub MallocFunc : Type 0
MallocFunc = ℕ → Bool

-- A block of memory that one of these has answered with, and whether the function was the
-- caller's own or the C library's.
pub record Block : Type 0 where
  pub own : Bool
  pub number : ℕ

-- It returns nothing: what the caller does with the block is left to him.
abbrev pub FreeFunc : Type 0
FreeFunc = Block → Unit {0}

pub record HawkcContext : Type 0 where
  pub malloc : Option MallocFunc
  pub calloc : Option CallocFunc
  pub free : Option FreeFunc
  pub error : HawkcError
  pub error_string : ErrorString
  pub offset : ℤ
  pub algorithm : Option HawkcAlgorithm
  pub password : HawkcString
  pub method : HawkcString
  pub path : HawkcString
  pub host : HawkcString
  pub port : HawkcString
  pub header_in : AuthorizationHeader
  pub header_out : AuthorizationHeader
  pub www_authenticate_header : WwwAuthenticateHeader
  pub hmac_bytes : Bytes
  pub ts_hmac_bytes : Bytes
  pub nonce_bytes : Bytes
  pub hmac : HawkcString
  pub ts_hmac : HawkcString
  pub nonce : HawkcString
  -- No field of the structure: the blocks that hawkc_malloc and hawkc_calloc have given out with
  -- this context and hawkc_free has not been given, the last first.
  pub blocks : List Block

-- What stands at a pointer.
unfoldable pub pointee : HawkcContext → Ptr → Bytes
pointee ctx null = []
pointee ctx (at bytes) = bytes
pointee ctx hmac_buffer = ctx.hmac_bytes
pointee ctx ts_hmac_buffer = ctx.ts_hmac_bytes
pointee ctx nonce_buffer = ctx.nonce_bytes

-- The bytes of a string, as memcpy or memcmp reads them; `none` is a read out of range.
unfoldable pub load : HawkcContext → HawkcString → Option Bytes
load ctx s =
    let found = pointee ctx s.chars in
    if leb s.len (length found) then some (take s.len found) else none

-- `bytes` in place of the first bytes of `buffer`.
abbrev pub overwrite : Bytes → Bytes → Option Bytes
overwrite buffer bytes =
    if leb (length bytes) (length buffer) then some (bytes ++ drop (length bytes) buffer) else none

-- A write from a pointer on; `none` is a write out of range. The library writes through no
-- pointer to the caller's bytes that it keeps.
unfoldable pub store : Ptr → Bytes → HawkcContext → Option HawkcContext
store null bytes ctx = none
store (at _) bytes ctx = none
store hmac_buffer bytes ctx =
    Option.map (λ b. record ctx { hmac_bytes = b }) (overwrite ctx.hmac_bytes bytes)
store ts_hmac_buffer bytes ctx =
    Option.map (λ b. record ctx { ts_hmac_bytes = b }) (overwrite ctx.ts_hmac_bytes bytes)
store nonce_buffer bytes ctx =
    Option.map (λ b. record ctx { nonce_bytes = b }) (overwrite ctx.nonce_bytes bytes)

-- A string of the caller's bytes.
abbrev pub of_bytes : Bytes → HawkcString
of_bytes bytes = record { len = length bytes; chars = at bytes }

pub take-length : (s : Bytes) → take (length s) s ≡ s
take-length [] = refl
take-length (c ∷ s) = ap (◌∷◌ c) (take-length s)

-- All of the caller's bytes are read.
pub load-of_bytes : (ctx : HawkcContext) (bytes : Bytes) → load ctx (of_bytes bytes) ≡ some bytes
load-of_bytes ctx bytes =
    let all : leb (length bytes) (length bytes) ≡ true = ground arith in
    unfold load pointee in rw (all, take-length bytes)

-- The string's length lies within what stands at its pointer.
abbrev pub IsReadable : HawkcContext → HawkcString → Type 0
IsReadable ctx s = s.len ≤ length (pointee ctx s.chars)

pub length-take : (n : ℕ) (s : Bytes) → n ≤ length s → length (take n s) ≡ n
length-take zero s h = refl
length-take (suc n) [] h = absurd (omega arith)
length-take (suc n) (c ∷ s) h = ap suc (length-take n s (omega arith))

-- Then it can be read, and has that many bytes.
pub load_readable :
    (ctx : HawkcContext) (s : HawkcString)
    → IsReadable ctx s
    → (b : Bytes) × (load ctx s ≡ some b) × (length b ≡ s.len)
load_readable ctx s h =
    let found = pointee ctx s.chars in
    let fits : leb s.len (length found) ≡ true = le→leb _ _ h in
    (take s.len found, unfold load in rw fits, length-take s.len found h)

-- What is read has the string's length.
pub length-load :
    (ctx : HawkcContext) (s : HawkcString) (b : Bytes) → load ctx s ≡ some b → length b ≡ s.len
unfolding load
length-load ctx s b is = ground (arith, length-take s.len (pointee ctx s.chars))

abbrev empty : HawkcString
empty = record { len = 0; chars = null }

abbrev empty_header : AuthorizationHeader
empty_header = record {
  id = empty;
  mac = empty;
  hash = empty;
  nonce = empty;
  ts = pos 0;
  app = empty;
  dlg = empty;
  ext = empty;
}

unfoldable pub set_error : HawkcContext → HawkcError → ErrorString → HawkcContext
set_error ctx e message = record ctx { error_string = message; error = e }

-- `return hawkc_set_error(ctx, e, ...);`
unfoldable pub fail : {A : Type 0} → HawkcError → ErrorString → Action HawkcContext A
unfolding set_error
fail e message ctx = failed e (set_error ctx e message)

-- All zero, but for the strings that point to the buffers.
unfoldable pub init : HawkcContext
init = record {
  malloc = none;
  calloc = none;
  free = none;
  error = ok;
  error_string = record { format = ""; args = [] };
  offset = pos 0;
  algorithm = none;
  password = empty;
  method = empty;
  path = empty;
  host = empty;
  port = empty;
  header_in = empty_header;
  header_out = empty_header;
  www_authenticate_header = record { ts = pos 0; tsm = empty };
  hmac_bytes = replicate max_hmac_bytes_b64 0;
  ts_hmac_bytes = replicate max_hmac_bytes_b64 0;
  nonce_bytes = replicate max_nonce_hex_bytes 0;
  hmac = record { len = 0; chars = hmac_buffer };
  ts_hmac = record { len = 0; chars = ts_hmac_buffer };
  nonce = record { len = 0; chars = nonce_buffer };
  blocks = [];
}
