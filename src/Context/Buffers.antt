-- ===== src/Context/Buffers.antt =====
-- The three buffers inside a context (hawkc/hawkc.h), as hawkc_context_init (hawkc/common.c) sets
-- them up.
use hawkc.Base.{
  length-drop, ℕ, leb, ◌++◌, Bool-cases, inl, inr, List, [], Option, none, some, Bytes, length,
  drop, length-append, ◌≡◌, refl, ◌∙◌, arith,
}
use mathlib.Core.Option
use hawkc.Context.{
  HawkcContext, Block, Ptr, null, at, hmac_buffer, ts_hmac_buffer, nonce_buffer, store, overwrite,
  init, max_hmac_bytes_b64, max_nonce_hex_bytes,
}

-- Where the strings for the buffers point, and how long the buffers are.
pub record AreBuffers (hmac ts_hmac nonce : Ptr) (hmac_size ts_hmac_size nonce_size : ℕ)
    (blocks left : List Block) : Type 0 where
  pub hmac_at : hmac ≡ hmac_buffer
  pub ts_hmac_at : ts_hmac ≡ ts_hmac_buffer
  pub nonce_at : nonce ≡ nonce_buffer
  pub hmac_has : hmac_size ≡ max_hmac_bytes_b64
  pub ts_hmac_has : ts_hmac_size ≡ max_hmac_bytes_b64
  pub nonce_has : nonce_size ≡ max_nonce_hex_bytes
  pub blocks_are : blocks ≡ left

-- So are these, and the blocks that are allocated are those of `left`.
abbrev pub IsContext : List Block → HawkcContext → Type 0
IsContext left ctx =
    AreBuffers ctx.hmac.chars ctx.ts_hmac.chars ctx.nonce.chars (length ctx.hmac_bytes)
      (length ctx.ts_hmac_bytes) (length ctx.nonce_bytes) ctx.blocks left

pub init-IsContext : IsContext [] init
unfolding init
init-IsContext = record {
  hmac_at = refl;
  ts_hmac_at = refl;
  nonce_at = refl;
  hmac_has = refl;
  ts_hmac_has = refl;
  nonce_has = refl;
  blocks_are = refl;
}

-- A write changes what a buffer has, and not its length.
length-overwrite :
    (buffer bytes after : Bytes)
    → overwrite buffer bytes ≡ some after
    → length after ≡ length buffer
length-overwrite buffer bytes after e =
    ground
      (arith, length-append bytes (drop (length bytes) buffer), length-drop (length bytes) buffer)

-- What an optional state satisfies.
abbrev pub Holds : (HawkcContext → Type 0) → Option HawkcContext → Type 0
Holds P none = Unit
Holds P (some ctx) = P ctx

overwritten :
    (buffer bytes : Bytes) (put : Bytes → HawkcContext) (P : HawkcContext → Type 0)
    → ((after : Bytes) → length after ≡ length buffer → P (put after))
    → Holds P (Option.map put (overwrite buffer bytes))
overwritten buffer bytes put P h = elim (Bool-cases (leb (length bytes) (length buffer))) [
  | inl fits ↦ rw fits (
      h (bytes ++ drop (length bytes) buffer)
        (length-overwrite buffer bytes (bytes ++ drop (length bytes) buffer) (rw fits)))
  | inr over ↦ rw over tt
]

pub store-IsContext :
    {left : List Block} (p : Ptr) (bytes : Bytes) (ctx : HawkcContext)
    → IsContext left ctx
    → Holds (IsContext left) (store p bytes ctx)
unfolding store
store-IsContext null bytes ctx h = tt
store-IsContext (at _) bytes ctx h = tt
store-IsContext {left} hmac_buffer bytes ctx h =
    overwritten ctx.hmac_bytes bytes _ (IsContext left) λ after same. record {
      hmac_at = h.hmac_at;
      ts_hmac_at = h.ts_hmac_at;
      nonce_at = h.nonce_at;
      hmac_has = same ∙ h.hmac_has;
      ts_hmac_has = h.ts_hmac_has;
      nonce_has = h.nonce_has;
      blocks_are = h.blocks_are;
    }
store-IsContext {left} ts_hmac_buffer bytes ctx h =
    overwritten ctx.ts_hmac_bytes bytes _ (IsContext left) λ after same. record {
      hmac_at = h.hmac_at;
      ts_hmac_at = h.ts_hmac_at;
      nonce_at = h.nonce_at;
      hmac_has = h.hmac_has;
      ts_hmac_has = same ∙ h.ts_hmac_has;
      nonce_has = h.nonce_has;
      blocks_are = h.blocks_are;
    }
store-IsContext {left} nonce_buffer bytes ctx h =
    overwritten ctx.nonce_bytes bytes _ (IsContext left) λ after same. record {
      hmac_at = h.hmac_at;
      ts_hmac_at = h.ts_hmac_at;
      nonce_at = h.nonce_at;
      hmac_has = h.hmac_has;
      ts_hmac_has = h.ts_hmac_has;
      nonce_has = same ∙ h.nonce_has;
      blocks_are = h.blocks_are;
    }
