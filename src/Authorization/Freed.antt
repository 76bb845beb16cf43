-- ===== src/Authorization/Freed.antt =====
-- hawkc_hmac (hawkc/crypto_openssl.c) does not look at the blocks that are allocated, and
-- hawkc/authorization.c frees the one for the base string whatever it returns.
use hawkc.Base.{
  ◌%◌, ◌^◌, ℕ, Option, none, some, Bytes, List, ◌∷◌, ◌≡◌, refl, ap, sym, ◌∙◌, Bool-cases, inl, inr,
  leb, length,
}
use hawkc.Base64
use hawkc.Outcome.{Outcome, done, failed, fault, no_fuel, bind, checked}
use hawkc.Context.{
  HawkcContext, HawkcString, HawkcAlgorithm, FreeFunc, Block, Ptr, null, at, hmac_buffer,
  ts_hmac_buffer, nonce_buffer, load, pointee, store, fail, set_error,
}
use hawkc.Context.Memory.{is_set, with_blocks, free-with_blocks}
use hawkc.Crypto.{key_of, Platform, digest, hmac, hmac_by, written}
use hawkc.Authorization.{free_buffer}

-- The same call in another state of the memory.
abbrev on_state :
    {A : Type 0} → (HawkcContext → HawkcContext) → Outcome HawkcContext A → Outcome HawkcContext A
on_state f (done a ctx) = done a (f ctx)
on_state f (failed e ctx) = failed e (f ctx)
on_state f fault = fault
on_state f no_fuel = no_fuel

abbrev memory : Option FreeFunc → List Block → HawkcContext → HawkcContext
memory f bs ctx = record ctx { free = f; blocks = bs }

module _ (f : Option FreeFunc) (bs : List Block) where
  pointee-memory : (ctx : HawkcContext) (p : Ptr) → pointee (memory f bs ctx) p ≡ pointee ctx p
  unfolding pointee
  pointee-memory ctx null = refl
  pointee-memory ctx (at b) = refl
  pointee-memory ctx hmac_buffer = refl
  pointee-memory ctx ts_hmac_buffer = refl
  pointee-memory ctx nonce_buffer = refl

  pub load-memory : (ctx : HawkcContext) (s : HawkcString) → load (memory f bs ctx) s ≡ load ctx s
  unfolding load
  load-memory ctx s = rw (pointee-memory ctx s.chars) refl

  pub key_of-memory :
      (ctx : HawkcContext) (s : HawkcString) → key_of (memory f bs ctx) s ≡ key_of ctx s
  unfolding key_of
  key_of-memory ctx s = rw (load-memory ctx (record s { len = s.len % 2 ^ 32 })) refl

  written-memory :
      (len : ℕ) (p : Ptr) (bytes : Bytes) (ctx : HawkcContext)
      → written len (store p bytes (memory f bs ctx))
        ≡ on_state (memory f bs) (written len (store p bytes ctx))
  unfolding store
  written-memory len null bytes ctx = refl
  written-memory len (at b) bytes ctx = refl
  written-memory len hmac_buffer bytes ctx =
      elim (Bool-cases (leb (length bytes) (length ctx.hmac_bytes))) [
        | inl fits ↦ rw fits refl
        | inr over ↦ rw over refl
      ]
  written-memory len ts_hmac_buffer bytes ctx =
      elim (Bool-cases (leb (length bytes) (length ctx.ts_hmac_bytes))) [
        | inl fits ↦ rw fits refl
        | inr over ↦ rw over refl
      ]
  written-memory len nonce_buffer bytes ctx =
      elim (Bool-cases (leb (length bytes) (length ctx.nonce_bytes))) [
        | inl fits ↦ rw fits refl
        | inr over ↦ rw over refl
      ]

  module _ (os : Platform) (password : HawkcString) (message : Bytes) (result : Ptr) where
    hmac_by-memory :
        (a : HawkcAlgorithm) (md : Option (Bytes → Bytes → Bytes)) (ctx : HawkcContext)
        → hmac_by os a md password message result (memory f bs ctx)
          ≡ on_state (memory f bs) (hmac_by os a md password message result ctx)
    unfolding fail set_error
    hmac_by-memory a none ctx = refl
    hmac_by-memory a (some md) ctx = rw (key_of-memory ctx password) (keyed (key_of ctx password))
      where
        keyed :
            (key : Option Bytes)
            → bind (checked key (memory f bs ctx)) (λ key s.
              let encoded = Base64.encode (md key message) in
              written encoded.flen (store result encoded.res s))
              ≡ on_state (memory f bs) (
                  bind (checked key ctx) (λ key s.
                    let encoded = Base64.encode (md key message) in
                    written encoded.flen (store result encoded.res s)))
        keyed none = refl
        keyed (some key) = written-memory _ result _ ctx

    hmac-memory :
        (a : Option HawkcAlgorithm) (ctx : HawkcContext)
        → hmac os a password message result (memory f bs ctx)
          ≡ on_state (memory f bs) (hmac os a password message result ctx)
    unfolding hmac
    hmac-memory none ctx = refl
    hmac-memory (some a) ctx = hmac_by-memory a (digest os a) ctx

free_buffer-memory :
    {A : Type 0} (f : Option FreeFunc) (b : Block) (bs : List Block) (o : Outcome HawkcContext A)
    → is_set f ≡ b.own
    → free_buffer (some b) (on_state (memory f (b ∷ bs)) o) ≡ on_state (memory f bs) o
unfolding free_buffer
free_buffer-memory f b bs (done a ctx) same = rw (free-with_blocks b bs (memory f bs ctx) same) refl
free_buffer-memory f b bs (failed e ctx) same =
    rw (free-with_blocks b bs (memory f bs ctx) same) refl
free_buffer-memory f b bs fault same = refl
free_buffer-memory f b bs no_fuel same = refl

-- With the buffer that is allocated for it and freed behind it, hawkc_hmac does what it does
-- without.
pub free_buffer-hmac :
    (os : Platform) (a : Option HawkcAlgorithm) (password : HawkcString) (message : Bytes)
    (result : Ptr) (b : Block) (ctx : HawkcContext)
    → is_set ctx.free ≡ b.own
    → free_buffer (some b) (hmac os a password message result (with_blocks (b ∷ ctx.blocks) ctx))
      ≡ hmac os a password message result ctx
free_buffer-hmac os a password message result b ctx same =
    ap (free_buffer (some b))
      (hmac-memory ctx.free (b ∷ ctx.blocks) os password message result a ctx)
    ∙ free_buffer-memory ctx.free b ctx.blocks (hmac os a password message result ctx) same
    ∙ sym (hmac-memory ctx.free ctx.blocks os password message result a ctx)
