-- ===== src/Authorization/Signs.antt =====
-- What the signing in hawkc/authorization.c leaves in the context where it succeeds.
use hawkc.Base.{
  ℕ, ◌++◌, if◌then◌else◌, leb, length, Bool-cases, inl, inr, List, ◌∷◌, Option, none, some, Bytes,
  drop, ◌≡◌, refl, sym, ap, ap₂, ◌∙◌,
}
use mathlib.Core.Path.{subst}
use hawkc.Outcome.{Outcome, Action, bind, checked, modify, ◌>>=◌}
use hawkc.Outcome.Done.{Done, reached, stopped, undefined, unfinished, Done-bind, Done-access}
use hawkc.Context.{
  HawkcContext, HawkcAlgorithm, AuthorizationHeader, Block, hmac_buffer, store, fail,
}
use hawkc.Context.Memory.{with_blocks, free, free_cases}
use hawkc.Base64
use hawkc.BaseString.{create_base_string, calculate_base_string_length}
use hawkc.Crypto.{key_of, Platform, digest, hmac, hmac_by, written}
use hawkc.Authorization.{sign, free_buffer}
use hawkc.Authorization.Buffer.{Buffered, declined, kept, allocated, base_buffer-Buffered}
use hawkc.Authorization.Freed.{key_of-memory}
use hawkc.Authorization.Signed.{mac_of}

module _ (os : Platform) (ctx : HawkcContext) where
  -- Algorithm and password are set, and known.
  pub record IsKeyed : Type 0 where
    pub algorithm : HawkcAlgorithm
    pub md : Bytes → Bytes → Bytes
    pub key : Bytes
    pub algorithm_is : ctx.algorithm ≡ some algorithm
    pub digest_is : digest os algorithm ≡ some md
    pub key_is : key_of ctx ctx.password ≡ some key

  -- hawkc_hmac has written the MAC of a message into the buffer, and changed nothing else here.
  record Made (message : Bytes) (len : ℕ) (after : HawkcContext) : Type 0 where
    keyed : IsKeyed
    rest : Bytes
    bytes_are : after.hmac_bytes ≡ mac_of keyed.md keyed.key message ++ rest
    len_is : len ≡ (Base64.encode (keyed.md keyed.key message)).flen
    hmac_same : after.hmac ≡ ctx.hmac
    header_same : after.header_in ≡ ctx.header_in

  module _ (bs : List Block) (message : Bytes) where
    abbrev during : HawkcContext
    during = with_blocks bs ctx

    written-Made :
        (k : IsKeyed)
        → Done (Made message) (
            let encoded = Base64.encode (k.md k.key message) in
            written encoded.flen (store hmac_buffer encoded.res during))
    unfolding store
    written-Made k =
        let mac = mac_of k.md k.key message in
        elim (Bool-cases (leb (length mac) (length ctx.hmac_bytes))) [
          | inl fits ↦ rw fits (
              reached (record {
                keyed = k;
                rest = drop (length mac) ctx.hmac_bytes;
                bytes_are = refl;
                len_is = refl;
                hmac_same = refl;
                header_same = refl;
              }))
          | inr over ↦ rw over undefined
        ]

    hmac_by-Made :
        (a : HawkcAlgorithm) (md : Option (Bytes → Bytes → Bytes))
        → ctx.algorithm ≡ some a
        → digest os a ≡ md
        → Done (Made message) (hmac_by os a md ctx.password message hmac_buffer during)
    hmac_by-Made a none alg_is md_is = unfold fail in stopped
    hmac_by-Made a (some md) alg_is md_is =
        Done-access (key_of during ctx.password) during _ λ key key_is. written-Made (record {
          algorithm = a;
          md = md;
          key = key;
          algorithm_is = alg_is;
          digest_is = md_is;
          key_is = sym (key_of-memory ctx.free bs ctx ctx.password) ∙ key_is;
        })

    hmac-Made :
        (a : Option HawkcAlgorithm)
        → ctx.algorithm ≡ a
        → Done (Made message) (hmac os a ctx.password message hmac_buffer during)
    unfolding hmac
    hmac-Made none alg_is = undefined
    hmac-Made (some a) alg_is = hmac_by-Made a (digest os a) alg_is refl

  freed-Made :
      (message : Bytes) (b : Option Block) {o : Outcome HawkcContext ℕ}
      → Done (Made message) o
      → Done (Made message) (free_buffer b o)
  unfolding free_buffer
  freed-Made message none h = h
  freed-Made message (some b) (reached {s = s} h) = elim (free_cases s b) [
    | inl lost ↦ rw lost undefined
    | inr (bs, back) ↦ rw back (
        reached (record {
          keyed = h.keyed;
          rest = h.rest;
          bytes_are = h.bytes_are;
          len_is = h.len_is;
          hmac_same = h.hmac_same;
          header_same = h.header_same;
        }))
  ]
  freed-Made message (some b) (stopped {s = s}) = Done-access (free s b) s _ λ after is. stopped
  freed-Made message (some b) undefined = undefined
  freed-Made message (some b) unfinished = unfinished

  Buffered-Done :
      {B : Type 0} {P : B → HawkcContext → Type 0} {o : Outcome HawkcContext (ℕ × Option Block)}
      (next : ℕ × Option Block → Action HawkcContext B)
      → Buffered ctx o
      → ((size : ℕ) → Done P (next (size, none) ctx))
      → ((size : ℕ) (b : Block) → Done P (next (size, some b) (with_blocks (b ∷ ctx.blocks) ctx)))
      → Done P (bind o next)
  Buffered-Done next (declined e message) static dynamic = stopped
  Buffered-Done next (kept size) static dynamic = static size
  Buffered-Done next (allocated size b) static dynamic = dynamic size b

  -- Signing leaves the MAC of the base string in the buffer.
  pub record Signed (header : AuthorizationHeader) (after : HawkcContext) : Type 0 where
    pub keyed : IsKeyed
    pub base : Bytes
    pub rest : Bytes
    pub base_is : create_base_string ctx header ≡ some base
    pub bytes_are : after.hmac_bytes ≡ mac_of keyed.md keyed.key base ++ rest
    pub hmac_is :
        after.hmac
        ≡ record { len = (Base64.encode (keyed.md keyed.key base)).flen; chars = ctx.hmac.chars }
    pub header_same : after.header_in ≡ ctx.header_in

  with_base :
      (header : AuthorizationHeader) (size : ℕ) (b : Option Block) (bs : List Block)
      → ctx.hmac.chars ≡ hmac_buffer
      → Done
          (λ _. Signed header)
          (bind (checked (create_base_string ctx header) (with_blocks bs ctx)) λ base.
            checked (if leb (length base) size then some tt else none) >>= λ _.
            (λ before.
              free_buffer b (hmac os ctx.algorithm ctx.password base ctx.hmac.chars before))
            >>= λ len. modify λ after. record after { hmac = record (after.hmac) { len = len } })
  with_base header size b bs at_buffer =
      Done-access (create_base_string ctx header) _ _ λ base base_is.
        Done-access (if leb (length base) size then some tt else none) _ _ λ _ _.
          Done-bind
            (freed-Made base b (
              subst
                (λ p.
                  Done (Made base) (hmac os ctx.algorithm ctx.password base p (with_blocks bs ctx)))
                (sym at_buffer) (hmac-Made bs base ctx.algorithm refl)))
            λ len after made. reached (record {
              keyed = made.keyed;
              base = base;
              rest = made.rest;
              base_is = base_is;
              bytes_are = made.bytes_are;
              hmac_is =
                  ap₂ (λ n p. record { len = n; chars = p }) made.len_is
                    (ap (λ h. h.chars) made.hmac_same);
              header_same = made.header_same;
            })

  pub sign-Signed :
      (header : AuthorizationHeader)
      → ctx.hmac.chars ≡ hmac_buffer
      → Done (λ _. Signed header) (sign os header ctx)
  unfolding sign
  sign-Signed header at_buffer =
      Buffered-Done _ (base_buffer-Buffered os (calculate_base_string_length ctx header) ctx)
        (λ size. with_base header size none ctx.blocks at_buffer)
        (λ size b. with_base header size (some b) (b ∷ ctx.blocks) at_buffer)
