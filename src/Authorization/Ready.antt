-- ===== src/Authorization/Ready.antt =====
-- What a party of hawkc/authorization.c has ready: a signed header to send, or a received one that is
-- valid.
use hawkc.Base.{
  ℕ, ◌^◌, ◌<◌, true, [], ◌∷◌, append-nil, some, Bytes, length, ◌≡◌, refl, sym, ap, ◌∙◌, arith,
}
use hawkc.Outcome.{done}
use hawkc.Context.{
  HawkcContext, HawkcString, HawkcAlgorithm, AuthorizationHeader, at, of_bytes, load, length-load,
  load-of_bytes,
}
use hawkc.Crypto.{Platform, IsPlatform}
use hawkc.Authorization.{validate_hmac, calculate_authorization_header_length}
use hawkc.Context.Memory.{calloc_answer}
use hawkc.Authorization.Buffer.{Room, static, dynamic}
use hawkc.Authorization.Create.{header_length}
use hawkc.Authorization.Signed.{mac_of}
use hawkc.Authorization.Prepare.{IsOutside, calculate_authorization_header_length_lem}
use hawkc.Authorization.Validate.{validate_hmac_lem}
use hawkc.Authorization.Handlers.{with_in}
use hawkc.Authorization.Fields.{Contents}
use hawkc.Authorization.Text.{IsCarried}
use hawkc.Authorization.RoundTrip.{received_text, received}
use hawkc.Authorization.Party.{
  Request, IsParty, base_text, required, create_base_string-base_text, Party-IsSigning,
  load-with_in, key_of-with_in,
}

-- The caller's strings do not stand in the buffer for the HMAC.
pub record IsApart (h : AuthorizationHeader) : Type 0 where
  pub id_apart : IsOutside h.id
  pub nonce_apart : IsOutside h.nonce
  pub ext_apart : IsOutside h.ext
  pub app_apart : IsOutside h.app
  pub dlg_apart : IsOutside h.dlg

-- Before a header is parsed, there is no text that a parameter left out could leave.
pub record IsFresh (ctx : HawkcContext) : Type 0 where
  pub ext_empty : load ctx ctx.header_in.ext ≡ some []
  pub app_empty : load ctx ctx.header_in.app ≡ some []
  pub dlg_empty : load ctx ctx.header_in.dlg ≡ some []

received_text-load :
    (ctx : HawkcContext) (text : Bytes) (old : HawkcString)
    → load ctx old ≡ some []
    → load ctx (received_text text old) ≡ some text
received_text-load ctx [] old empty = empty
received_text-load ctx (c ∷ text) old empty = load-of_bytes ctx (c ∷ text)

pub received-IsCarried :
    (server : HawkcContext) (c : Contents)
    → IsFresh server
    → c.ts < 2 ^ 31
    → let h = received c server.header_in in IsCarried (with_in server h) h c
received-IsCarried server c fresh small =
    let h = received c server.header_in in
    let ctx = with_in server h in
    record {
      id_is = load-of_bytes ctx c.id;
      nonce_is = load-of_bytes ctx c.nonce;
      mac_is = load-of_bytes ctx c.mac;
      ts_is = refl;
      ts_small = small;
      ext_is =
          received_text-load ctx c.ext server.header_in.ext
            (load-with_in server h server.header_in.ext ∙ fresh.ext_empty);
      app_is =
          received_text-load ctx c.app server.header_in.app
            (load-with_in server h server.header_in.app ∙ fresh.app_empty);
      dlg_is =
          received_text-load ctx c.dlg server.header_in.dlg
            (load-with_in server h server.header_in.dlg ∙ fresh.dlg_empty);
    }

pub IsParty-with_in :
    (os : Platform) (md : Bytes → Bytes → Bytes) (key : Bytes) (r : Request) (a : HawkcAlgorithm)
    (ctx : HawkcContext) (h : AuthorizationHeader)
    → IsParty os md key r a ctx
    → IsParty os md key r a (with_in ctx h)
IsParty-with_in os md key r a ctx h p = record {
  algorithm_is = p.algorithm_is;
  digest_is = p.digest_is;
  key_is = key_of-with_in ctx h ctx.password ∙ p.key_is;
  buffer_at = p.buffer_at;
  buffer_size = p.buffer_size;
  method_is = load-with_in ctx h ctx.method ∙ p.method_is;
  path_is = load-with_in ctx h ctx.path ∙ p.path_is;
  host_is = load-with_in ctx h ctx.host ∙ p.host_is;
  port_is = load-with_in ctx h ctx.port ∙ p.port_is;
}

pub Room-with_in :
    (os : Platform) (ctx : HawkcContext) (h : AuthorizationHeader) (n size : ℕ)
    → Room os ctx n size
    → Room os (with_in ctx h) n size
unfolding calloc_answer
Room-with_in os ctx h n _ (static fits) = static fits
Room-with_in os ctx h n _ (dynamic above below given paired) = dynamic above below given paired

-- The contents of the header that is sent.
abbrev pub signed_contents : (Bytes → Bytes → Bytes) → Bytes → Request → Contents → Contents
signed_contents md key r c = record c { mac = mac_of md key (base_text r c) }

module _ (os : Platform) (platform : IsPlatform os) (md : Bytes → Bytes → Bytes) (key : Bytes)
    (r : Request) (c : Contents) (room : ℕ) (a : HawkcAlgorithm) (ctx : HawkcContext)
    (party : IsParty os md key r a ctx) (positive_time : 0 < c.ts) (fits : required r c < 2 ^ 64)
    (has_room : Room os ctx (required r c) room) where
  -- After the length is calculated, the client's header has the MAC of its base string.
  pub client_ready :
      IsCarried ctx ctx.header_out c
      → IsApart ctx.header_out
      → 0 < length c.id
      → 0 < length c.nonce
      → (after : HawkcContext) × (calculate_authorization_header_length os ctx
          ≡ done (header_length after.header_out) after)
        × IsCarried after after.header_out (signed_contents md key r c)
        × (after.malloc ≡ ctx.malloc)
        × (after.free ≡ ctx.free)
  client_ready x apart id_given nonce_given =
      let h = ctx.header_out in
      let (base, after, mac, base_is, prepared, header_is, mac_is, same, allocator, freer) =
        calculate_authorization_header_length_lem os platform ctx a md key room
          (Party-IsSigning party x platform room positive_time fits has_room)
          (omega (arith, length-load ctx h.id c.id x.id_is))
          (omega (arith, length-load ctx h.nonce c.nonce x.nonce_is)) in
      let base_same : some (base_text r c) ≡ some base =
        sym (create_base_string-base_text party x) ∙ base_is in
      let text_same : base ≡ base_text r c = cc in
      (
        after,
        prepared,
        rw header_is (record {
          id_is = same h.id apart.id_apart ∙ x.id_is;
          nonce_is = same h.nonce apart.nonce_apart ∙ x.nonce_is;
          mac_is = mac_is ∙ ap (λ b. some (mac_of md key b)) text_same;
          ts_is = x.ts_is;
          ts_small = x.ts_small;
          ext_is = same h.ext apart.ext_apart ∙ x.ext_is;
          app_is = same h.app apart.app_apart ∙ x.app_is;
          dlg_is = same h.dlg apart.dlg_apart ∙ x.dlg_is;
        }),
        allocator,
        freer,
      )

  -- A context whose parsed header has the MAC of its base string is found valid.
  pub found_valid :
      IsCarried ctx ctx.header_in c
      → ctx.header_in.mac ≡ of_bytes (mac_of md key (base_text r c))
      → (after : HawkcContext) × (validate_hmac os ctx ≡ done true after)
  found_valid x mac_is =
      let mac = mac_of md key (base_text r c) in
      let at_mac = ap (λ b. record { len = length mac; chars = at b }) (sym (append-nil mac)) in
      let (base, valid, after, base_is, validated, right) =
        validate_hmac_lem os platform ctx a md key mac [] room
          (Party-IsSigning party x platform room positive_time fits has_room) (mac_is ∙ at_mac) in
      let base_same : some (base_text r c) ≡ some base =
        sym (create_base_string-base_text party x) ∙ base_is in
      let text_same : base_text r c ≡ base = cc in
      (after, validated ∙ ap (λ v. done v after) (right.1 (ap (mac_of md key) text_same)))

pub Room-small : (os : Platform) (ctx : HawkcContext) (n size : ℕ) → Room os ctx n size → n < 2 ^ 64
Room-small os ctx n _ (static fits) = omega arith
Room-small os ctx n _ (dynamic above below given paired) = omega arith
