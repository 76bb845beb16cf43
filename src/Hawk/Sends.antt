-- ===== src/Hawk/Sends.antt =====
-- What hawk/hawk.c prints, a server of hawkc/authorization.c accepts.
use hawkc.Base.{
  ℕ, ◌<◌, ◌^◌, leb, true, false, [], ◌∷◌, ◌++◌, List, none, some, Bytes, length, All, ◌≡◌, refl, ap,
  ◌∙◌, arith,
}
use hawkc.Base.Int.{ℤ, pos, cast_int, is_zero, ◌+ℤ◌}
use hawkc.Outcome.{done}
use hawkc.Parser.Grammar.{IsQuoted}
use hawkc.Context.{HawkcContext, HawkcAlgorithm, Block, init, take-length, max_nonce_bytes}
use hawkc.Context.Setters.{set_clock_offset}
use hawkc.Time.Ttoa.Numeral.{cast_int_small}
use hawkc.Crypto.Key.{length-key_of}
use hawkc.Crypto.{Platform, IsPlatform, digest}
use hawkc.Context.Memory.{
  is_set, malloc, malloc_answer, calloc_answer, new_block, with_blocks, free-with_blocks,
}
use hawkc.Authorization.{
  parse_authorization_header, validate_hmac, calculate_authorization_header_length,
}
use hawkc.Authorization.Buffer.{Room, static, dynamic}
use hawkc.Authorization.Create.{create_authorization_header, optional_field}
use hawkc.Authorization.Freed.{load-memory}
use hawkc.Authorization.Text.{header_text}
use hawkc.Authorization.Party.{IsParty, required}
use hawkc.Authorization.Ready.{IsFresh, Room-small, signed_contents, client_ready}
use hawkc.Authorization.Accepts.{server_accepts}
use hawkc.Authorization.Fill.{filled, calculate-filled}
use hawkc.Authorization.Sized.{length-header_text}
use hawkc.Hawk.{
  main, write_header, with_length, output, up_to_zero, format_text, Call, prepare, or_default,
}
use hawkc.Hawk.Process.{Printed, exits, ◌>>=◌, ◌>>◌}
use hawkc.Hawk.Options.{Mode, Variables, Strtol, defaults}
use hawkc.Hawk.Settings.{Setting, IsSetting, opts_of, all_applied, read_options-all_applied}
use hawkc.Hawk.Client.{
  IsCall, client, request_of, contents_of, check_options-IsCall, all_applied-ctx, prepare-client,
  contents_of-IsQuotable, filled-IsCarried, filled-IsParty, filled-IsApart, nonce_length,
}

abbrev pub shown : Mode → Call → Bytes → Printed → Printed
shown mode c text p = record p { stdout = p.stdout ++ output mode c (up_to_zero text) }

-- Where the context has no function of the caller, the buffer is the C library's.
malloc_default :
    (os : Platform) (ctx : HawkcContext) (n : ℕ)
    → ctx.malloc ≡ none
    → os.malloc n ≡ true
    → let b = new_block false ctx in malloc os ctx n ≡ (some b, with_blocks (b ∷ ctx.blocks) ctx)
unfolding malloc malloc_answer
malloc_default os ctx n default given = rw (default, given) refl

create_allocated :
    (bs : List Block) (ctx : HawkcContext)
    → create_authorization_header (with_blocks bs ctx) ≡ create_authorization_header ctx
unfolding create_authorization_header optional_field
create_allocated bs ctx =
    let h = ctx.header_out in
    rw
      (
        load-memory ctx.free bs ctx h.id,
        load-memory ctx.free bs ctx h.nonce,
        load-memory ctx.free bs ctx h.mac,
        load-memory ctx.free bs ctx h.ext,
        load-memory ctx.free bs ctx h.app,
        load-memory ctx.free bs ctx h.dlg,
      )
      refl

write_header-shown :
    (os : Platform) (strtol : Bytes → Strtol) (mode : Mode) (c : Call) (text : Bytes)
    (ready : HawkcContext) (p : Printed)
    → ready.malloc ≡ none
    → ready.free ≡ none
    → os.malloc (length text) ≡ true
    → create_authorization_header ready ≡ some text
    → length text < 2 ^ 31
    → write_header os strtol mode c (length text) (malloc os ready (length text)) p
      ≡ exits 0 (shown mode c text p)
unfolding write_header
write_header-shown os strtol mode c text ready p default freed given created small =
    let b = new_block false ready in
    let fits : leb (length text) (length text) ≡ true = ground arith in
    let whole : format_text (cast_int (pos (length text))) text ≡ some (up_to_zero text) =
      unfold format_text in rw (cast_int_small (length text) small, take-length text) in
    rw (
      malloc_default os ready (length text) default given,
      create_allocated (b ∷ ready.blocks) ready,
      created,
      fits,
      whole,
      free-with_blocks b ready.blocks ready (ap is_set freed),
      ◌>>=◌,
      ◌>>◌,
    )

init_malloc : init.malloc ≡ none
unfolding init
init_malloc = refl

init_free : init.free ≡ none
unfolding init
init_free = refl

Room-filled :
    (os : Platform) (c : Call) (n : ℤ) (random : Bytes) (k room : ℕ)
    → Room os init k room
    → Room os (filled os random (client c n)) k room
unfolding calloc_answer init
Room-filled os c n random k _ (static fits) = static fits
Room-filled os c n random k _ (dynamic above below given paired) = dynamic above below given paired

module _ (os : Platform) (platform : IsPlatform os) (strtol : Bytes → Strtol) (ss : List Setting)
    (c : Call) (md : Bytes → Bytes → Bytes) (random : Bytes) (t room : ℕ) where
  abbrev pub chosen : Variables
  chosen = all_applied os strtol ss defaults

  -- The header that is sent.
  abbrev pub sent_text : Bytes
  sent_text = header_text (signed_contents md c.password (request_of c) (contents_of c random t))

  -- The options can be read and give this call; its parts can be quoted; the digest, the random
  -- bytes, the time and the buffers are there, and the header is shorter than 2 ^ 31 bytes.
  pub record IsUse : Type 0 where
    pub settings : All (IsSetting os strtol) ss
    pub call : IsCall chosen c
    pub digest_is : digest os c.algorithm ≡ some md
    pub drawn : os.rand_bytes max_nonce_bytes ≡ some random
    pub now : os.time +ℤ chosen.ctx.offset ≡ pos t
    pub positive_time : 0 < t
    pub small_time : t < 2 ^ 31
    pub id_given : 0 < length c.id
    pub id_quoted : IsQuoted c.id
    pub ext_quoted : IsQuoted (or_default [] c.ext)
    pub has_room : Room os init (required (request_of c) (contents_of c random t)) room
    pub short : length sent_text < 2 ^ 31
    pub buffer_given : os.malloc (length sent_text) ≡ true

  abbrev signer : HawkcContext
  signer = filled os random (client c chosen.ctx.offset)

  chosen_ctx : chosen.ctx ≡ set_clock_offset init chosen.ctx.offset
  unfolding defaults
  chosen_ctx = all_applied-ctx os strtol ss defaults

  -- The length is calculated for the context with time and nonce.
  calculated :
      IsUse
      → calculate_authorization_header_length os (prepare c chosen.ctx)
        ≡ calculate_authorization_header_length os signer
  calculated u =
      let n = chosen.ctx.offset in
      let prepared : prepare c chosen.ctx ≡ client c n =
        ap (prepare c) chosen_ctx ∙ prepare-client c n in
      let later : is_zero (os.time +ℤ n) ≡ false =
        ap is_zero u.now ∙ ground (arith, u.positive_time) in
      ap (calculate_authorization_header_length os) prepared
      ∙ unfold init in
        calculate-filled os platform (client c n) random u.drawn refl refl refl u.id_given refl
          later

  main_calculated :
      IsUse
      → (p : Printed) (len : ℕ) (ready : HawkcContext)
      → calculate_authorization_header_length os (prepare c chosen.ctx) ≡ done len ready
      → main os strtol (opts_of ss) p
        ≡ write_header os strtol chosen.mode c len (malloc os ready len) p
  unfolding main with_length
  main_calculated u p len ready is = rw (
    read_options-all_applied os strtol ss defaults p u.settings,
    check_options-IsCall chosen c p u.call,
    is,
    ◌>>=◌,
  )

  -- For a command line of options that can be read (memory for the copies, numbers in range, known
  -- algorithm and mode, the last of a kind counting) with an id that is not empty, a password, a
  -- host and a path, main exits with status 0, and prints for the mode a header (up to a zero byte
  -- in it) such that a server which has the same password, method, path, host and port, a digest
  -- of the same function, its HMAC buffer as hawkc_context_init sets it up, and no ext, app or dlg
  -- of an earlier header, parses its text with HAWKC_OK, and hawkc_validate_hmac then says that it
  -- is valid. Assumed are: id and ext can stand between quotes; RAND_bytes gives six bytes; the
  -- time with the offset is from 1 to 2 ^ 31 - 1; there is a buffer for the base string on both
  -- sides, and one for the header, which is shorter than 2 ^ 31 bytes; OpenSSL's digests have 20
  -- and 32 bytes; and the server's password is read by HMAC_Init, which takes its length as an
  -- `int`, as that of the command line.
  pub main-validate :
      (b : HawkcAlgorithm) (room' : ℕ) (server : HawkcContext) (mem : Bytes) (before : Printed)
      → IsUse
      → IsParty os md c.password (request_of c) b server
      → IsFresh server
      → Room os server (required (request_of c) (contents_of c random t)) room'
      → (text : Bytes) × (parsed : HawkcContext) × (after : HawkcContext) × (main os strtol
            (opts_of ss)
            before
          ≡ exits 0 (shown chosen.mode c text before))
        × (parse_authorization_header (text ++ mem) (length text) server ≡ done tt parsed)
        × (validate_hmac os parsed ≡ done true after)
  main-validate b room' server mem before u receiver fresh has_room' =
      let n = chosen.ctx.offset in
      let k = contents_of c random t in
      let request = request_of c in
      let room_there = Room-filled os c n random (required request k) room u.has_room in
      let (ready, done_is, carried, default, freer) =
        client_ready os platform md c.password request k room c.algorithm signer
          (filled-IsParty os platform c n random t u.drawn u.now u.small_time md u.digest_is
            (length-key_of server server.password c.password receiver.key_is))
          u.positive_time (Room-small os signer (required request k) room room_there) room_there
          (filled-IsCarried os platform c n random t u.drawn u.now u.small_time)
          (filled-IsApart os platform c n random t u.drawn u.now u.small_time) u.id_given
          (omega (arith, nonce_length os platform c n random t u.drawn u.now u.small_time)) in
      let (parsed, after, created, received, valid) =
        server_accepts os platform md c.password request k b room' ready server mem receiver carried
          (contents_of-IsQuotable c random t u.id_quoted u.ext_quoted) fresh u.positive_time
          has_room' (omega (arith, u.short)) in
      let sized =
        length-header_text ready (signed_contents md c.password request k) carried u.positive_time
          (omega (arith, u.short)) in
      let ended : calculate_authorization_header_length os (prepare c chosen.ctx)
          ≡ done (length sent_text) ready =
        calculated u ∙ done_is ∙ ap (λ l. done l ready) sized in
      let printed =
        write_header-shown os strtol chosen.mode c sent_text ready before (default ∙ init_malloc)
          (freer ∙ init_free) u.buffer_given created u.short in
      (
        sent_text,
        parsed,
        after,
        main_calculated u before (length sent_text) ready ended ∙ printed,
        received,
        valid,
      )
