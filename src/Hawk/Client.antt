-- ===== src/Hawk/Client.antt =====
-- The context that hawk/hawk.c sets up from its options.
use hawkc.Base.{
  ℕ, ◌<◌, ◌^◌, [], ◌∷◌, List, Option, none, some, Bytes, codes, All, length, ◌≡◌, ◌≢◌, refl, sym,
  ap, ◌∙◌,
}
use hawkc.Base.Int.{ℤ, pos, ◌+ℤ◌}
use hawkc.Base64.Plain.{
  IsPlain, all_pass-IsPlain, get_or-IsPlain, plain-IsQuoted, all_pass-IsQuoted,
}
use hawkc.Hex.{bytes_to_hex, hex}
use hawkc.Parser.Grammar.{IsQuoted}
use hawkc.Context.{
  HawkcContext, HawkcString, null, of_bytes, init, load, load-of_bytes, pointee, nonce_buffer,
  hmac_buffer, max_nonce_bytes, max_nonce_hex_bytes,
}
use hawkc.Context.Setters.{
  set_clock_offset, set_algorithm, set_password, set_method, set_path, set_host, set_port, set_id,
  set_ext,
}
use hawkc.Crypto.Key.{key_of-of_bytes}
use hawkc.Crypto.{Platform, IsPlatform, digest, hawkc_sha_1}
use hawkc.Authorization.Fields.{Contents, IsQuotable}
use hawkc.Authorization.Text.{IsCarried}
use hawkc.Authorization.Party.{Request, IsParty}
use hawkc.Authorization.Ready.{IsApart}
use hawkc.Authorization.Fill.{filled, length-nonce}
use hawkc.Hawk.{Call, prepare, set_ext_given, or_default, check_options}
use hawkc.Hawk.Process.{Printed, runs, ◌>>=◌}
use hawkc.Hawk.Options.{Variables, Strtol}
use hawkc.Hawk.Settings.{
  Setting, for_id, for_password, for_method, for_host, for_port, for_path, for_ext, for_offset,
  stray, for_algorithm, for_mode, applied, all_applied,
}

module _ (os : Platform) (strtol : Bytes → Strtol) where
  -- Options set nothing but the offset of the context.
  applied-ctx :
      (s : Setting) (o : Variables)
      → (applied os strtol s o).ctx ≡ set_clock_offset o.ctx (applied os strtol s o).ctx.offset
  unfolding set_clock_offset
  applied-ctx (for_id text) o = refl
  applied-ctx (for_password text) o = refl
  applied-ctx (for_method text) o = refl
  applied-ctx (for_host text) o = refl
  applied-ctx (for_port text) o = refl
  applied-ctx (for_path text) o = refl
  applied-ctx (for_ext text) o = refl
  applied-ctx (for_offset text) o = refl
  applied-ctx (stray text) o = refl
  applied-ctx (for_algorithm name a) o = refl
  applied-ctx (for_mode name m) o = refl

  pub all_applied-ctx :
      (ss : List Setting) (o : Variables)
      → (all_applied os strtol ss o).ctx
        ≡ set_clock_offset o.ctx (all_applied os strtol ss o).ctx.offset
  unfolding set_clock_offset
  all_applied-ctx [] o = refl
  all_applied-ctx (s ∷ ss) o =
      let last = (all_applied os strtol (s ∷ ss) o).ctx.offset in
      all_applied-ctx ss (applied os strtol s o)
      ∙ ap (λ c. set_clock_offset c last) (applied-ctx s o)

-- The call is what main makes of the variables.
pub record IsCall (o : Variables) (c : Call) : Type 0 where
  pub id_is : o.id ≡ some c.id
  pub password_is : o.password ≡ some c.password
  pub host_is : o.host ≡ some c.host
  pub path_is : o.path ≡ some c.path
  pub method_is : or_default (codes "GET") o.method ≡ c.method
  pub port_is : or_default (codes "80") o.port ≡ c.port
  pub ext_is : o.ext ≡ c.ext
  pub algorithm_is : or_default hawkc_sha_1 o.algorithm ≡ c.algorithm

pub check_options-IsCall :
    (o : Variables) (c : Call) (p : Printed) → IsCall o c → check_options o p ≡ runs c p
unfolding check_options
check_options-IsCall o c p h = rw (
  h.id_is, h.password_is, h.host_is, h.path_is, h.method_is, h.port_is, h.ext_is, h.algorithm_is,
  ◌>>=◌,
)

-- The string for `ext`, or what was there.
abbrev ext_string : Option Bytes → HawkcString → HawkcString
ext_string none old = old
ext_string (some ext) old = of_bytes ext

-- The context when all setters are called.
abbrev pub client : Call → ℤ → HawkcContext
client c n = record init {
  offset = n;
  algorithm = some c.algorithm;
  password = of_bytes c.password;
  method = of_bytes c.method;
  path = of_bytes c.path;
  host = of_bytes c.host;
  port = of_bytes c.port;
  header_out = record (init.header_out) {
    id = of_bytes c.id;
    ext = ext_string c.ext init.header_out.ext;
  };
}

set_ext_given-ext_string :
    (ext : Option Bytes) (ctx : HawkcContext)
    → set_ext_given ext ctx ≡ record ctx {
      header_out = record (ctx.header_out) { ext = ext_string ext ctx.header_out.ext };
    }
unfolding set_ext
set_ext_given-ext_string none ctx = refl
set_ext_given-ext_string (some ext) ctx = refl

pub prepare-client : (c : Call) (n : ℤ) → prepare c (set_clock_offset init n) ≡ client c n
unfolding prepare init set_clock_offset set_algorithm set_password set_method set_path set_host
    set_port set_id
prepare-client c n = set_ext_given-ext_string c.ext _

abbrev pub request_of : Call → Request
request_of c = record { method = c.method; path = c.path; host = c.host; port = c.port }

-- What the header of the client has, once time and nonce are filled in.
abbrev pub contents_of : Call → Bytes → ℕ → Contents
contents_of c random t = record {
  id = c.id;
  nonce = bytes_to_hex random;
  mac = [];
  ts = t;
  ext = or_default [] c.ext;
  app = [];
  dlg = [];
}

hex-IsPlain : (bs : Bytes) → All IsPlain (bytes_to_hex bs)
unfolding bytes_to_hex
hex-IsPlain [] = tt
hex-IsPlain (b ∷ bs) =
    let digits = all_pass-IsPlain hex refl in
    (get_or-IsPlain hex _ digits, (get_or-IsPlain hex _ digits, hex-IsPlain bs))

pub contents_of-IsQuotable :
    (c : Call) (random : Bytes) (t : ℕ)
    → IsQuoted c.id
    → IsQuoted (or_default [] c.ext)
    → IsQuotable (contents_of c random t)
contents_of-IsQuotable c random t id_quoted ext_quoted = record {
  id_quoted = id_quoted;
  nonce_quoted = plain-IsQuoted (bytes_to_hex random) (hex-IsPlain random);
  mac_quoted = all_pass-IsQuoted [] refl;
  ext_quoted = ext_quoted;
  app_quoted = all_pass-IsQuoted [] refl;
  dlg_quoted = all_pass-IsQuoted [] refl;
}

load-nonce :
    (ctx : HawkcContext)
    → length ctx.nonce_bytes ≡ max_nonce_hex_bytes
    → load ctx (record { len = max_nonce_hex_bytes; chars = nonce_buffer }) ≡ some ctx.nonce_bytes
load-nonce ctx size =
    let whole : load ctx (record { len = length ctx.nonce_bytes; chars = nonce_buffer })
        ≡ load ctx (of_bytes ctx.nonce_bytes) =
      unfold load pointee in refl in
    ap (λ k. load ctx (record { len = k; chars = nonce_buffer })) (sym size)
    ∙ whole
    ∙ load-of_bytes ctx ctx.nonce_bytes

load-empty : (ctx : HawkcContext) → load ctx (record { len = 0; chars = null }) ≡ some []
unfolding load pointee
load-empty ctx = refl

load-ext_string :
    (ctx : HawkcContext) (ext : Option Bytes)
    → load ctx (ext_string ext (record { len = 0; chars = null })) ≡ some (or_default [] ext)
load-ext_string ctx none = load-empty ctx
load-ext_string ctx (some ext) = load-of_bytes ctx ext

ext_string-apart :
    (ext : Option Bytes) → (ext_string ext (record { len = 0; chars = null })).chars ≢ hmac_buffer
ext_string-apart none e = cc
ext_string-apart (some ext) e = cc

module _ (os : Platform) (platform : IsPlatform os) (c : Call) (n : ℤ) (random : Bytes) (t : ℕ)
    (drawn : os.rand_bytes max_nonce_bytes ≡ some random) (now : os.time +ℤ n ≡ pos t)
    (small : t < 2 ^ 31) where
  pub nonce_length : length (bytes_to_hex random) ≡ max_nonce_hex_bytes
  unfolding init
  nonce_length = length-nonce os platform (client c n) random drawn refl refl refl

  pub filled-IsCarried :
      let ctx = filled os random (client c n) in
      IsCarried ctx ctx.header_out (contents_of c random t)
  unfolding init
  filled-IsCarried =
      let ctx = filled os random (client c n) in
      record {
        id_is = load-of_bytes ctx c.id;
        nonce_is = load-nonce ctx nonce_length;
        mac_is = load-empty ctx;
        ts_is = now;
        ts_small = small;
        ext_is = load-ext_string ctx c.ext;
        app_is = load-empty ctx;
        dlg_is = load-empty ctx;
      }

  pub filled-IsParty :
      (md : Bytes → Bytes → Bytes)
      → digest os c.algorithm ≡ some md
      → length c.password < 2 ^ 31
      → IsParty os md c.password (request_of c) c.algorithm (filled os random (client c n))
  unfolding init
  filled-IsParty md digest_is key_short =
      let ctx = filled os random (client c n) in
      record {
        algorithm_is = refl;
        digest_is = digest_is;
        key_is = key_of-of_bytes ctx c.password key_short;
        buffer_at = refl;
        buffer_size = refl;
        method_is = load-of_bytes ctx c.method;
        path_is = load-of_bytes ctx c.path;
        host_is = load-of_bytes ctx c.host;
        port_is = load-of_bytes ctx c.port;
      }

  pub filled-IsApart : IsApart (filled os random (client c n)).header_out
  unfolding init
  filled-IsApart = record {
    id_apart = λ e. cc;
    nonce_apart = λ e. cc;
    ext_apart = ext_string-apart c.ext;
    app_apart = λ e. cc;
    dlg_apart = λ e. cc;
  }
