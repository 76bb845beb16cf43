-- ===== src/Hawk/Options.antt =====
-- The options of hawk/hawk.c.
use hawkc.Base.{
  ℕ, ◌+◌, ◌==◌, if◌then◌else◌, Bool, ◌||◌, List, [], ◌∷◌, Option, none, some, Bytes, String, codes,
  length, equal,
}
use hawkc.Base.Int.{ℤ, pos, cast_int, is_negative, ltb_ℤ}
use hawkc.Context.{HawkcContext, HawkcAlgorithm, init}
use hawkc.Context.Setters.{set_clock_offset}
use hawkc.Crypto.{Platform, algorithm_by_name}
use hawkc.Hawk.Process.{
  Program, pure, ◌>>=◌, ◌>>◌, exit, print, warn, unable_to_allocate_for, port_not_a_valid_integer,
  offset_not_a_valid_integer, not_a_valid_port_number, algorithm_not_known, mode_not_known,
}

pub data Mode : Type 0 where
  plain curl blitz header qheader : Mode

-- The variables of main that options set; `none` is NULL.
pub record Variables : Type 0 where
  pub ctx : HawkcContext
  pub id : Option Bytes
  pub password : Option Bytes
  pub method : Option Bytes
  pub host : Option Bytes
  pub port : Option Bytes
  pub path : Option Bytes
  pub ext : Option Bytes
  pub mode : Mode
  pub algorithm : Option HawkcAlgorithm

unfoldable pub defaults : Variables
defaults = record {
  ctx = init;
  id = none;
  password = none;
  method = none;
  host = none;
  port = none;
  path = none;
  ext = none;
  mode = plain;
  algorithm = none;
}

-- One answer of getopt: the option, and what optarg points to.
pub record Opt : Type 0 where
  pub option : ℕ
  pub optarg : Bytes

-- What strtol returns in base 10, and whether it sets errno.
pub record Strtol : Type 0 where
  pub result : ℤ
  pub errno : Bool

abbrev pub usage_text : Bytes
usage_text =
    codes
      "Usage: hawk -i <id> -p <password> -H <host> -P <path> [-M <method>] [-O port] [-a <algorithm>] [-e <ext>] [-o <offset>] [-hv]\n"

abbrev pub usage : Program (Unit {0})
usage = print usage_text

unfoldable pub help : Program (Unit {0})
help = do
  print (codes "\n")
  print (
      codes
        "hawk - Generating curl commandline invocations from request data and Hawk parameters\n\n")
  print (codes " \n")
  usage
  print (codes "Options:\n")
  print (codes "    -h               Show this screen\n")
  print (codes "    -v               Verbose mode to print some diagnostic messages\n")
  print (codes "    -p <password>    Password to use for sealing/unsealing\n")
  print (codes "    -i <id>          Id to put in 'id' header parameter\n")
  print (codes "    -H <host>        Host to use for request\n")
  print (codes "    -P <path>        URI path to use for request\n")
  print (codes "    -M <method>      HTTP method to use; defaults to 'GET'\n")
  print (codes "    -O <port>        Port to use for request; defaults to '80'\n")
  print (codes "    -a <algorithm>   Algorithm to use for HMAC generation; defaults to sha1\n")
  print (codes "    -e <ext>         Arbitrary string to put into 'ext' header parameter\n")
  print (codes "    -o <offset>      Number of seconds to use for clock offset\n")
  print (
      codes
        "    -m <mode>        Output mode. Can be 'plain' (default), 'curl','blitz','header' or 'qheader'\n")
  print (codes "\n")

abbrev pub mode_by_name : Bytes → Option Mode
mode_by_name name =
    if equal (codes "plain") name
    then some plain
    else if equal (codes "curl") name
    then some curl
    else if equal (codes "blitz") name
    then some blitz
    else if equal (codes "header") name
    then some header
    else if equal (codes "qheader") name
    then some qheader
    else none

-- An unknown mode is reported, and the mode stays.
unfoldable pub choose_mode : Bytes → Option Mode → Variables → Program Variables
choose_mode name (some m) o = pure (record o { mode = m })
choose_mode name none o = warn (mode_not_known name) >> pure o

unfoldable pub choose_algorithm : Bytes → Option HawkcAlgorithm → Variables → Program Variables
choose_algorithm name (some a) o = pure (record o { algorithm = some a })
choose_algorithm name none o = warn (algorithm_not_known name) >> exit 4

-- `p < 0 || p > 0xFFFF`
unfoldable pub out_of_range : ℤ → Bool
out_of_range p = is_negative p || ltb_ℤ (pos 0xffff) p

module _ (os : Platform) (strtol : Bytes → Strtol) where
  -- A copy of optarg, which is `text` in all calls.
  unfoldable pub mystrdup : Bytes → String → Program Bytes
  mystrdup text fieldname =
      if os.malloc (length text + 1)
      then pure text
      else (warn (unable_to_allocate_for fieldname) >> exit 1)

  unfoldable pub choose_port : Bytes → Variables → Program Variables
  choose_port text o = do
    port ← mystrdup text "port"
    if (strtol port).errno then warn port_not_a_valid_integer else pure tt
    if out_of_range (cast_int (strtol port).result)
        then (warn (not_a_valid_port_number (cast_int (strtol port).result)) >> exit 4)
        else pure (record o { port = some port })

  unfoldable pub choose_offset : Bytes → Variables → Program Variables
  choose_offset text o = do
    if (strtol text).errno then warn offset_not_a_valid_integer else pure tt
    pure (record o { ctx = set_clock_offset o.ctx (cast_int (strtol text).result) })

  -- The switch over one option; without a case for it, nothing happens.
  unfoldable pub handle_option : Opt → Variables → Program Variables
  handle_option opt o =
      if opt.option == b'i'
      then (mystrdup opt.optarg "id" >>= λ v. pure (record o { id = some v }))
      else if opt.option == b'p'
      then (mystrdup opt.optarg "password" >>= λ v. pure (record o { password = some v }))
      else if opt.option == b'M'
      then (mystrdup opt.optarg "method" >>= λ v. pure (record o { method = some v }))
      else if opt.option == b'H'
      then (mystrdup opt.optarg "host" >>= λ v. pure (record o { host = some v }))
      else if opt.option == b'O'
      then choose_port opt.optarg o
      else if opt.option == b'P'
      then (mystrdup opt.optarg "path" >>= λ v. pure (record o { path = some v }))
      else if opt.option == b'e'
      then (mystrdup opt.optarg "ext" >>= λ v. pure (record o { ext = some v }))
      else if opt.option == b'o'
      then choose_offset opt.optarg o
      else if opt.option == b'a'
      then choose_algorithm opt.optarg (algorithm_by_name opt.optarg) o
      else if opt.option == b'm'
      then choose_mode opt.optarg (mode_by_name opt.optarg) o
      else if opt.option == b'h'
      then (help >> exit 0)
      else if opt.option == b'?'
      then (usage >> exit 1)
      else pure o

  -- The loop over what getopt returns up to EOF.
  unfoldable pub read_options : List Opt → Variables → Program Variables
  read_options [] o = pure o
  read_options (opt ∷ opts) o = handle_option opt o >>= read_options opts
