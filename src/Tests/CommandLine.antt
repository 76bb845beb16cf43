-- ===== src/Tests/CommandLine.antt =====
-- Runs of hawk/hawk.c.
use hawkc.Base.{
  true, false, [], ◌∷◌, ◌++◌, List, some, Bytes, codes, length, replicate, ◌≡◌, refl, arith,
}
use hawkc.Base.Int.{pos, negsuc}
use hawkc.Base64
use hawkc.Base64.Plain.{all_pass-IsQuoted}
use hawkc.Sextets.{pad_of}
use hawkc.Alphabet.{encode_loop}
use hawkc.Decimal.{digits_up}
use hawkc.Hex.{bytes_to_hex}
use hawkc.Tests.Requests.{os, os-IsPlatform, request, given_header}
use hawkc.Outcome.{done}
use hawkc.Context.{HawkcContext, init, load-of_bytes}
use hawkc.Context.Setters.{set_clock_offset}
use hawkc.Crypto.Key.{key_of-of_bytes}
use hawkc.Crypto.{digest, hawkc_sha_1}
use hawkc.Time.Ttoa.{number_of_digits, count_digits}
use hawkc.Authorization.{
  calculate_authorization_header_length, parse_authorization_header, validate_hmac,
}
use hawkc.Authorization.Buffer.{Room, static}
use hawkc.Authorization.Party.{IsParty, required}
use hawkc.Authorization.Ready.{IsFresh}
use hawkc.Hawk.{main, Call}
use hawkc.Hawk.Process.{Printed, exits}
use hawkc.Hawk.Options.{
  Opt, Strtol, curl, defaults, help, usage_text, handle_option, mystrdup, read_options,
}
use hawkc.Hawk.Settings.{
  Setting, for_id, for_password, for_host, for_path, for_ext, for_mode, for_offset, opts_of,
}
use hawkc.Hawk.Client.{client, request_of, contents_of}
use hawkc.Hawk.Missing.{main-missing}
use hawkc.Authorization.Fill.{filled, calculate-filled}
use hawkc.Hawk.Sends.{IsUse, shown, main-validate}
use hawkc.Hawk.Needs.Exit.{Succeeds, main-exits_zero}

-- strtol on the one number of the examples.
abbrev strtol : Bytes → Strtol
strtol text = record { result = negsuc 4; errno = false }

abbrev blank : Printed
blank = record { stdout = []; stderr = [] }

-- hawk -i me -p no -H example.com -P /resource -e some-data -m curl -o -5 -p secret
abbrev line : List Setting
line =
    for_id (codes "me")
    ∷ for_password (codes "no")
    ∷ for_host (codes "example.com")
    ∷ for_path (codes "/resource")
    ∷ for_ext (codes "some-data")
    ∷ for_mode (codes "curl") curl
    ∷ for_offset (codes "-5")
    ∷ for_password (codes "secret")
    ∷ []

abbrev call : Call
call = record {
  id = codes "me";
  password = codes "secret";
  method = codes "GET";
  host = codes "example.com";
  port = codes "80";
  path = codes "/resource";
  ext = some (codes "some-data");
  algorithm = hawkc_sha_1;
}

abbrev md : Bytes → Bytes → Bytes
md k d = replicate 20 1

abbrev random : Bytes
random = replicate 6 7

abbrev server : HawkcContext
server = record (request (given_header [] (pos 0) [])) { algorithm = some hawkc_sha_1 }

line-IsUse : IsUse os os-IsPlatform strtol line call md random 1353832229 512
unfolding defaults init digest set_clock_offset digits_up Base64.encode Base64.encode_tail pad_of
    encode_loop bytes_to_hex number_of_digits count_digits
line-IsUse = record {
  settings = (refl, (refl, (refl, (refl, (refl, (refl, (refl, (refl, tt))))))));
  call = record {
    id_is = refl;
    password_is = refl;
    host_is = refl;
    path_is = refl;
    method_is = refl;
    port_is = refl;
    ext_is = refl;
    algorithm_is = refl;
  };
  digest_is = refl;
  drawn = refl;
  now = refl;
  positive_time = omega arith;
  small_time = omega arith;
  id_given = omega arith;
  id_quoted = all_pass-IsQuoted (codes "me") refl;
  ext_quoted = all_pass-IsQuoted (codes "some-data") refl;
  has_room = static (omega arith);
  short = omega arith;
  buffer_given = refl;
}

receiver : IsParty os md (codes "secret") (request_of call) hawkc_sha_1 server
unfolding init digest
receiver = record {
  algorithm_is = refl;
  digest_is = refl;
  key_is = key_of-of_bytes server (codes "secret") (omega arith);
  buffer_at = refl;
  buffer_size = refl;
  method_is = load-of_bytes server (codes "GET");
  path_is = load-of_bytes server (codes "/resource");
  host_is = load-of_bytes server (codes "example.com");
  port_is = load-of_bytes server (codes "80");
}

fresh : IsFresh server
fresh = record {
  ext_empty = load-of_bytes server [];
  app_empty = load-of_bytes server [];
  dlg_empty = load-of_bytes server [];
}

server-Room : Room os server (required (request_of call) (contents_of call random 1353832229)) 512
unfolding bytes_to_hex number_of_digits count_digits
server-Room = static (omega arith)

main-validate_example :
    (text : Bytes) × (parsed : HawkcContext) × (after : HawkcContext) × (main os strtol
        (opts_of line)
        blank
      ≡ exits 0 (shown curl call text blank))
    × (parse_authorization_header (text ++ []) (length text) server ≡ done tt parsed)
    × (validate_hmac os parsed ≡ done true after)
unfolding defaults
main-validate_example =
    main-validate os os-IsPlatform strtol line call md random 1353832229 512 hawkc_sha_1 512 server
      [] blank line-IsUse receiver fresh server-Room

-- hawk -i me -h
abbrev help_asked : List Opt
help_asked =
    record { option = b'i'; optarg = codes "me" } ∷ record { option = b'h'; optarg = [] } ∷ []

abbrev help_printed : Printed
help_printed = record {
  stdout =
      codes
        "\nhawk - Generating curl commandline invocations from request data and Hawk parameters\n\n \nUsage: hawk -i <id> -p <password> -H <host> -P <path> [-M <method>] [-O port] [-a <algorithm>] [-e <ext>] [-o <offset>] [-hv]\nOptions:\n    -h               Show this screen\n    -v               Verbose mode to print some diagnostic messages\n    -p <password>    Password to use for sealing/unsealing\n    -i <id>          Id to put in 'id' header parameter\n    -H <host>        Host to use for request\n    -P <path>        URI path to use for request\n    -M <method>      HTTP method to use; defaults to 'GET'\n    -O <port>        Port to use for request; defaults to '80'\n    -a <algorithm>   Algorithm to use for HMAC generation; defaults to sha1\n    -e <ext>         Arbitrary string to put into 'ext' header parameter\n    -o <offset>      Number of seconds to use for clock offset\n    -m <mode>        Output mode. Can be 'plain' (default), 'curl','blitz','header' or 'qheader'\n\n";
  stderr = [];
}

help_runs : main os strtol help_asked blank ≡ exits 0 help_printed
unfolding main read_options handle_option mystrdup help
help_runs = refl

main-exits_zero_example : Succeeds help_asked
main-exits_zero_example = main-exits_zero os strtol help_asked blank help_printed help_runs

-- The context of the call, before time and nonce are filled in.
calculate-filled_example :
    calculate_authorization_header_length os (client call (negsuc 4))
    ≡ calculate_authorization_header_length os (filled os random (client call (negsuc 4)))
unfolding init
calculate-filled_example =
    calculate-filled os os-IsPlatform (client call (negsuc 4)) random refl refl refl refl
      (omega arith) refl refl

-- hawk -i me -p secret -H example.com
abbrev pathless : List Setting
pathless = for_id (codes "me") ∷ for_password (codes "secret") ∷ for_host (codes "example.com") ∷ []

main-missing_example :
    main os strtol (opts_of pathless) blank ≡ exits 1 (record { stdout = usage_text; stderr = [] })
unfolding defaults
main-missing_example = main-missing os strtol pathless blank 1 (refl, (refl, (refl, tt))) refl
