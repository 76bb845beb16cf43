-- ===== src/Hawk/Settings.antt =====
-- Command lines that hawk/hawk.c accepts, and what its loop over the options makes of them.
use hawkc.Base.{◌+◌, true, false, List, [], ◌∷◌, some, Bytes, length, All, ◌≡◌, refl}
use hawkc.Base.Int.{cast_int}
use hawkc.Context.{HawkcAlgorithm}
use hawkc.Context.Setters.{set_clock_offset}
use hawkc.Crypto.{Platform, algorithm_by_name}
use hawkc.Hawk.Process.{Printed, runs, ◌>>=◌, ◌>>◌}
use hawkc.Hawk.Options.{
  Variables, Opt, Strtol, Mode, mode_by_name, choose_mode, choose_algorithm, mystrdup, out_of_range,
  choose_port, choose_offset, handle_option, read_options,
}

-- An option with its argument; `stray` is an argument that belongs to no option, which getopt
-- returns as an option 1.
pub data Setting : Type 0 where
  for_id for_password for_method for_host for_port for_path for_ext for_offset stray :
      Bytes → Setting
  for_algorithm : Bytes → HawkcAlgorithm → Setting
  for_mode : Bytes → Mode → Setting

abbrev pub opt_of : Setting → Opt
opt_of (for_id text) = record { option = b'i'; optarg = text }
opt_of (for_password text) = record { option = b'p'; optarg = text }
opt_of (for_method text) = record { option = b'M'; optarg = text }
opt_of (for_host text) = record { option = b'H'; optarg = text }
opt_of (for_port text) = record { option = b'O'; optarg = text }
opt_of (for_path text) = record { option = b'P'; optarg = text }
opt_of (for_ext text) = record { option = b'e'; optarg = text }
opt_of (for_offset text) = record { option = b'o'; optarg = text }
opt_of (stray text) = record { option = 1; optarg = text }
opt_of (for_algorithm name a) = record { option = b'a'; optarg = name }
opt_of (for_mode name m) = record { option = b'm'; optarg = name }

abbrev pub opts_of : List Setting → List Opt
opts_of [] = []
opts_of (s ∷ ss) = opt_of s ∷ opts_of ss

module _ (os : Platform) (strtol : Bytes → Strtol) where
  abbrev pub CanCopy : Bytes → Type 0
  CanCopy text = os.malloc (length text + 1) ≡ true

  -- What the option needs: memory for the copy, a number in range, a known name.
  abbrev pub IsSetting : Setting → Type 0
  IsSetting (for_id text) = CanCopy text
  IsSetting (for_password text) = CanCopy text
  IsSetting (for_method text) = CanCopy text
  IsSetting (for_host text) = CanCopy text
  IsSetting (for_port text) =
      CanCopy text
      × ((strtol text).errno ≡ false)
      × (out_of_range (cast_int (strtol text).result) ≡ false)
  IsSetting (for_path text) = CanCopy text
  IsSetting (for_ext text) = CanCopy text
  IsSetting (for_offset text) = (strtol text).errno ≡ false
  IsSetting (stray text) = Unit {0}
  IsSetting (for_algorithm name a) = algorithm_by_name name ≡ some a
  IsSetting (for_mode name m) = mode_by_name name ≡ some m

  abbrev pub applied : Setting → Variables → Variables
  applied (for_id text) o = record o { id = some text }
  applied (for_password text) o = record o { password = some text }
  applied (for_method text) o = record o { method = some text }
  applied (for_host text) o = record o { host = some text }
  applied (for_port text) o = record o { port = some text }
  applied (for_path text) o = record o { path = some text }
  applied (for_ext text) o = record o { ext = some text }
  applied (for_offset text) o = record o {
    ctx = set_clock_offset o.ctx (cast_int (strtol text).result);
  }
  applied (stray text) o = o
  applied (for_algorithm name a) o = record o { algorithm = some a }
  applied (for_mode name m) o = record o { mode = m }

  -- The last option of a kind counts.
  abbrev pub all_applied : List Setting → Variables → Variables
  all_applied [] o = o
  all_applied (s ∷ ss) o = all_applied ss (applied s o)

  handle_option-applied :
      (s : Setting) (o : Variables) (p : Printed)
      → IsSetting s
      → handle_option os strtol (opt_of s) o p ≡ runs (applied s o) p
  unfolding handle_option mystrdup choose_port choose_offset choose_algorithm choose_mode
      algorithm_by_name
  handle_option-applied (for_id text) o p h = rw (h, ◌>>=◌, ◌>>◌)
  handle_option-applied (for_password text) o p h = rw (h, ◌>>=◌, ◌>>◌)
  handle_option-applied (for_method text) o p h = rw (h, ◌>>=◌, ◌>>◌)
  handle_option-applied (for_host text) o p h = rw (h, ◌>>=◌, ◌>>◌)
  handle_option-applied (for_port text) o p (h, no_error, in_range) =
      rw (h, no_error, in_range, ◌>>=◌, ◌>>◌)
  handle_option-applied (for_path text) o p h = rw (h, ◌>>=◌, ◌>>◌)
  handle_option-applied (for_ext text) o p h = rw (h, ◌>>=◌, ◌>>◌)
  handle_option-applied (for_offset text) o p h = rw (h, ◌>>=◌, ◌>>◌)
  handle_option-applied (stray text) o p h = refl
  handle_option-applied (for_algorithm name a) o p h = rw (h, ◌>>=◌, ◌>>◌)
  handle_option-applied (for_mode name m) o p h = rw (h, ◌>>=◌, ◌>>◌)

  pub read_options-all_applied :
      (ss : List Setting) (o : Variables) (p : Printed)
      → All IsSetting ss
      → read_options os strtol (opts_of ss) o p ≡ runs (all_applied ss o) p
  unfolding read_options
  read_options-all_applied [] o p h = refl
  read_options-all_applied (s ∷ ss) o p (h, hs) =
      rw (handle_option-applied s o p h, ◌>>=◌) (read_options-all_applied ss (applied s o) p hs)
