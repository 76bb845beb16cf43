-- ===== src/Hawk/Missing.antt =====
-- hawk/hawk.c without one of the options that it needs.
use hawkc.Base.{ℕ, ◌++◌, List, Option, none, some, Bytes, All, ◌≡◌, refl, ap}
use hawkc.Crypto.{Platform}
use hawkc.Hawk.{main, check_options}
use hawkc.Hawk.Process.{Printed, exits, ◌>>=◌, ◌>>◌}
use hawkc.Hawk.Options.{Variables, Strtol, defaults, usage_text}
use hawkc.Hawk.Settings.{Setting, IsSetting, opts_of, all_applied, read_options-all_applied}

-- The status for what is missing of id, password, host and path.
abbrev missing_of : Option Bytes → Option Bytes → Option Bytes → Option Bytes → Option ℕ
missing_of none key host path = some 2
missing_of (some _) none host path = some 2
missing_of (some _) (some _) none path = some 1
missing_of (some _) (some _) (some _) none = some 1
missing_of (some _) (some _) (some _) (some _) = none

abbrev pub missing : Variables → Option ℕ
missing o = missing_of o.id o.password o.host o.path

abbrev pub with_usage : Printed → Printed
with_usage p = record p { stdout = p.stdout ++ usage_text }

check_options-missing_of :
    (o : Variables) (n : ℕ) (p : Printed) (id key host path : Option Bytes)
    → o.id ≡ id
    → o.password ≡ key
    → o.host ≡ host
    → o.path ≡ path
    → missing_of id key host path ≡ some n
    → check_options o p ≡ exits n (with_usage p)
unfolding check_options
check_options-missing_of o n p none key host path i k h q e =
    let status : 2 ≡ n = cc in rw (i, ◌>>=◌, ◌>>◌) (ap (λ m. exits m (with_usage p)) status)
check_options-missing_of o n p (some _) none host path i k h q e =
    let status : 2 ≡ n = cc in rw (i, k, ◌>>=◌, ◌>>◌) (ap (λ m. exits m (with_usage p)) status)
check_options-missing_of o n p (some _) (some _) none path i k h q e =
    let status : 1 ≡ n = cc in rw (i, k, h, ◌>>=◌, ◌>>◌) (ap (λ m. exits m (with_usage p)) status)
check_options-missing_of o n p (some _) (some _) (some _) none i k h q e =
    let status : 1 ≡ n = cc in
    rw (i, k, h, q, ◌>>=◌, ◌>>◌) (ap (λ m. exits m (with_usage p)) status)
check_options-missing_of o n p (some _) (some _) (some _) (some _) i k h q e = absurd cc

-- On options that can be read, where one that is needed is missing, main prints the usage and
-- exits: with status 2 where id or password is missing, otherwise with status 1.
pub main-missing :
    (os : Platform) (strtol : Bytes → Strtol) (ss : List Setting) (before : Printed) (status : ℕ)
    → All (IsSetting os strtol) ss
    → missing (all_applied os strtol ss defaults) ≡ some status
    → main os strtol (opts_of ss) before ≡ exits status (with_usage before)
unfolding main
main-missing os strtol ss before status settings lacks =
    let o = all_applied os strtol ss defaults in
    rw (
      read_options-all_applied os strtol ss defaults before settings,
      check_options-missing_of o status before o.id o.password o.host o.path refl refl refl refl
          lacks,
      ◌>>=◌,
    )
