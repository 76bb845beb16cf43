-- ===== src/Hawk/Needs/Exit.antt =====
-- When hawk/hawk.c exits with status 0.
use hawkc.Base.{ℕ, suc, true, inl, inr, List, Option, none, some, Bytes, ◌≡◌, ◌⊎◌, arith}
use hawkc.Crypto.{Platform}
use hawkc.Hawk.{main, with_length, check_options, needed}
use hawkc.Hawk.Process.{Process, Printed, runs, exits, crashes, unfinished}
use hawkc.Hawk.Options.{Variables, Opt, Strtol, defaults}
use hawkc.Hawk.Leaves.{
  Leaves, on, refused, allowed, crashed, cut, Leaves-proceed, Leaves-mono, failing,
}
use hawkc.Hawk.Needs.{given, IsSetBy, Sets, read_options-Leaves}

-- The options without which there is no header.
abbrev pub HasAll : List Opt → Type 0
HasAll opts =
    (given b'i' opts ≡ true)
    × (given b'p' opts ≡ true)
    × (given b'H' opts ≡ true)
    × (given b'P' opts ≡ true)

abbrev pub Succeeds : List Opt → Type 0
Succeeds opts = (given b'h' opts ≡ true) ⊎ HasAll opts

needed-Leaves :
    (n c : ℕ) (opts : List Opt) (v : Option Bytes) (p : Printed) {Q : Type 0}
    → IsSetBy (given c opts) none v
    → Leaves (λ _. given c opts ≡ true) Q (needed (suc n) v p)
needed-Leaves n c opts none p h = failing n _
needed-Leaves n c opts (some text) p (inl e) = absurd cc
needed-Leaves n c opts (some text) p (inr e) = on e

check_options-Leaves :
    (opts : List Opt) (o : Variables) (p : Printed) {Q : Type 0}
    → Sets (λ c. given c opts) defaults o
    → Leaves (λ _. HasAll opts) Q (check_options o p)
unfolding check_options defaults
check_options-Leaves opts o p h =
    Leaves-proceed (needed-Leaves 1 b'i' opts o.id p h.id_set) λ id p1 has_id.
      Leaves-proceed (needed-Leaves 1 b'p' opts o.password p1 h.password_set) λ key p2 has_key.
        Leaves-proceed (needed-Leaves 0 b'H' opts o.host p2 h.host_set) λ host p3 has_host.
          Leaves-proceed (needed-Leaves 0 b'P' opts o.path p3 h.path_set)
            λ path p4 has_path. on (has_id, has_key, has_host, has_path)

whatever : {A : Type 0} {Q : Type 0} → Q → (m : Process A) → Leaves (λ _. Unit {0}) Q m
whatever q (runs a p) = on tt
whatever q (exits n p) = allowed q
whatever q crashes = crashed
whatever q unfinished = cut

Leaves-exits :
    {A : Type 0} {P : A → Type 0} {Q : Type 0} {m : Process A} (p : Printed)
    → Leaves P Q m
    → m ≡ exits 0 p
    → Q
Leaves-exits p (on h) e = absurd cc
Leaves-exits p (refused ne) e = absurd (ground arith)
Leaves-exits p (allowed q) e = q
Leaves-exits p crashed e = absurd cc
Leaves-exits p cut e = absurd cc

-- If main exits with status 0, there was an option -h among those that getopt returned, or there
-- were -i, -p, -H and -P, all four.
pub main-exits_zero :
    (os : Platform) (strtol : Bytes → Strtol) (opts : List Opt) (before after : Printed)
    → main os strtol opts before ≡ exits 0 after
    → Succeeds opts
unfolding main
main-exits_zero os strtol opts before after = Leaves-exits after (
    Leaves-proceed (Leaves-mono (read_options-Leaves os strtol opts defaults before) (λ o h. h) inl)
      λ o p1 h.
        Leaves-proceed (check_options-Leaves opts o p1 h)
          λ c p2 has_all. whatever (inr has_all) (with_length os strtol o.mode c _ p2))
