-- ===== src/Hawk/Needs.antt =====
-- Which options hawk/hawk.c needs before it exits with status 0.
pub mod Exit
use hawkc.Base.{
  ℕ, ◌==◌, ◌||◌, Bool, true, false, inl, inr, if◌then◌else◌, List, [], ◌∷◌, Option, none, some,
  Bytes, codes, ◌≡◌, ◌≢◌, ◌⊎◌, refl, arith, zero, suc, String,
}
use hawkc.Base.Int.{cast_int}
use hawkc.Outcome.{Outcome, done, failed, fault, no_fuel}
use hawkc.Context.{HawkcContext, HawkcAlgorithm}
use hawkc.Crypto.{Platform, algorithm_by_name}
use hawkc.Authorization.{calculate_authorization_header_length}
use hawkc.Hawk.{main, with_length, write_header, check_options, needed, prepare, Call}
use hawkc.Hawk.Process.{
  Process, Program, Printed, runs, exits, crashes, unfinished, pure, proceed, ◌>>=◌, ◌>>◌,
}
use hawkc.Hawk.Options.{
  Variables, Opt, Strtol, Mode, defaults, mode_by_name, choose_mode, choose_algorithm, mystrdup,
  out_of_range, choose_port, choose_offset, handle_option, read_options, help,
}
use hawkc.Hawk.Leaves.{
  Leaves, on, refused, allowed, crashed, cut, Leaves-proceed, Leaves-mono, Leaves-if, failing,
}

-- Is the option among these?
abbrev pub given : ℕ → List Opt → Bool
given c [] = false
given c (opt ∷ opts) = opt.option == c || given c opts

-- The variable is as before, unless these options have `c`.
abbrev pub IsSetBy : Bool → Option Bytes → Option Bytes → Type 0
IsSetBy there before after = (after ≡ before) ⊎ (there ≡ true)

pub record Sets (has : ℕ → Bool) (o o' : Variables) : Type 0 where
  pub id_set : IsSetBy (has b'i') o.id o'.id
  pub password_set : IsSetBy (has b'p') o.password o'.password
  pub host_set : IsSetBy (has b'H') o.host o'.host
  pub path_set : IsSetBy (has b'P') o.path o'.path

-- None of the variables that are needed changes.
abbrev unchanged :
    (has : ℕ → Bool) (o o' : Variables)
    → o'.id ≡ o.id
    → o'.password ≡ o.password
    → o'.host ≡ o.host
    → o'.path ≡ o.path
    → Sets has o o'
unchanged has o o' i p h q = record {
  id_set = inl i;
  password_set = inl p;
  host_set = inl h;
  path_set = inl q;
}

choose_algorithm-Leaves :
    (name : Bytes) (a : Option HawkcAlgorithm) (o : Variables) (has : ℕ → Bool) (p : Printed)
    {Q : Type 0}
    → Leaves (Sets has o) Q (choose_algorithm name a o p)
unfolding choose_algorithm
choose_algorithm-Leaves name none o has p = failing 3 _
choose_algorithm-Leaves name (some a) o has p = on (unchanged has o _ refl refl refl refl)

choose_mode-Leaves :
    (name : Bytes) (m : Option Mode) (o : Variables) (has : ℕ → Bool) (p : Printed) {Q : Type 0}
    → Leaves (Sets has o) Q (choose_mode name m o p)
unfolding choose_mode
choose_mode-Leaves name none o has p = on (unchanged has o _ refl refl refl refl)
choose_mode-Leaves name (some m) o has p = on (unchanged has o _ refl refl refl refl)

module _ (os : Platform) (strtol : Bytes → Strtol) where
  mystrdup-Leaves :
      (text : Bytes) (fieldname : String) (p : Printed) {Q : Type 0}
      → Leaves (λ _. Unit {0}) Q (mystrdup os strtol text fieldname p)
  unfolding mystrdup
  mystrdup-Leaves text fieldname p = Leaves-if (os.malloc _) _ _ p (λ e. on tt) (λ e. failing 0 _)

  -- A copy that is stored in one of the variables.
  copied :
      (text : Bytes) (fieldname : String) (f : Bytes → Variables) (o : Variables) (has : ℕ → Bool)
      (p : Printed) {Q : Type 0}
      → ((v : Bytes) → Sets has o (f v))
      → Leaves (Sets has o) Q ((mystrdup os strtol text fieldname >>= λ v. pure (f v)) p)
  copied text fieldname f o has p h =
      Leaves-proceed (mystrdup-Leaves text fieldname p) λ v p' _. on (h v)

  choose_port-Leaves :
      (text : Bytes) (o : Variables) (has : ℕ → Bool) (p : Printed) {Q : Type 0}
      → Leaves (Sets has o) Q (choose_port os strtol text o p)
  unfolding choose_port
  choose_port-Leaves text o has p = Leaves-proceed (mystrdup-Leaves text "port" p) λ port p1 _.
      Leaves-proceed {P = λ _. Unit {0}}
        (Leaves-if (strtol port).errno _ _ p1 (λ e. on tt) (λ e. on tt))
        λ _ p2 _.
          Leaves-if (out_of_range (cast_int (strtol port).result)) _ _ p2 (λ e. failing 3 _)
            λ e. on (unchanged has o _ refl refl refl refl)

  choose_offset-Leaves :
      (text : Bytes) (o : Variables) (has : ℕ → Bool) (p : Printed) {Q : Type 0}
      → Leaves (Sets has o) Q (choose_offset os strtol text o p)
  unfolding choose_offset
  choose_offset-Leaves text o has p =
      Leaves-proceed {P = λ _. Unit {0}}
        (Leaves-if (strtol text).errno _ _ p (λ e. on tt) (λ e. on tt))
        λ _ p' _. on (unchanged has o _ refl refl refl refl)

  handle_option-Leaves :
      (opt : Opt) (o : Variables) (p : Printed)
      → Leaves
          (Sets (λ c. opt.option == c) o)
          ((opt.option == b'h') ≡ true)
          (handle_option os strtol opt o p)
  unfolding handle_option help
  handle_option-Leaves opt o p =
      let has : ℕ → Bool = λ c. opt.option == c in
      let text = opt.optarg in
      Leaves-if (has b'i') _ _ p
        (λ e. copied text "id" _ o has p (λ v. record {
          id_set = inr e;
          password_set = inl refl;
          host_set = inl refl;
          path_set = inl refl;
        }))
        λ _.
          Leaves-if (has b'p') _ _ p
            (λ e. copied text "password" _ o has p (λ v. record {
              id_set = inl refl;
              password_set = inr e;
              host_set = inl refl;
              path_set = inl refl;
            }))
            λ _.
              Leaves-if (has b'M') _ _ p
                (λ e. copied text "method" _ o has p (λ v. unchanged has o _ refl refl refl refl))
                λ _.
                  Leaves-if (has b'H') _ _ p
                    (λ e. copied text "host" _ o has p (λ v. record {
                      id_set = inl refl;
                      password_set = inl refl;
                      host_set = inr e;
                      path_set = inl refl;
                    }))
                    λ _.
                      Leaves-if (has b'O') _ _ p (λ e. choose_port-Leaves text o has p)
                        λ _.
                          Leaves-if (has b'P') _ _ p
                            (λ e. copied text "path" _ o has p (λ v. record {
                              id_set = inl refl;
                              password_set = inl refl;
                              host_set = inl refl;
                              path_set = inr e;
                            }))
                            λ _.
                              Leaves-if (has b'e') _ _ p
                                (λ e.
                                  copied text "ext" _ o has p
                                    (λ v. unchanged has o _ refl refl refl refl))
                                λ _.
                                  Leaves-if (has b'o') _ _ p
                                    (λ e. choose_offset-Leaves text o has p)
                                    λ _.
                                      Leaves-if (has b'a') _ _ p
                                        (λ e.
                                          choose_algorithm-Leaves text (algorithm_by_name text) o
                                            has p)
                                        λ _.
                                          Leaves-if (has b'm') _ _ p
                                            (λ e.
                                              choose_mode-Leaves text (mode_by_name text) o has p)
                                            λ _.
                                              Leaves-if (has b'h') _ _ p (λ e. allowed e)
                                                λ _.
                                                  Leaves-if (has b'?') _ _ p (λ e. failing 0 _)
                                                    λ _. on (unchanged has o o refl refl refl refl)

  -- The variable is as before, unless one of the options has `c`.
  IsSetBy-later :
      (c : ℕ) (opt : Opt) (opts : List Opt) (before between after : Option Bytes)
      → IsSetBy (opt.option == c) before between
      → IsSetBy (given c opts) between after
      → IsSetBy (given c (opt ∷ opts)) before after
  IsSetBy-later c opt opts before between after h k = ground arith

  pub read_options-Leaves :
      (opts : List Opt) (o : Variables) (p : Printed)
      → Leaves
          (Sets (λ c. given c opts) o)
          (given b'h' opts ≡ true)
          (read_options os strtol opts o p)
  unfolding read_options
  read_options-Leaves [] o p = on (unchanged (λ c. false) o o refl refl refl refl)
  read_options-Leaves (opt ∷ opts) o p =
      Leaves-proceed (Leaves-mono (handle_option-Leaves opt o p) (λ o' h. h) (λ e. ground arith))
        λ o1 p1 h.
          Leaves-mono (read_options-Leaves opts o1 p1)
            (λ o2 k. record {
              id_set = IsSetBy-later b'i' opt opts o.id o1.id o2.id h.id_set k.id_set;
              password_set =
                  IsSetBy-later b'p' opt opts o.password o1.password o2.password h.password_set
                    k.password_set;
              host_set = IsSetBy-later b'H' opt opts o.host o1.host o2.host h.host_set k.host_set;
              path_set = IsSetBy-later b'P' opt opts o.path o1.path o2.path h.path_set k.path_set;
            })
            (λ e. ground arith)
