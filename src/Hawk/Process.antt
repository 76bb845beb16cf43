-- ===== src/Hawk/Process.antt =====
-- The process that hawk/hawk.c runs in: what it prints, and how it ends.
use hawkc.Base.{ℕ, List, ◌∷◌, ◌++◌, Option, none, some, Bytes, String}
use hawkc.Base.Int.{ℤ}
use hawkc.Context.{ErrorString}

-- What goes to the standard error, by the format and its arguments; errno's text is not modelled.
pub data Message : Type 0 where
  unable_to_allocate_for : String → Message
  port_not_a_valid_integer offset_not_a_valid_integer : Message
  not_a_valid_port_number : ℤ → Message
  algorithm_not_known mode_not_known : Bytes → Message
  error_calculating_size : ErrorString → Message
  unable_to_allocate : ℤ → ErrorString → Message

-- What has been printed; the last message stands first.
pub record Printed : Type 0 where
  pub stdout : Bytes
  pub stderr : List Message

-- `crashes` is undefined behaviour; `unfinished` is a loop that the model cuts short.
pub data Process (A : Type 0) : Type 0 where
  runs : A → Printed → Process A
  exits : ℕ → Printed → Process A
  crashes : Process A
  unfinished : Process A

abbrev pub Program : Type 0 → Type 0
Program A = Printed → Process A

abbrev pub pure : {A : Type 0} → A → Program A
pure a p = runs a p

abbrev pub proceed : {A B : Type 0} → Process A → (A → Program B) → Process B
proceed (runs a p) f = f a p
proceed (exits n p) f = exits n p
proceed crashes f = crashes
proceed unfinished f = unfinished

infixl 5 ◌>>=◌ ◌>>◌
abbrev pub ◌>>=◌ : {A B : Type 0} → Program A → (A → Program B) → Program B
◌>>=◌ m f p = proceed (m p) f

abbrev pub ◌>>◌ : {B : Type 0} → Program (Unit {0}) → Program B → Program B
m >> k = m >>= λ _. k

abbrev pub exit : {A : Type 0} → ℕ → Program A
exit n p = exits n p

-- printf, and fprintf to stderr.
abbrev pub print : Bytes → Program (Unit {0})
print text p = runs tt (record p { stdout = p.stdout ++ text })

abbrev pub warn : Message → Program (Unit {0})
warn message p = runs tt (record p { stderr = message ∷ p.stderr })

-- An access that may be out of range.
abbrev pub checked : {A : Type 0} → Option A → Program A
checked none p = crashes
checked (some a) p = runs a p
