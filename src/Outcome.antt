-- ===== src/Outcome.antt =====
-- What a call of a C function that returns a HawkcError comes to: the state it leaves, with its
-- out parameters where it returns HAWKC_OK. `fault` is undefined behaviour (a read or write out
-- of range, a signed overflow, a failed assertion); `no_fuel` is a loop cut short by the model.
pub mod Ends
pub mod Gives
pub mod Keeps
pub mod Done
use hawkc.Base.{◌≡◌, refl, Option, none, some}
use hawkc.Context.Error.{HawkcError}

pub data Outcome (S A : Type 0) : Type 0 where
  done : A → S → Outcome S A
  failed : HawkcError → S → Outcome S A
  fault : Outcome S A
  no_fuel : Outcome S A

-- `if ((e = f(ctx, ...)) != HAWKC_OK) return e;` is a bind.
abbrev pub Action : Type 0 → Type 0 → Type 0
Action S A = S → Outcome S A

module _ {S : Type 0} where
  abbrev pub pure : {A : Type 0} → A → Action S A
  pure a s = done a s

  abbrev pub bind : {A B : Type 0} → Outcome S A → (A → Action S B) → Outcome S B
  bind (done a s) f = f a s
  bind (failed e s) f = failed e s
  bind fault f = fault
  bind no_fuel f = no_fuel

  infixl 5 ◌>>=◌ ◌>>◌
  abbrev pub ◌>>=◌ : {A B : Type 0} → Action S A → (A → Action S B) → Action S B
  ◌>>=◌ m f s = bind (m s) f

  abbrev pub ◌>>◌ : {B : Type 0} → Action S (Unit {0}) → Action S B → Action S B
  m >> k = m >>= λ _. k

  -- An access that may be out of range.
  abbrev pub checked : {A : Type 0} → Option A → Action S A
  checked none s = fault
  checked (some a) s = done a s

  abbrev pub get : Action S S
  get s = done s s

  abbrev pub modify : (S → S) → Action S (Unit {0})
  modify f s = done tt (f s)

  -- What follows a call may be replaced, where it is the same from every state.
  pub bind-bind :
      {A B : Type 0} (o : Outcome S (Unit {0})) (k : Action S A) (r : A → Action S B)
      (k' : Action S B)
      → ((s : S) → bind (k s) r ≡ k' s)
      → bind (bind o (λ _. k)) r ≡ bind o (λ _. k')
  bind-bind (done a s) k r k' same = same s
  bind-bind (failed e s) k r k' same = refl
  bind-bind fault k r k' same = refl
  bind-bind no_fuel k r k' same = refl

  pub bind_same :
      {A B : Type 0} (o : Outcome S A) (k k' : Action S B)
      → ((s : S) → k s ≡ k' s)
      → bind o (λ _. k) ≡ bind o (λ _. k')
  bind_same (done a s) k k' same = same s
  bind_same (failed e s) k k' same = refl
  bind_same fault k k' same = refl
  bind_same no_fuel k k' same = refl
