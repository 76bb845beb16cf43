-- ===== src/Outcome/Gives.antt =====
-- Postconditions of calls that return or fail, and that are undefined or cut short only if `F`.
use hawkc.Base.{◌≡◌, ◌≢◌, refl}
use Prim.{⊥}
use mathlib.Core.Path.{subst}
use hawkc.Context.Error.{HawkcError}
use hawkc.Outcome.{Outcome, Action, done, failed, fault, no_fuel, bind}

-- If the call returns without an error, `P` holds of its result.
pub data Gives {S A : Type 0} (F : Type 0) (P : A → Type 0) : Outcome S A → Type 0 where
  gives : {a : A} {s : S} → P a → Gives F P (done a s)
  refuses : {e : HawkcError} {s : S} → Gives F P (failed e s)
  faults : F → Gives F P fault
  cut : F → Gives F P no_fuel

module _ {S A F : Type 0} {P : A → Type 0} where
  -- What holds of the result of a call that returns.
  pub Gives-returned : {o : Outcome S A} {a : A} {s : S} → o ≡ done a s → Gives F P o → P a
  Gives-returned is h = of_done (subst (Gives F P) is h)
    where
      of_done : {a : A} {s : S} → Gives F P (done a s) → P a
      of_done (gives p) = p

  pub Gives-bind :
      {B : Type 0} {Q : B → Type 0} {o : Outcome S A} {f : A → Action S B}
      → Gives F P o
      → ((a : A) (s : S) → P a → Gives F Q (f a s))
      → Gives F Q (bind o f)
  Gives-bind (gives p) next = next _ _ p
  Gives-bind refuses next = refuses
  Gives-bind (faults f) next = faults f
  Gives-bind (cut f) next = cut f

  pub Gives-mono :
      {Q : A → Type 0} {o : Outcome S A} → Gives F P o → ((a : A) → P a → Q a) → Gives F Q o
  Gives-mono (gives p) weaken = gives (weaken _ p)
  Gives-mono refuses weaken = refuses
  Gives-mono (faults f) weaken = faults f
  Gives-mono (cut f) weaken = cut f

-- A call that is neither, or any call where both are allowed.
pub Gives-of :
    {S A : Type 0} (F : Type 0) (o : Outcome S A)
    → o ≢ fault
    → o ≢ no_fuel
    → Gives F (λ _. Unit {0}) o
Gives-of F (done a s) h k = gives tt
Gives-of F (failed e s) h k = refuses
Gives-of F fault h k = absurd (h refl)
Gives-of F no_fuel h k = absurd (k refl)

pub Gives-any : {S A F : Type 0} (o : Outcome S A) → F → Gives F (λ _. Unit {0}) o
Gives-any (done a s) f = gives tt
Gives-any (failed e s) f = refuses
Gives-any fault f = faults f
Gives-any no_fuel f = cut f

-- Neither is allowed.
pub Gives-ne-fault :
    {S A : Type 0} {P : A → Type 0} {o : Outcome S A} → Gives ⊥ P o → (o ≢ fault) × (o ≢ no_fuel)
Gives-ne-fault (gives p) = (λ e. cc, λ e. cc)
Gives-ne-fault refuses = (λ e. cc, λ e. cc)
Gives-ne-fault (faults f) = absurd f
Gives-ne-fault (cut f) = absurd f
