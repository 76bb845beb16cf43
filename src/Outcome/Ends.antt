-- ===== src/Outcome/Ends.antt =====
-- Postconditions of calls that the model does not cut short.
use hawkc.Base.{◌≡◌, ◌≢◌, refl, Bool, true, false, if◌then◌else◌, Option, none, some}
use hawkc.Context.Error.{HawkcError}
use hawkc.Outcome.{Outcome, Action, done, failed, fault, no_fuel, bind, checked}

-- If the call returns without an error, `P` holds of its result. The fuel was enough.
pub data Ends {S A : Type 0} (P : A → Type 0) : Outcome S A → Type 0 where
  returns : {a : A} {s : S} → P a → Ends P (done a s)
  fails : {e : HawkcError} {s : S} → Ends P (failed e s)
  faults : Ends P fault

module _ {S A : Type 0} {P : A → Type 0} where
  pub Ends-ne-no_fuel : {o : Outcome S A} → Ends P o → o ≢ no_fuel
  Ends-ne-no_fuel (returns p) e = cc
  Ends-ne-no_fuel fails e = cc
  Ends-ne-no_fuel faults e = cc

  pub Ends-bind :
      {B : Type 0} {Q : B → Type 0} {o : Outcome S A} {f : A → Action S B}
      → Ends P o
      → ((a : A) (s : S) → P a → Ends Q (f a s))
      → Ends Q (bind o f)
  Ends-bind (returns p) next = next _ _ p
  Ends-bind fails next = fails
  Ends-bind faults next = faults

  pub Ends-mono : {Q : A → Type 0} {o : Outcome S A} → Ends P o → ((a : A) → P a → Q a) → Ends Q o
  Ends-mono (returns p) weaken = returns (weaken _ p)
  Ends-mono fails weaken = fails
  Ends-mono faults weaken = faults

  pub Ends-if :
      (b : Bool) (m n : Action S A) (s : S)
      → (b ≡ true → Ends P (m s))
      → (b ≡ false → Ends P (n s))
      → Ends P ((if b then m else n) s)
  Ends-if true m n s hm hn = hm refl
  Ends-if false m n s hm hn = hn refl

  pub Ends-checked : (o : Option A) (s : S) → ((a : A) → o ≡ some a → P a) → Ends P (checked o s)
  Ends-checked none s h = faults
  Ends-checked (some a) s h = returns (h a refl)

-- A call that the model does not cut short.
pub Ends-of : {S A : Type 0} (o : Outcome S A) → o ≢ no_fuel → Ends (λ _. Unit {0}) o
Ends-of (done a s) h = returns tt
Ends-of (failed e s) h = fails
Ends-of fault h = faults
Ends-of no_fuel h = absurd (h refl)
