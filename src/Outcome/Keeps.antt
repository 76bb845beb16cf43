-- ===== src/Outcome/Keeps.antt =====
-- Calls that keep an invariant of the state, whether they return or fail.
use hawkc.Base.{◌≡◌, Bool, true, false, if◌then◌else◌, Option, none, some}
use mathlib.Core.Path.{subst}
use hawkc.Context.Error.{HawkcError}
use hawkc.Outcome.{Outcome, Action, done, failed, fault, no_fuel, bind, checked}

pub data Keeps {S A : Type 0} (I : S → Type 0) : Outcome S A → Type 0 where
  returned : {a : A} {s : S} → I s → Keeps I (done a s)
  failed_in : {e : HawkcError} {s : S} → I s → Keeps I (failed e s)
  faulted : Keeps I fault
  cut : Keeps I no_fuel

-- It holds of the state that a call leaves.
abbrev AtEnd : {S A : Type 0} → (S → Type 0) → Outcome S A → Type 0
AtEnd I (done a s) = I s
AtEnd I (failed e s) = I s
AtEnd I fault = Unit
AtEnd I no_fuel = Unit

module _ {S : Type 0} {I : S → Type 0} where
  pub Keeps-bind :
      {A B : Type 0} {o : Outcome S A} {f : A → Action S B}
      → Keeps I o
      → ((a : A) (s : S) → I s → Keeps I (f a s))
      → Keeps I (bind o f)
  Keeps-bind (returned h) next = next _ _ h
  Keeps-bind (failed_in h) next = failed_in h
  Keeps-bind faulted next = faulted
  Keeps-bind cut next = cut

  pub Keeps-if :
      {A : Type 0} (b : Bool) (m n : Action S A) (s : S)
      → Keeps I (m s)
      → Keeps I (n s)
      → Keeps I ((if b then m else n) s)
  Keeps-if true m n s h k = h
  Keeps-if false m n s h k = k

  pub Keeps-checked : {A : Type 0} (o : Option A) (s : S) → I s → Keeps I (checked o s)
  Keeps-checked none s h = faulted
  Keeps-checked (some a) s h = returned h

  -- An access that faults leaves nothing to hold.
  pub Keeps-access :
      {A B : Type 0} (o : Option A) (s : S) (f : A → Action S B)
      → ((a : A) → Keeps I (f a s))
      → Keeps I (bind (checked o s) f)
  Keeps-access none s f h = faulted
  Keeps-access (some a) s f h = h a

  Keeps-AtEnd : {A : Type 0} {o : Outcome S A} → Keeps I o → AtEnd I o
  Keeps-AtEnd (returned h) = h
  Keeps-AtEnd (failed_in h) = h
  Keeps-AtEnd faulted = tt
  Keeps-AtEnd cut = tt

  pub Keeps-done : {A : Type 0} {o : Outcome S A} (a : A) (s : S) → Keeps I o → o ≡ done a s → I s
  Keeps-done a s h e = subst (AtEnd I) e (Keeps-AtEnd h)

  pub Keeps-failed :
      {A : Type 0} {o : Outcome S A} (e : HawkcError) (s : S) → Keeps I o → o ≡ failed e s → I s
  Keeps-failed e s h is = subst (AtEnd I) is (Keeps-AtEnd h)
