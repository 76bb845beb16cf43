-- ===== src/Outcome/Done.antt =====
-- Postconditions of calls where they return without an error, on the result and the state left.
use hawkc.Base.{◌≡◌, refl, Bool, true, false, if◌then◌else◌, Option, none, some}
use mathlib.Core.Path.{subst}
use hawkc.Context.Error.{HawkcError}
use hawkc.Outcome.{Outcome, Action, done, failed, fault, no_fuel, bind, checked}

pub data Done {S A : Type 0} (P : A → S → Type 0) : Outcome S A → Type 0 where
  reached : {a : A} {s : S} → P a s → Done P (done a s)
  stopped : {e : HawkcError} {s : S} → Done P (failed e s)
  undefined : Done P fault
  unfinished : Done P no_fuel

module _ {S A : Type 0} {P : A → S → Type 0} where
  pub Done-bind :
      {B : Type 0} {Q : B → S → Type 0} {o : Outcome S A} {f : A → Action S B}
      → Done P o
      → ((a : A) (s : S) → P a s → Done Q (f a s))
      → Done Q (bind o f)
  Done-bind (reached h) next = next _ _ h
  Done-bind stopped next = stopped
  Done-bind undefined next = undefined
  Done-bind unfinished next = unfinished

  pub Done-mono :
      {Q : A → S → Type 0} {o : Outcome S A}
      → Done P o
      → ((a : A) (s : S) → P a s → Q a s)
      → Done Q o
  Done-mono (reached h) weaken = reached (weaken _ _ h)
  Done-mono stopped weaken = stopped
  Done-mono undefined weaken = undefined
  Done-mono unfinished weaken = unfinished

  -- An access that is in range.
  pub Done-access :
      {B : Type 0} (o : Option B) (s : S) (f : B → Action S A)
      → ((b : B) → o ≡ some b → Done P (f b s))
      → Done P (bind (checked o s) f)
  Done-access none s f h = undefined
  Done-access (some b) s f h = h b refl

  pub Done-checked : (o : Option A) (s : S) → ((a : A) → o ≡ some a → P a s) → Done P (checked o s)
  Done-checked none s h = undefined
  Done-checked (some a) s h = reached (h a refl)

  pub Done-if :
      (b : Bool) (m n : Action S A) (s : S)
      → Done P (m s)
      → Done P (n s)
      → Done P ((if b then m else n) s)
  Done-if true m n s h k = h
  Done-if false m n s h k = k

  pub Done-returned : {o : Outcome S A} {a : A} {s : S} → o ≡ done a s → Done P o → P a s
  Done-returned is h = of_done (subst (Done P) is h)
    where
      of_done : {a : A} {s : S} → Done P (done a s) → P a s
      of_done (reached h) = h
