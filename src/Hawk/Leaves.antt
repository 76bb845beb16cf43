-- ===== src/Hawk/Leaves.antt =====
-- How a process of hawk/hawk.c leaves a call: running on, or with which status.
use hawkc.Base.{ℕ, Bool, true, false, if◌then◌else◌, ◌≡◌, ◌≢◌, refl, arith, suc}
use hawkc.Hawk.Process.{Process, Program, Printed, runs, exits, crashes, unfinished, proceed}

-- If the process runs on, `P` holds of its result; if it exits with status 0, `Q` holds.
pub data Leaves {A : Type 0} (P : A → Type 0) (Q : Type 0) : Process A → Type 0 where
  on : {a : A} {p : Printed} → P a → Leaves P Q (runs a p)
  refused : {n : ℕ} {p : Printed} → n ≢ 0 → Leaves P Q (exits n p)
  allowed : {n : ℕ} {p : Printed} → Q → Leaves P Q (exits n p)
  crashed : Leaves P Q crashes
  cut : Leaves P Q unfinished

module _ {A : Type 0} {P : A → Type 0} {Q : Type 0} where
  pub Leaves-proceed :
      {B : Type 0} {P' : B → Type 0} {m : Process A} {f : A → Program B}
      → Leaves P Q m
      → ((a : A) (p : Printed) → P a → Leaves P' Q (f a p))
      → Leaves P' Q (proceed m f)
  Leaves-proceed (on h) next = next _ _ h
  Leaves-proceed (refused h) next = refused h
  Leaves-proceed (allowed h) next = allowed h
  Leaves-proceed crashed next = crashed
  Leaves-proceed cut next = cut

  pub Leaves-mono :
      {P' : A → Type 0} {Q' : Type 0} {m : Process A}
      → Leaves P Q m
      → ((a : A) → P a → P' a)
      → (Q → Q')
      → Leaves P' Q' m
  Leaves-mono (on h) f g = on (f _ h)
  Leaves-mono (refused h) f g = refused h
  Leaves-mono (allowed h) f g = allowed (g h)
  Leaves-mono crashed f g = crashed
  Leaves-mono cut f g = cut

  pub Leaves-if :
      (b : Bool) (m n : Program A) (p : Printed)
      → (b ≡ true → Leaves P Q (m p))
      → (b ≡ false → Leaves P Q (n p))
      → Leaves P Q ((if b then m else n) p)
  Leaves-if true m n p h k = h refl
  Leaves-if false m n p h k = k refl

pub failing :
    {A : Type 0} {P : A → Type 0} {Q : Type 0} (n : ℕ) (p : Printed) → Leaves P Q (exits (suc n) p)
failing n p = refused (λ e. omega (arith, e))
