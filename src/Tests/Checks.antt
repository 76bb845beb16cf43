-- ===== src/Tests/Checks.antt =====
-- Checks of all elements of a concrete list, by computation.
use hawkc.Base.{ℕ, ltb, Bool, true, ◌&&◌, [], ◌∷◌, Bytes, All, IsBytes, ◌≡◌, arith}

abbrev pub every : (ℕ → Bool) → Bytes → Bool
every p [] = true
every p (c ∷ s) = p c && every p s

pub every_sound : (p : ℕ → Bool) (s : Bytes) → every p s ≡ true → All (λ c. p c ≡ true) s
every_sound p [] h = tt
every_sound p (c ∷ s) h = (ground arith, every_sound p s (ground arith))

pub every_byte : (s : Bytes) → every (λ c. ltb c 256) s ≡ true → IsBytes s
every_byte [] h = tt
every_byte (c ∷ s) h = (ground arith, every_byte s (ground arith))
