-- ===== src/Parser/Spans.antt =====
-- What the loops of hawkc/parser.c take off the front of any text.
use hawkc.Base.{ℕ, Bool, true, Bool-cases, inl, inr, [], ◌∷◌, ◌++◌, Bytes, All, ◌≡◌}
use hawkc.Parser.Lexemes.{Stops}

-- The bytes at the front that pass the test, up to the first that does not.
pub data Span (test : ℕ → Bool) : Bytes → Type 0 where
  span : (a t : Bytes) → All (λ c. test c ≡ true) a → Stops test t → Span test (a ++ t)

pub split_front : (test : ℕ → Bool) (t : Bytes) → Span test t
split_front test [] = span [] [] tt tt
split_front test (c ∷ t) = elim (Bool-cases (test c)) [
  | inl passes ↦ longer_span c passes (split_front test t)
  | inr stops ↦ span [] (c ∷ t) tt stops
]
  where
    longer_span : {t : Bytes} (c : ℕ) → test c ≡ true → Span test t → Span test (c ∷ t)
    longer_span c passes (span a t h stop) = span (c ∷ a) t (passes, h) stop
