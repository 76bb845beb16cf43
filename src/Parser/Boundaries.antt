-- ===== src/Parser/Boundaries.antt =====
-- Where the tokens, white space and parameters of a header end, and how long they are.
use hawkc.Base.{
  ℕ, ◌^◌, ◌<◌, ◌≤◌, ltb, lt→ltb, ◌==◌, true, false, [], ◌∷◌, ◌++◌, List, Bytes, length,
  length-append, ◌≡◌, refl, arith,
}
use hawkc.Parser.{is_token, is_space}
use hawkc.Parser.Grammar.{
  IsOws, IsToken, Value, token, quoted, IsValue, render_value, Param, render_param, Params, last,
  more,
}
use hawkc.Parser.Lexemes.{Stops}

space-not-token : (c : ℕ) → is_space c ≡ true → is_token c ≡ false
unfolding is_space is_token
space-not-token c h = ground arith

pub token-not-space : (c : ℕ) → is_token c ≡ true → is_space c ≡ false
unfolding is_space is_token
token-not-space c h = ground arith

pub token-not-quote : (c : ℕ) → is_token c ≡ true → (c == b'"') ≡ false
unfolding is_token
token-not-quote c h = ground arith

-- White space stops a token, and lets what stands behind it stop one.
pub Stops-token-ows : (ows t : Bytes) → IsOws ows → Stops is_token t → Stops is_token (ows ++ t)
Stops-token-ows [] t h stop = stop
Stops-token-ows (c ∷ ows) t (hc, _) stop = space-not-token c hc

Stops-space-token : (k t : Bytes) → IsToken k → Stops is_space (k ++ t)
Stops-space-token [] t (ne, _) = absurd (ne refl)
Stops-space-token (c ∷ k) t (_, (hc, _)) = token-not-space c hc

pub Stops-space-value : (v : Value) (t : Bytes) → IsValue v → Stops is_space (render_value v t)
Stops-space-value (token k) t h = Stops-space-token k t h
Stops-space-value (quoted k) t h = unfold is_space in refl

-- What may stand behind a parameter: nothing, or a comma.
abbrev pub Delimits : Bytes → Type 0
Delimits [] = Unit
Delimits (c ∷ t) = c ≡ b','

pub Delimits-Stops_token : (t : Bytes) → Delimits t → Stops is_token t
Delimits-Stops_token [] h = tt
Delimits-Stops_token (c ∷ t) h = unfold is_token in rw h

pub Delimits-Stops_space : (t : Bytes) → Delimits t → Stops is_space t
Delimits-Stops_space [] h = tt
Delimits-Stops_space (c ∷ t) h = unfold is_space in rw h

pub Stops-space-Params : {qs : List Param} {s : Bytes} → Params qs s → Stops is_space s
Stops-space-Params Params.none = tt
Stops-space-Params (last {q} h) = Stops-space-token q.key _ h.key_token
Stops-space-Params (more {q} ows s h _ _) = Stops-space-token q.key _ h.key_token

-- Behind the scheme there is white space, or nothing.
pub Stops-token-rest : (ows t : Bytes) → (ows ≡ [] → t ≡ []) → IsOws ows → Stops is_token (ows ++ t)
Stops-token-rest [] t alone h = rw (alone refl) tt
Stops-token-rest (c ∷ ows) t alone (hc, _) = space-not-token c hc

pub suffix-lt : (a t : Bytes) → length (a ++ t) < 2 ^ 64 → length t < 2 ^ 64
suffix-lt a t h = omega (arith, length-append a t)

pub value_suffix-lt :
    (v : Value) (t : Bytes) → length (render_value v t) < 2 ^ 64 → length t < 2 ^ 64
value_suffix-lt (token k) t h = suffix-lt k t h
value_suffix-lt (quoted k) t h = omega (arith, length-append k (b'"' ∷ t))

length-render_value : (v : Value) (t : Bytes) → length t ≤ length (render_value v t)
length-render_value (token k) t = omega (arith, length-append k t)
length-render_value (quoted k) t = omega (arith, length-append k (b'"' ∷ t))

pub length-render_param : (q : Param) (t : Bytes) → length t < length (render_param q t)
length-render_param q t =
    let at_value = render_value q.value (q.behind ++ t) in
    omega (
      arith,
      length-append q.key (q.before_equals ++ (b'=' ∷ (q.before_value ++ at_value))),
      length-append q.before_equals (b'=' ∷ (q.before_value ++ at_value)),
      length-append q.before_value at_value,
      length-render_value q.value (q.behind ++ t),
      length-append q.behind t,
    )

pub param_suffix-lt :
    (q : Param) (t : Bytes) → length (render_param q t) < 2 ^ 64 → length t < 2 ^ 64
param_suffix-lt q t fits = omega (arith, length-render_param q t)

pub length-Params : {qs : List Param} {t : Bytes} → Params qs t → length qs ≤ length t
length-Params Params.none = omega arith
length-Params (last {q} h) = omega (arith, length-render_param q [])
length-Params (more {q} ows t h ho hs) =
    omega (arith, length-render_param q (b',' ∷ (ows ++ t)), length-append ows t, length-Params hs)

pub render_param-pos : (q : Param) (t : Bytes) → ltb 0 (length (render_param q t)) ≡ true
render_param-pos q t = lt→ltb 0 _ (omega (arith, length-render_param q t))
