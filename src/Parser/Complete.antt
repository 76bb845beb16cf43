-- ===== src/Parser/Complete.antt =====
-- hawkc/parser.c makes the calls that the grammar says, on every header of the grammar.
use hawkc.Base.{
  ℕ, zero, suc, ◌^◌, ◌<◌, ◌≤◌, ltb, true, [], ◌∷◌, ◌++◌, List, Bytes, length, length-append, ◌≡◌,
  refl, ap, arith,
}
use hawkc.Outcome.{Action, done, bind-bind, bind_same, ◌>>=◌, ◌>>◌}
use hawkc.Context.{of_bytes}
use hawkc.Parser.{
  is_token, is_space, Session, SchemeHandler, ParamHandler, advance, parse_value, parse_equals,
  parse_delimiter, parse_param, params_loop, parse_auth_header,
}
use hawkc.Parser.Grammar.{
  IsOws, Value, token, quoted, IsValue, content, render_value, Param, IsParam, render_param, Params,
  last, more, Header, header, handle_params, handle_header,
}
use hawkc.Parser.Lexemes.{
  at_text, Stops, consume_ows-append, parse_token-append, parse_quoted_text-append, advance-append,
}
use hawkc.Parser.Boundaries.{
  token-not-quote, Stops-token-ows, Stops-space-value, Delimits, Delimits-Stops_token,
  Delimits-Stops_space, Stops-space-Params, Stops-token-rest, suffix-lt, value_suffix-lt,
  param_suffix-lt, length-Params, render_param-pos,
}

module _ {S : Type 0} ⦃session : Session S⦄ (mem : Bytes) where
  parse_value-render :
      (v : Value) (t : Bytes) (s : S)
      → length (render_value v t) < 2 ^ 64
      → IsValue v
      → Stops is_token t
      → parse_value (at_text (render_value v t) mem) s
        ≡ done (of_bytes (content v), at_text t mem) s
  parse_value-render (token []) t s fits (ne, _) stop = absurd (ne refl)
  parse_value-render (token (c ∷ k)) t s fits (ne, (hc, h)) stop =
      unfold parse_value in
      rw (token-not-quote c hc) (parse_token-append (c ∷ k) t mem s fits (ne, (hc, h)) stop)
  parse_value-render (quoted k) t s fits h stop =
      unfold parse_value in parse_quoted_text-append t mem s fits h

  parse_equals-render :
      (t : Bytes) (s : S)
      → length (b'=' ∷ t) < 2 ^ 64
      → parse_equals (at_text (b'=' ∷ t) mem) s ≡ done (at_text t mem) s
  parse_equals-render t s fits =
      unfold parse_equals in ap (λ c. done c s) (advance-append (b'=' ∷ []) t mem fits)

module _ {S : Type 0} ⦃session : Session S⦄ (mem : Bytes) (handler : ParamHandler S) where
  -- One round reads one parameter and hands it over, and is then at the delimiter.
  parse_param-render :
      (q : Param) (t : Bytes) (s : S)
      → length (render_param q t) < 2 ^ 64
      → IsParam q
      → Delimits t
      → parse_param handler (at_text (render_param q t) mem) s
        ≡ (handler (of_bytes q.key) (of_bytes (content q.value)) >> parse_delimiter (at_text t mem))
            s
  parse_param-render q t s fits h stop =
      let at_value = render_value q.value (q.behind ++ t) in
      let at_equals = b'=' ∷ (q.before_value ++ at_value) in
      let fits1 = suffix-lt q.key (q.before_equals ++ at_equals) fits in
      let fits2 = suffix-lt q.before_equals at_equals fits1 in
      let fits3 : length (q.before_value ++ at_value) < 2 ^ 64 = omega arith in
      let fits4 = suffix-lt q.before_value at_value fits3 in
      let fits5 = value_suffix-lt q.value (q.behind ++ t) fits4 in
      let no_token =
        Stops-token-ows q.before_equals at_equals h.before_equals_ows (unfold is_token in refl) in
      let no_space : Stops is_space at_equals = unfold is_space in refl in
      unfold parse_param in
      rw
        (
          parse_token-append q.key (q.before_equals ++ at_equals) mem s fits h.key_token no_token,
          ◌>>=◌,
        )
        (rw
          (
            consume_ows-append q.before_equals at_equals mem s fits1 h.before_equals_ows no_space,
            ◌>>=◌,
          )
          (rw (parse_equals-render mem (q.before_value ++ at_value) s fits2, ◌>>=◌)
            (rw
              (
                consume_ows-append q.before_value at_value mem s fits3 h.before_value_ows
                    (Stops-space-value q.value (q.behind ++ t) h.value_valid),
                ◌>>=◌,
              )
              (rw
                (
                  parse_value-render mem q.value (q.behind ++ t) s fits4 h.value_valid
                      (Stops-token-ows q.behind t h.behind_ows (Delimits-Stops_token t stop)),
                  ◌>>=◌,
                )
                (rw (
                  consume_ows-append q.behind t mem s fits5 h.behind_ows
                      (Delimits-Stops_space t stop),
                  ◌>>=◌,
                ))))))

  params_loop_stop : (fuel : ℕ) (s : S) → params_loop fuel handler (at_text [] mem) s ≡ done tt s
  unfolding params_loop
  params_loop_stop zero s = refl
  params_loop_stop (suc fuel) s = refl

  -- A round at a parameter: the round is made, since the header is not at its end.
  params_loop-render :
      (fuel : ℕ) (q : Param) (t : Bytes) (rest : Action S (Unit {0})) (s : S)
      → length (render_param q t) < 2 ^ 64
      → IsParam q
      → Delimits t
      → ((s' : S) → (parse_delimiter (at_text t mem) >>= params_loop fuel handler) s' ≡ rest s')
      → params_loop (suc fuel) handler (at_text (render_param q t) mem) s
        ≡ (handler (of_bytes q.key) (of_bytes (content q.value)) >> rest) s
  params_loop-render fuel q t rest s fits h stop same =
      let some_left : ltb 0 (length (render_param q t)) ≡ true = render_param-pos q t in
      unfold params_loop in
      rw (some_left, parse_param-render q t s fits h stop)
        (bind-bind (handler (of_bytes q.key) (of_bytes (content q.value)) s)
          (parse_delimiter (at_text t mem)) (params_loop fuel handler) rest same)

  delimiter_end :
      (fuel : ℕ) (s : S)
      → (parse_delimiter (at_text [] mem) >>= params_loop fuel handler) s ≡ done tt s
  delimiter_end fuel s =
      let ends : parse_delimiter (at_text [] mem) s ≡ done (at_text [] mem) s =
        unfold parse_delimiter in refl in
      rw (ends, ◌>>=◌) (params_loop_stop fuel s)

  delimiter_comma :
      (ows t : Bytes) (s : S)
      → length (b',' ∷ (ows ++ t)) < 2 ^ 64
      → IsOws ows
      → Stops is_space t
      → parse_delimiter (at_text (b',' ∷ (ows ++ t)) mem) s ≡ done (at_text t mem) s
  delimiter_comma ows t s fits h stop =
      let here : advance (at_text (b',' ∷ (ows ++ t)) mem) 1 ≡ at_text (ows ++ t) mem =
        advance-append (b',' ∷ []) (ows ++ t) mem fits in
      let pos : ltb 0 (length (b',' ∷ (ows ++ t))) ≡ true = ground arith in
      unfold parse_delimiter in rw (here, pos) (consume_ows-append ows t mem s (omega arith) h stop)

  params_loop-Params :
      {qs : List Param} {t : Bytes} (fuel : ℕ) (s : S)
      → length qs ≤ fuel
      → length t < 2 ^ 64
      → Params qs t
      → params_loop fuel handler (at_text t mem) s ≡ handle_params handler qs s
  params_loop-Params fuel s enough fits Params.none = params_loop_stop fuel s
  params_loop-Params zero s enough fits (last h) = absurd (omega arith)
  params_loop-Params zero s enough fits (more ows t h ho hs) = absurd (omega arith)
  params_loop-Params (suc fuel) s enough fits (last {q} h) =
      params_loop-render fuel q [] (handle_params handler []) s fits h tt (delimiter_end fuel)
  params_loop-Params (suc fuel) s enough fits (more {q} {qs} ows t h ho hs) =
      let fits1 = param_suffix-lt q (b',' ∷ (ows ++ t)) fits in
      let fits2 = suffix-lt ows t (omega arith) in
      params_loop-render fuel q (b',' ∷ (ows ++ t)) (handle_params handler qs) s fits h refl (λ s'.
        rw (delimiter_comma ows t s' fits1 ho (Stops-space-Params hs), ◌>>=◌)
          (params_loop-Params fuel s' (omega arith) fits2 hs))

-- On a header of the grammar (a token, white space, and parameters `key=value` or `key="value"`
-- with commas between them) of fewer than 2 ^ 64 bytes, hawkc_parse_auth_header returns, and does
-- just these calls: the scheme handler with the scheme, then the parameter handler with each key
-- and value in order, up to the first that fails. This holds whatever stands behind the header in
-- memory, and for any two handlers.
pub parse_auth_header-render :
    {S : Type 0} ⦃session : Session S⦄ (scheme_handler : SchemeHandler S)
    (param_handler : ParamHandler S) {scheme : Bytes} {qs : List Param} (text mem : Bytes) (s : S)
    → Header scheme qs text
    → length text < 2 ^ 64
    → parse_auth_header (text ++ mem) (length text) scheme_handler param_handler s
      ≡ handle_header scheme_handler param_handler scheme qs s
parse_auth_header-render scheme_handler param_handler {qs = qs} text mem s
      (header {scheme} ows t hk ho alone hs) fits =
    let stops = Stops-token-rest ows t alone ho in
    let fits1 = suffix-lt scheme (ows ++ t) fits in
    let enough : length qs ≤ suc (length (text ++ mem)) = omega (
      arith,
      length-Params hs,
      length-append (scheme ++ (ows ++ t)) mem,
      length-append scheme (ows ++ t),
      length-append ows t,
    ) in
    unfold parse_auth_header in
    rw (parse_token-append scheme (ows ++ t) mem s fits hk stops, ◌>>=◌)
      (bind_same (scheme_handler (of_bytes scheme) s) _ _ (λ s'.
        rw (consume_ows-append ows t mem s' fits1 ho (Stops-space-Params hs), ◌>>=◌)
          (params_loop-Params mem param_handler _ s' enough (suffix-lt ows t fits1) hs)))
