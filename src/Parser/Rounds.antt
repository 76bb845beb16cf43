-- ===== src/Parser/Rounds.antt =====
-- The loop of hawkc_parse_auth_header (hawkc/parser.c) on any text with a byte other than `=` behind
-- it: what a round and the whole call have read when they return.
use hawkc.Base.{
  ℕ, ltb, true, zero, suc, ◌<◌, ◌≤◌, ◌^◌, [], ◌∷◌, ◌++◌, List, Bytes, length, length-append, ◌≡◌,
  ◌≢◌, refl, sym, ap, ◌∙◌, arith,
}
use mathlib.Core.Path.{subst}
use hawkc.Context.{HawkcString, of_bytes}
use hawkc.Outcome.Gives.{Gives, gives, Gives-bind, Gives-mono}
use hawkc.Parser.{
  is_token, is_space, Session, SchemeHandler, ParamHandler, Cursor, parse_param, params_loop,
  parse_auth_header,
}
use hawkc.Parser.Grammar.{
  IsOws, IsToken, Param, IsParam, render_param, Params, last, more, Header, header,
}
use hawkc.Parser.Lexemes.{at_text, Stops}
use hawkc.Parser.Boundaries.{length-render_param}
use hawkc.Parser.Spans.{split_front}
use hawkc.Parser.Steps.{
  consume_ows-Gives, parse_token-Gives, parse_value-Gives, parse_equals-Gives,
  parse_delimiter-Gives,
}

-- What a round of the loop has read: the last parameter, or one with a comma behind it.
data Round (mem t : Bytes) : Cursor → Type 0 where
  final : (q : Param) → IsParam q → t ≡ render_param q [] → Round mem t (at_text [] mem)
  further :
      (q : Param) (ows t' : Bytes)
      → IsParam q
      → IsOws ows
      → t ≡ render_param q (b',' ∷ (ows ++ t'))
      → length t' < 2 ^ 64
      → Round mem t (at_text t' mem)

module _ {S F : Type 0} ⦃session : Session S⦄ (handler : ParamHandler S)
    (handler_gives : (key value : HawkcString) (s : S)
      → Gives F (λ _. Unit {0}) (handler key value s))
    (x : ℕ) (mem : Bytes) (other : x ≢ b'=') where
  parse_param-Round :
      (t : Bytes) (s : S)
      → length t < 2 ^ 64
      → Gives F (Round (x ∷ mem) t) (parse_param handler (at_text t (x ∷ mem)) s)
  unfolding parse_param
  parse_param-Round t s fits =
      parse_token-Gives (x ∷ mem) s _ (split_front is_token t) fits λ key t1 e1 fits1 hk _.
        consume_ows-Gives (x ∷ mem) s _ (split_front is_space t1) fits1 λ before t2 e2 fits2 hb _.
          parse_equals-Gives x mem t2 s _ other fits2 λ t3 e3 fits3.
            consume_ows-Gives (x ∷ mem) s _ (split_front is_space t3) fits3 λ ows t4 e4 fits4 ho _.
              parse_value-Gives x mem t4 s _ fits4 λ v t5 e5 fits5 hv.
                consume_ows-Gives (x ∷ mem) s _ (split_front is_space t5) fits5
                  λ behind t6 e6 fits6 hc _.
                    let q : Param = record {
                      key = key;
                      before_equals = before;
                      before_value = ows;
                      value = v;
                      behind = behind;
                    } in
                    let valid : IsParam q = record {
                      key_token = hk;
                      before_equals_ows = hb;
                      before_value_ows = ho;
                      value_valid = hv;
                      behind_ows = hc;
                    } in
                    let text : t ≡ render_param q t6 = rw (e1, e2, e3, e4, e5, e6) refl in
                    Gives-bind (handler_gives (of_bytes key) _ s) λ _ s' _.
                      parse_delimiter-Gives x mem t6 s' fits6
                        (λ e. final q valid (text ∙ ap (render_param q) e))
                        (λ o t7 e fits7 h.
                          further q o t7 valid h (text ∙ ap (render_param q) e) fits7)

  params_loop-Params :
      (fuel : ℕ) (t : Bytes) (s : S)
      → length t ≤ fuel
      → length t < 2 ^ 64
      → Gives F
          (λ _. (qs : List Param) × Params qs t)
          (params_loop fuel handler (at_text t (x ∷ mem)) s)
  unfolding params_loop
  params_loop-Params zero [] s enough fits = gives ([], Params.none)
  params_loop-Params zero (c ∷ t) s enough fits = absurd (omega arith)
  params_loop-Params (suc fuel) [] s enough fits = gives ([], Params.none)
  params_loop-Params (suc fuel) (c ∷ t) s enough fits =
      let some_left : ltb 0 (length (c ∷ t)) ≡ true = ground arith in
      rw some_left (
        Gives-bind (parse_param-Round (c ∷ t) s fits)
          (next_round (λ t' s' enough' fits'. params_loop-Params fuel t' s' enough' fits')))
    where
      next_round :
          ((t' : Bytes) (s' : S)
            → length t' ≤ fuel
            → length t' < 2 ^ 64
            → Gives F
                (λ _. (qs : List Param) × Params qs t')
                (params_loop fuel handler (at_text t' (x ∷ mem)) s'))
          → (cursor : Cursor) (s' : S) → Round (x ∷ mem) (c ∷ t) cursor
          → Gives F
              (λ _. (qs : List Param) × Params qs (c ∷ t))
              (params_loop fuel handler cursor s')
      next_round again _ s' (final q hq e) =
          Gives-mono (again [] s' (omega arith) (omega arith))
            λ _ _. (q ∷ [], subst (Params (q ∷ [])) (sym e) (last hq))
      next_round again _ s' (further q ows t' hq ho e fits') =
          let size = ap length e in
          let longer = length-render_param q (b',' ∷ (ows ++ t')) in
          Gives-mono (again t' s' (omega (arith, size, longer, length-append ows t')) fits')
            λ _ (qs, h). (q ∷ qs, subst (Params (q ∷ qs)) (sym e) (more ows t' hq ho h))

-- Behind a scheme without white space no key can stand.
token_goes_on : (k t : Bytes) → IsToken k → Stops is_token (k ++ t) → k ++ t ≡ []
token_goes_on [] t (ne, _) stop = absurd (ne refl)
token_goes_on (c ∷ k) t (_, (hc, _)) stop = absurd (ground arith)

alone : {qs : List Param} {t : Bytes} → Params qs t → Stops is_token t → t ≡ []
alone Params.none stop = refl
alone (last {q} h) stop = token_goes_on q.key _ h.key_token stop
alone (more {q} ows t h ho hs) stop = token_goes_on q.key _ h.key_token stop

module _ {S F : Type 0} ⦃session : Session S⦄ (scheme_handler : SchemeHandler S)
    (param_handler : ParamHandler S)
    (scheme_gives : (scheme : HawkcString) (t : S)
      → Gives F (λ _. Unit {0}) (scheme_handler scheme t))
    (param_gives : (key value : HawkcString) (t : S)
      → Gives F (λ _. Unit {0}) (param_handler key value t)) where
  pub parse_auth_header-Gives :
      (text : Bytes) (x : ℕ) (mem : Bytes) (s : S)
      → length text < 2 ^ 64
      → x ≢ b'='
      → Gives F
          (λ _. (scheme : Bytes) × (qs : List Param) × Header scheme qs text)
          (parse_auth_header (text ++ (x ∷ mem)) (length text) scheme_handler param_handler s)
  unfolding parse_auth_header
  parse_auth_header-Gives text x mem s fits other =
      parse_token-Gives (x ∷ mem) s _ (split_front is_token text) fits λ scheme t1 e1 fits1 hk stop.
        Gives-bind (scheme_gives (of_bytes scheme) s) λ _ s' _.
          consume_ows-Gives (x ∷ mem) s' _ (split_front is_space t1) fits1 λ ows t2 e2 fits2 ho _.
            Gives-mono
              (params_loop-Params param_handler param_gives x mem other _ t2 s'
                (omega (
                  arith,
                  ap length e1,
                  ap length e2,
                  length-append scheme t1,
                  length-append ows t2,
                  length-append text (x ∷ mem),
                ))
                fits2)
              λ _ (qs, h). (
                scheme,
                qs,
                subst (Header scheme qs) (sym (e1 ∙ ap (◌++◌ scheme) e2)) (
                    header ows t2 hk ho
                      (λ none. alone h (subst (Stops is_token) (e2 ∙ ap (λ o. o ++ t2) none) stop))
                      h),
              )
