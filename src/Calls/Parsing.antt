-- ===== src/Calls/Parsing.antt =====
-- The parsers of hawkc/authorization.c and hawkc/www_authenticate.c keep the buffers of the context
-- as they were set up.
use hawkc.Base.{ℕ, not, List, [], ◌∷◌, String, Bytes, codes}
use hawkc.Base.Int.{ℤ, pos}
use hawkc.Decimal.{is_digit}
use hawkc.Outcome.{Action, modify}
use hawkc.Outcome.Keeps.{Keeps, returned, failed_in, Keeps-bind, Keeps-if, Keeps-checked}
use hawkc.Context.{
  HawkcContext, HawkcString, Block, AuthorizationHeader, ErrorString, load, fail, set_error,
}
use hawkc.Context.Buffers.{IsContext}
use hawkc.Context.Error.{HawkcError}
use hawkc.Time.Parse.{parse_time, parse_digits, shift_in, count_up, my_digittoint}
use hawkc.Parser.Keeps.{parse_auth_header-Keeps}
use hawkc.Authorization.{
  matches, when_key, context_session, authorization_scheme_handler, param_handler,
  parse_authorization_header,
}
use hawkc.WwwAuthenticate.{
  www_authenticate_scheme_handler, www_authenticate_param_handler, parse_www_authenticate_header,
}

-- A call that keeps them, and leaves just the blocks that were allocated before.
abbrev pub KeepsBuffers : {A : Type 0} → List Block → Action HawkcContext A → Type 0
KeepsBuffers left m = (ctx : HawkcContext) → IsContext left ctx → Keeps (IsContext left) (m ctx)

module _ {left : List Block} where
  pub fail-KeepsBuffers :
      {A : Type 0} (e : HawkcError) (message : ErrorString)
      → KeepsBuffers {A = A} left (fail e message)
  unfolding fail set_error
  fail-KeepsBuffers e message ctx h = failed_in h

  set_error-IsContext :
      (ctx : HawkcContext) (e : HawkcError) (message : ErrorString)
      → IsContext left ctx
      → IsContext left (set_error ctx e message)
  unfolding set_error
  set_error-IsContext ctx e message h = h

  parse_digits-KeepsBuffers :
      (ts : HawkcString) (i : ℕ) (s : Bytes) (t : ℤ) → KeepsBuffers left (parse_digits ts i s t)
  unfolding parse_digits
  parse_digits-KeepsBuffers ts i [] t ctx h = returned h
  parse_digits-KeepsBuffers ts i (c ∷ s) t ctx h =
      Keeps-if (not (is_digit c)) _ _ ctx (fail-KeepsBuffers _ _ ctx h) (
        Keeps-bind (Keeps-checked (shift_in t (my_digittoint c)) ctx h) λ t' ctx' h'.
          Keeps-bind (Keeps-checked (count_up i) ctx' h')
            λ i' after h''. parse_digits-KeepsBuffers ts i' s t' after h'')

  parse_time-KeepsBuffers : (ts : HawkcString) → KeepsBuffers left (parse_time ts)
  unfolding parse_time
  parse_time-KeepsBuffers ts ctx h =
      Keeps-bind (Keeps-checked (load ctx ts) ctx h)
        λ chars ctx' h'. parse_digits-KeepsBuffers ts 0 chars (pos 0) ctx' h'

  when_key-KeepsBuffers :
      (key : HawkcString) (name : String) (arm otherwise : Action HawkcContext (Unit {0}))
      → KeepsBuffers left arm
      → KeepsBuffers left otherwise
      → KeepsBuffers left (when_key key name arm otherwise)
  when_key-KeepsBuffers key name arm otherwise h k ctx v =
      Keeps-bind (Keeps-checked (matches ctx key (codes name)) ctx v)
        λ same ctx' v'. Keeps-if same _ _ ctx' (h ctx' v') (k ctx' v')

  set_in-KeepsBuffers :
      (f : AuthorizationHeader → AuthorizationHeader)
      → KeepsBuffers left (modify λ ctx. record ctx { header_in = f ctx.header_in })
  set_in-KeepsBuffers f ctx h = returned h

  param_handler-KeepsBuffers :
      (key value : HawkcString) → KeepsBuffers left (param_handler key value)
  unfolding param_handler
  param_handler-KeepsBuffers key value =
      when_key-KeepsBuffers key "id" _ _ (set_in-KeepsBuffers _) (
        when_key-KeepsBuffers key "mac" _ _ (set_in-KeepsBuffers _) (
          when_key-KeepsBuffers key "hash" _ _ (set_in-KeepsBuffers _) (
            when_key-KeepsBuffers key "nonce" _ _ (set_in-KeepsBuffers _) (
              when_key-KeepsBuffers key "ts" _ _
                (λ ctx h.
                  Keeps-bind (parse_time-KeepsBuffers value ctx h) λ ts ctx' h'. returned h')
                (when_key-KeepsBuffers key "ext" _ _ (set_in-KeepsBuffers _) (
                  when_key-KeepsBuffers key "app" _ _ (set_in-KeepsBuffers _) (
                    when_key-KeepsBuffers key "dlg" _ _ (set_in-KeepsBuffers _)
                      (λ ctx h. returned h))))))))

  www_param_handler-KeepsBuffers :
      (key value : HawkcString) → KeepsBuffers left (www_authenticate_param_handler key value)
  unfolding www_authenticate_param_handler
  www_param_handler-KeepsBuffers key value =
      when_key-KeepsBuffers key "tsm" _ _ (λ ctx h. returned h)
        (when_key-KeepsBuffers key "ts" _ _
          (λ ctx h. Keeps-bind (parse_time-KeepsBuffers value ctx h) λ ts ctx' h'. returned h')
          (λ ctx h. returned h))

  scheme_handler-KeepsBuffers :
      (scheme : HawkcString) → KeepsBuffers left (authorization_scheme_handler scheme)
  unfolding authorization_scheme_handler
  scheme_handler-KeepsBuffers scheme ctx h =
      Keeps-bind (Keeps-checked (matches ctx scheme (codes "Hawk")) ctx h)
        λ hawk ctx' h'. Keeps-if hawk _ _ ctx' (returned h') (fail-KeepsBuffers _ _ ctx' h')

  www_scheme_handler-KeepsBuffers :
      (scheme : HawkcString) → KeepsBuffers left (www_authenticate_scheme_handler scheme)
  unfolding www_authenticate_scheme_handler
  www_scheme_handler-KeepsBuffers scheme ctx h =
      Keeps-bind (Keeps-checked (matches ctx scheme (codes "Hawk")) ctx h)
        λ hawk ctx' h'. Keeps-if hawk _ _ ctx' (returned h') (fail-KeepsBuffers _ _ ctx' h')

  pub parse_authorization_header-KeepsBuffers :
      (value : Bytes) (len : ℕ) → KeepsBuffers left (parse_authorization_header value len)
  unfolding parse_authorization_header
  parse_authorization_header-KeepsBuffers value len ctx h =
      parse_auth_header-Keeps (IsContext left) set_error-IsContext param_handler
        param_handler-KeepsBuffers authorization_scheme_handler value len ctx
        scheme_handler-KeepsBuffers h

  pub parse_www_authenticate_header-KeepsBuffers :
      (value : Bytes) (len : ℕ) → KeepsBuffers left (parse_www_authenticate_header value len)
  unfolding parse_www_authenticate_header
  parse_www_authenticate_header-KeepsBuffers value len ctx h =
      parse_auth_header-Keeps (IsContext left) set_error-IsContext www_authenticate_param_handler
        www_param_handler-KeepsBuffers www_authenticate_scheme_handler value len ctx
        www_scheme_handler-KeepsBuffers h
