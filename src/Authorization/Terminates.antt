-- ===== src/Authorization/Terminates.antt =====
-- The callbacks of hawkc_parse_authorization_header (hawkc/authorization.c) come to an end.
use hawkc.Base.{ℕ, not, [], ◌∷◌, String, Bytes, codes, ◌≢◌}
use hawkc.Base.Int.{ℤ, pos}
use hawkc.Decimal.{is_digit}
use hawkc.Outcome.{Action, no_fuel, modify}
use hawkc.Outcome.Ends.{Ends, returns, fails, Ends-ne-no_fuel, Ends-bind, Ends-if, Ends-checked}
use hawkc.Context.{HawkcContext, HawkcString, AuthorizationHeader, load, fail}
use hawkc.Time.Parse.{parse_time, parse_digits, shift_in, count_up, my_digittoint}
use hawkc.Authorization.{
  matches, when_key, context_session, authorization_scheme_handler, param_handler,
}

-- A call that returns, fails or is undefined.
abbrev EndsAlways : {A : Type 0} → Action HawkcContext A → Type 0
EndsAlways m = (ctx : HawkcContext) → Ends (λ _. Unit {0}) (m ctx)

parse_digits-Ends :
    (ts : HawkcString) (i : ℕ) (s : Bytes) (t : ℤ) → EndsAlways (parse_digits ts i s t)
unfolding parse_digits fail
parse_digits-Ends ts i [] t ctx = returns tt
parse_digits-Ends ts i (c ∷ s) t ctx =
    Ends-if (not (is_digit c)) _ _ ctx (λ e. fails)
      λ e. Ends-bind (Ends-checked (shift_in t (my_digittoint c)) ctx (λ t' is. tt)) λ t' ctx' _.
        Ends-bind (Ends-checked (count_up i) ctx' (λ i' is. tt))
          λ i' after _. parse_digits-Ends ts i' s t' after

parse_time-Ends : (ts : HawkcString) → EndsAlways (parse_time ts)
unfolding parse_time
parse_time-Ends ts ctx =
    Ends-bind (Ends-checked (load ctx ts) ctx (λ chars is. tt))
      λ chars ctx' _. parse_digits-Ends ts 0 chars (pos 0) ctx'

when_key-Ends :
    (key : HawkcString) (name : String) (arm otherwise : Action HawkcContext (Unit {0}))
    → EndsAlways arm
    → EndsAlways otherwise
    → EndsAlways (when_key key name arm otherwise)
when_key-Ends key name arm otherwise h k ctx =
    Ends-bind (Ends-checked (matches ctx key (codes name)) ctx (λ same is. tt))
      λ same ctx' _. Ends-if same _ _ ctx' (λ e. h ctx') (λ e. k ctx')

set_in-Ends :
    (f : AuthorizationHeader → AuthorizationHeader)
    → EndsAlways (modify λ ctx. record ctx { header_in = f ctx.header_in })
set_in-Ends f ctx = returns tt

param_handler-Ends : (key value : HawkcString) → EndsAlways (param_handler key value)
unfolding param_handler
param_handler-Ends key value = when_key-Ends key "id" _ _ (set_in-Ends _) (
    when_key-Ends key "mac" _ _ (set_in-Ends _) (
      when_key-Ends key "hash" _ _ (set_in-Ends _) (
        when_key-Ends key "nonce" _ _ (set_in-Ends _) (
          when_key-Ends key "ts" _ _
            (λ ctx. Ends-bind (parse_time-Ends value ctx) λ ts ctx' _. returns tt)
            (when_key-Ends key "ext" _ _ (set_in-Ends _) (
              when_key-Ends key "app" _ _ (set_in-Ends _)
                (when_key-Ends key "dlg" _ _ (set_in-Ends _) (λ ctx. returns tt))))))))

scheme_handler-Ends : (scheme : HawkcString) → EndsAlways (authorization_scheme_handler scheme)
unfolding authorization_scheme_handler fail
scheme_handler-Ends scheme ctx =
    Ends-bind (Ends-checked (matches ctx scheme (codes "Hawk")) ctx (λ hawk is. tt))
      λ hawk ctx' _. Ends-if hawk _ _ ctx' (λ e. returns tt) (λ e. fails)

pub scheme_handler-ne-no_fuel :
    (scheme : HawkcString) (ctx : HawkcContext) → authorization_scheme_handler scheme ctx ≢ no_fuel
scheme_handler-ne-no_fuel scheme ctx = Ends-ne-no_fuel (scheme_handler-Ends scheme ctx)

pub param_handler-ne-no_fuel :
    (key value : HawkcString) (ctx : HawkcContext) → param_handler key value ctx ≢ no_fuel
param_handler-ne-no_fuel key value ctx = Ends-ne-no_fuel (param_handler-Ends key value ctx)
