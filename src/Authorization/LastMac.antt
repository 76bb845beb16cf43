-- ===== src/Authorization/LastMac.antt =====
-- Which MAC the handlers of hawkc/authorization.c leave in the context where they succeed.
use hawkc.Base.{
  ℕ, not, false, Bool-cases, inl, inr, if◌then◌else◌, List, [], ◌∷◌, Option, none, some, Bytes,
  codes, equal, equal_iff, ◌≡◌, refl, sym, ap, ◌∙◌,
}
use mathlib.Core.Path.{subst}
use hawkc.Base.Int.{ℤ, pos}
use hawkc.Decimal.{is_digit}
use hawkc.Outcome.Done.{Done, reached, stopped, Done-bind, Done-access, Done-if, Done-mono}
use hawkc.Context.{HawkcContext, HawkcString, of_bytes, load, fail}
use hawkc.Time.Parse.{parse_time, parse_digits, shift_in, count_up, my_digittoint}
use hawkc.Parser.Grammar.{Param, content, handle_params, handle_header}
use hawkc.Authorization.{context_session, authorization_scheme_handler, param_handler}
use hawkc.Authorization.Handlers.{matches-equal, handled, param_handler-handled}

-- hawkc_parse_time leaves the context alone where it returns a time.
parse_digits-Done :
    (ts : HawkcString) (i : ℕ) (s : Bytes) (t : ℤ) (ctx : HawkcContext)
    → Done (λ _ after. after ≡ ctx) (parse_digits ts i s t ctx)
unfolding parse_digits fail
parse_digits-Done ts i [] t ctx = reached refl
parse_digits-Done ts i (c ∷ s) t ctx = Done-if (not (is_digit c)) _ _ ctx stopped (
    Done-access (shift_in t (my_digittoint c)) ctx _
      λ t' _. Done-access (count_up i) ctx _ λ i' _. parse_digits-Done ts i' s t' ctx)

parse_time-Done :
    (ts : HawkcString) (ctx : HawkcContext) → Done (λ _ after. after ≡ ctx) (parse_time ts ctx)
unfolding parse_time
parse_time-Done ts ctx =
    Done-access (load ctx ts) ctx _ λ chars _. parse_digits-Done ts 0 chars (pos 0) ctx

-- The mac of the parsed header is set by this key only.
abbrev mac_with : Bytes → HawkcString → HawkcString → HawkcString
mac_with key v old = if equal key (codes "mac") then v else old

other_key :
    (key : Bytes) (v : HawkcString) (ctx : HawkcContext)
    → equal key (codes "mac") ≡ false
    → Done (λ _ after. after.header_in.mac ≡ ctx.header_in.mac) (handled key v ctx)
other_key key v ctx other = rw other (
    Done-if (equal key (codes "id")) _ _ ctx (reached refl) (
      Done-if (equal key (codes "hash")) _ _ ctx (reached refl) (
        Done-if (equal key (codes "nonce")) _ _ ctx (reached refl) (
          Done-if (equal key (codes "ts")) _ _ ctx
            (Done-bind (parse_time-Done v ctx)
              λ ts after same. reached (ap (λ c. c.header_in.mac) same))
            (Done-if (equal key (codes "ext")) _ _ ctx (reached refl) (
              Done-if (equal key (codes "app")) _ _ ctx (reached refl)
                (Done-if (equal key (codes "dlg")) _ _ ctx (reached refl) (reached refl))))))))

handled-Done :
    (key : Bytes) (v : HawkcString) (ctx : HawkcContext)
    → Done (λ _ after. after.header_in.mac ≡ mac_with key v ctx.header_in.mac) (handled key v ctx)
handled-Done key v ctx = elim (Bool-cases (equal key (codes "mac"))) [
  | inl same ↦
      let key_is : codes "mac" ≡ key = sym ((equal_iff key (codes "mac")).0 same) in
      subst
        (λ k.
          Done (λ _ after. after.header_in.mac ≡ mac_with k v ctx.header_in.mac) (handled k v ctx))
        key_is (reached refl)
  | inr other ↦
      let kept : ctx.header_in.mac ≡ mac_with key v ctx.header_in.mac = rw other refl in
      subst (λ m. Done (λ _ after. after.header_in.mac ≡ m) (handled key v ctx)) kept
        (other_key key v ctx other)
]

-- The last parameter of that key, and the string that it leaves.
abbrev or_earlier : Option Bytes → Option Bytes → Option Bytes
or_earlier (some mac) earlier = some mac
or_earlier none earlier = earlier

abbrev pub last_mac : List Param → Option Bytes
last_mac [] = none
last_mac (q ∷ qs) =
    or_earlier (last_mac qs) (if equal q.key (codes "mac") then some (content q.value) else none)

abbrev pub mac_left : Option Bytes → HawkcString → HawkcString
mac_left none old = old
mac_left (some mac) old = of_bytes mac

mac_left-or_earlier :
    (later : Option Bytes) (q : Param) (old : HawkcString)
    → mac_left later (mac_with q.key (of_bytes (content q.value)) old)
      ≡ mac_left
          (or_earlier later (if equal q.key (codes "mac") then some (content q.value) else none))
          old
mac_left-or_earlier (some mac) q old = refl
mac_left-or_earlier none q old = elim (Bool-cases (equal q.key (codes "mac"))) [
  | inl same ↦ rw same refl
  | inr other ↦ rw other refl
]

handle_params-Done :
    (qs : List Param) (ctx : HawkcContext)
    → Done
        (λ _ after. after.header_in.mac ≡ mac_left (last_mac qs) ctx.header_in.mac)
        (handle_params param_handler qs ctx)
handle_params-Done [] ctx = reached refl
handle_params-Done (q ∷ qs) ctx =
    let v = of_bytes (content q.value) in
    Done-bind
      (subst (Done (λ _ after. after.header_in.mac ≡ mac_with q.key v ctx.header_in.mac))
        (sym (param_handler-handled q.key v ctx)) (handled-Done q.key v ctx))
      λ _ s first.
        subst (λ m. Done (λ _ after. after.header_in.mac ≡ m) (handle_params param_handler qs s))
          (ap (mac_left (last_mac qs)) first
            ∙ mac_left-or_earlier (last_mac qs) q ctx.header_in.mac)
          (handle_params-Done qs s)

scheme_handler-Done :
    (scheme : Bytes) (ctx : HawkcContext)
    → Done
        (λ _ after. (after ≡ ctx) × (scheme ≡ codes "Hawk"))
        (authorization_scheme_handler (of_bytes scheme) ctx)
unfolding authorization_scheme_handler fail
scheme_handler-Done scheme ctx =
    rw (matches-equal ctx scheme (codes "Hawk")) (elim (Bool-cases (equal scheme (codes "Hawk"))) [
      | inl hawk ↦ rw hawk (reached (refl, (equal_iff scheme (codes "Hawk")).0 hawk))
      | inr other ↦ rw other stopped
    ])

pub handle_header-Done :
    (scheme : Bytes) (qs : List Param) (ctx : HawkcContext)
    → Done
        (λ _ after.
          (scheme ≡ codes "Hawk")
          × (after.header_in.mac ≡ mac_left (last_mac qs) ctx.header_in.mac))
        (handle_header authorization_scheme_handler param_handler scheme qs ctx)
handle_header-Done scheme qs ctx = Done-bind (scheme_handler-Done scheme ctx) λ _ s (same, hawk).
    Done-mono (handle_params-Done qs s)
      λ _ after mac_is. (hawk, mac_is ∙ ap (λ c. mac_left (last_mac qs) c.header_in.mac) same)
