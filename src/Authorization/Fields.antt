-- ===== src/Authorization/Fields.antt =====
-- The header of hawkc_create_authorization_header (hawkc/authorization.c) in the grammar of
-- hawkc/parser.c: quoted parameters, with nothing but commas between them.
use hawkc.Base.{
  ℕ, ltb, true, false, List, [], ◌∷◌, ◌++◌, append_assoc, some, Bytes, codes, length, All, ◌≡◌,
  refl, arith,
}
use hawkc.Context.{HawkcContext, HawkcString, load}
use hawkc.Parser.Grammar.{IsToken, IsQuoted, quoted, Param, IsParam, Params, last, more}
use hawkc.Authorization.Create.{optional_field}

-- A key, and the text between the quotes.
abbrev pub Field : Type 0
Field = Bytes × Bytes

abbrev pub to_param : Field → Param
to_param (key, text) = record {
  key = key;
  before_equals = [];
  before_value = [];
  value = quoted text;
  behind = [];
}

abbrev pub to_params : List Field → List Param
to_params [] = []
to_params (f ∷ fs) = to_param f ∷ to_params fs

-- What stands behind the text of a parameter: its quote, and the parameters that follow.
abbrev pub closing : List Field → Bytes
closing [] = b'"' ∷ []
closing ((key, text) ∷ fs) = b'"' ∷ b',' ∷ (key ++ (b'=' ∷ b'"' ∷ (text ++ closing fs)))

abbrev pub IsField : Field → Type 0
IsField (key, text) = IsToken key × IsQuoted text

to_param-IsParam : (f : Field) → IsField f → IsParam (to_param f)
to_param-IsParam (key, text) (hk, ht) = record {
  key_token = hk;
  before_equals_ows = tt;
  before_value_ows = tt;
  value_valid = ht;
  behind_ows = tt;
}

pub Params-closing :
    (key text : Bytes) (fs : List Field)
    → IsField (key, text)
    → All IsField fs
    → Params (to_params ((key, text) ∷ fs)) (key ++ (b'=' ∷ b'"' ∷ (text ++ closing fs)))
Params-closing key text [] h hs = last (to_param-IsParam (key, text) h)
Params-closing key text ((key', text') ∷ fs) h (h', hs) =
    more [] (key' ++ (b'=' ∷ b'"' ∷ (text' ++ closing fs))) (to_param-IsParam (key, text) h) tt
      (Params-closing key' text' fs h' hs)

-- What the caller's strings and the time of a header read as.
pub record Contents : Type 0 where
  pub id : Bytes
  pub nonce : Bytes
  pub mac : Bytes
  pub ts : ℕ
  pub ext : Bytes
  pub app : Bytes
  pub dlg : Bytes

abbrev pub optional : Bytes → Bytes → List Field → List Field
optional key [] fs = fs
optional key (c ∷ text) fs = (key, c ∷ text) ∷ fs

-- The parameters behind the id, in the order in which they are written.
abbrev pub fields : Contents → Bytes → List Field
fields c ts =
    (codes "nonce", c.nonce)
    ∷ (codes "mac", c.mac)
    ∷ (codes "ts", ts)
    ∷ optional (codes "ext") c.ext (optional (codes "app") c.app (optional (codes "dlg") c.dlg []))

-- Each text can stand between quotes.
pub record IsQuotable (c : Contents) : Type 0 where
  pub id_quoted : IsQuoted c.id
  pub nonce_quoted : IsQuoted c.nonce
  pub mac_quoted : IsQuoted c.mac
  pub ext_quoted : IsQuoted c.ext
  pub app_quoted : IsQuoted c.app
  pub dlg_quoted : IsQuoted c.dlg

pub optional-IsField :
    (key text : Bytes) (fs : List Field)
    → IsToken key
    → IsQuoted text
    → All IsField fs
    → All IsField (optional key text fs)
optional-IsField key [] fs hk ht hs = hs
optional-IsField key (c ∷ text) fs hk ht hs = ((hk, ht), hs)

-- `name` is `",key="`, and what follows it is the rest of the header.
pub optional_field-closing :
    (ctx : HawkcContext) (s : HawkcString) (key text name : Bytes) (fs : List Field)
    → load ctx s ≡ some text
    → s.len ≡ length text
    → name ≡ b'"' ∷ b',' ∷ (key ++ (b'=' ∷ b'"' ∷ []))
    → (out : Bytes) × (optional_field ctx s name ≡ some out)
      × (out ++ closing fs ≡ closing (optional key text fs))
optional_field-closing ctx s key [] name fs is len name_is =
    let none_given : ltb 0 s.len ≡ false = ground arith in
    ([], unfold optional_field in rw none_given, refl)
optional_field-closing ctx s key (c ∷ text) name fs is len name_is =
    let given : ltb 0 s.len ≡ true = ground arith in
    (name ++ (c ∷ text), unfold optional_field in rw (given, is), rw name_is (simp append_assoc))
