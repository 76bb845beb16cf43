-- ===== src/Calls.antt =====
-- The calls that hawkc/hawkc.h offers on a context, in any order.
pub mod Parsing
pub mod Signing
use hawkc.Base.{ℕ, [], Option, Bool, Bytes, ◌≡◌}
use hawkc.Base.Int.{ℤ}
use hawkc.Outcome.{done, failed}
use hawkc.Outcome.Keeps.{Keeps-done, Keeps-failed}
use hawkc.Context.{HawkcContext, HawkcAlgorithm, Ptr, MallocFunc, CallocFunc, FreeFunc, init}
use hawkc.Context.Buffers.{IsContext, init-IsContext}
use hawkc.Context.Error.{HawkcError}
use hawkc.Context.Setters.{
  set_clock_offset, set_password, set_algorithm, set_id, set_app, set_dlg, set_ext, set_method,
  set_path, set_host, set_port,
}
use hawkc.Crypto.{Platform}
use hawkc.Authorization.{
  parse_authorization_header, validate_hmac, calculate_authorization_header_length,
}
use hawkc.WwwAuthenticate.{
  parse_www_authenticate_header, calculate_www_authenticate_header_length, set_ts,
}
use Parsing.{parse_authorization_header-KeepsBuffers, parse_www_authenticate_header-KeepsBuffers}
use Signing.{
  validate_hmac-KeepsBuffers, calculate_authorization_header_length-KeepsBuffers,
  calculate_www_authenticate_header_length-KeepsBuffers,
}

-- One call, and the context it leaves, with or without an error. The functions that write a header
-- or read an error leave the context alone. The allocators are set in the structure itself.
pub data Step (os : Platform) : HawkcContext → HawkcContext → Type 0 where
  malloc_set :
      {ctx : HawkcContext} (f : Option MallocFunc) → Step os ctx (record ctx { malloc = f })
  calloc_set :
      {ctx : HawkcContext} (f : Option CallocFunc) → Step os ctx (record ctx { calloc = f })
  free_set : {ctx : HawkcContext} (f : Option FreeFunc) → Step os ctx (record ctx { free = f })
  clock_offset_set : {ctx : HawkcContext} (n : ℤ) → Step os ctx (set_clock_offset ctx n)
  algorithm_set :
      {ctx : HawkcContext} (a : Option HawkcAlgorithm) → Step os ctx (set_algorithm ctx a)
  password_set : {ctx : HawkcContext} (p : Ptr) (len : ℕ) → Step os ctx (set_password ctx p len)
  id_set : {ctx : HawkcContext} (p : Ptr) (len : ℕ) → Step os ctx (set_id ctx p len)
  app_set : {ctx : HawkcContext} (p : Ptr) (len : ℕ) → Step os ctx (set_app ctx p len)
  dlg_set : {ctx : HawkcContext} (p : Ptr) (len : ℕ) → Step os ctx (set_dlg ctx p len)
  ext_set : {ctx : HawkcContext} (p : Ptr) (len : ℕ) → Step os ctx (set_ext ctx p len)
  method_set : {ctx : HawkcContext} (p : Ptr) (len : ℕ) → Step os ctx (set_method ctx p len)
  path_set : {ctx : HawkcContext} (p : Ptr) (len : ℕ) → Step os ctx (set_path ctx p len)
  host_set : {ctx : HawkcContext} (p : Ptr) (len : ℕ) → Step os ctx (set_host ctx p len)
  port_set : {ctx : HawkcContext} (p : Ptr) (len : ℕ) → Step os ctx (set_port ctx p len)
  ts_set : {ctx : HawkcContext} (ts : ℤ) → Step os ctx (set_ts ctx ts)
  parsed :
      {ctx after : HawkcContext} (value : Bytes) (len : ℕ)
      → parse_authorization_header value len ctx ≡ done tt after
      → Step os ctx after
  not_parsed :
      {ctx after : HawkcContext} (value : Bytes) (len : ℕ) (e : HawkcError)
      → parse_authorization_header value len ctx ≡ failed e after
      → Step os ctx after
  www_parsed :
      {ctx after : HawkcContext} (value : Bytes) (len : ℕ)
      → parse_www_authenticate_header value len ctx ≡ done tt after
      → Step os ctx after
  www_not_parsed :
      {ctx after : HawkcContext} (value : Bytes) (len : ℕ) (e : HawkcError)
      → parse_www_authenticate_header value len ctx ≡ failed e after
      → Step os ctx after
  validated :
      {ctx after : HawkcContext} (valid : Bool)
      → validate_hmac os ctx ≡ done valid after
      → Step os ctx after
  not_validated :
      {ctx after : HawkcContext} (e : HawkcError)
      → validate_hmac os ctx ≡ failed e after
      → Step os ctx after
  calculated :
      {ctx after : HawkcContext} (len : ℕ)
      → calculate_authorization_header_length os ctx ≡ done len after
      → Step os ctx after
  not_calculated :
      {ctx after : HawkcContext} (e : HawkcError)
      → calculate_authorization_header_length os ctx ≡ failed e after
      → Step os ctx after
  www_calculated :
      {ctx after : HawkcContext} (len : ℕ)
      → calculate_www_authenticate_header_length os ctx ≡ done len after
      → Step os ctx after
  www_not_calculated :
      {ctx after : HawkcContext} (e : HawkcError)
      → calculate_www_authenticate_header_length os ctx ≡ failed e after
      → Step os ctx after

-- The contexts that calls lead to from hawkc_context_init.
pub data Reach (os : Platform) : HawkcContext → Type 0 where
  start : Reach os init
  next : {ctx after : HawkcContext} → Reach os ctx → Step os ctx after → Reach os after

module _ {os : Platform} where
  Step-IsContext :
      {ctx after : HawkcContext} → Step os ctx after → IsContext [] ctx → IsContext [] after
  unfolding set_clock_offset set_password set_algorithm set_id set_app set_dlg set_ext set_method
      set_path set_host set_port set_ts
  Step-IsContext (malloc_set f) h = h
  Step-IsContext (calloc_set f) h = h
  Step-IsContext (free_set f) h = h
  Step-IsContext (clock_offset_set n) h = h
  Step-IsContext (algorithm_set a) h = h
  Step-IsContext (password_set p len) h = h
  Step-IsContext (id_set p len) h = h
  Step-IsContext (app_set p len) h = h
  Step-IsContext (dlg_set p len) h = h
  Step-IsContext (ext_set p len) h = h
  Step-IsContext (method_set p len) h = h
  Step-IsContext (path_set p len) h = h
  Step-IsContext (host_set p len) h = h
  Step-IsContext (port_set p len) h = h
  Step-IsContext (ts_set ts) h = h
  Step-IsContext (parsed value len is) h =
      Keeps-done _ _ (parse_authorization_header-KeepsBuffers value len _ h) is
  Step-IsContext (not_parsed value len e is) h =
      Keeps-failed e _ (parse_authorization_header-KeepsBuffers value len _ h) is
  Step-IsContext (www_parsed value len is) h =
      Keeps-done _ _ (parse_www_authenticate_header-KeepsBuffers value len _ h) is
  Step-IsContext (www_not_parsed value len e is) h =
      Keeps-failed e _ (parse_www_authenticate_header-KeepsBuffers value len _ h) is
  Step-IsContext (validated valid is) h = Keeps-done _ _ (validate_hmac-KeepsBuffers os _ h) is
  Step-IsContext (not_validated e is) h = Keeps-failed e _ (validate_hmac-KeepsBuffers os _ h) is
  Step-IsContext (calculated len is) h =
      Keeps-done _ _ (calculate_authorization_header_length-KeepsBuffers os _ h) is
  Step-IsContext (not_calculated e is) h =
      Keeps-failed e _ (calculate_authorization_header_length-KeepsBuffers os _ h) is
  Step-IsContext (www_calculated len is) h =
      Keeps-done _ _ (calculate_www_authenticate_header_length-KeepsBuffers os _ h) is
  Step-IsContext (www_not_calculated e is) h =
      Keeps-failed e _ (calculate_www_authenticate_header_length-KeepsBuffers os _ h) is

-- After hawkc_context_init and any sequence of setters, parses, validations and length
-- calculations that return, with or without errors, for both kinds of header, the strings for the
-- HMACs and the nonce point to their buffers inside the context, the buffers have the lengths that
-- hawkc_context_init gave them, and no block that the library has allocated is left. A call with
-- undefined behaviour does not return: among others, one that frees a block that is not there, or
-- that hands HMAC_Init no key.
pub Reach-IsContext : (os : Platform) (ctx : HawkcContext) → Reach os ctx → IsContext [] ctx
Reach-IsContext os _ start = init-IsContext
Reach-IsContext os _ (next {ctx} before step) = Step-IsContext step (Reach-IsContext os ctx before)
