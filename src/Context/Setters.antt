-- ===== src/Context/Setters.antt =====
-- The accessors of hawkc/common.c for what a caller sets in a context, or reads from it.
use hawkc.Base.{ℕ, Option}
use hawkc.Base.Int.{ℤ}
use hawkc.Context.{HawkcContext, HawkcAlgorithm, ErrorString, Ptr}
use hawkc.Context.Error.{HawkcError}

unfoldable pub get_error : HawkcContext → ErrorString
get_error ctx = ctx.error_string

unfoldable pub get_error_code : HawkcContext → HawkcError
get_error_code ctx = ctx.error

unfoldable pub set_clock_offset : HawkcContext → ℤ → HawkcContext
set_clock_offset ctx offset = record ctx { offset = offset }

unfoldable pub set_password : HawkcContext → Ptr → ℕ → HawkcContext
set_password ctx password len = record ctx { password = record { len = len; chars = password } }

unfoldable pub set_algorithm : HawkcContext → Option HawkcAlgorithm → HawkcContext
set_algorithm ctx algorithm = record ctx { algorithm = algorithm }

unfoldable pub set_id : HawkcContext → Ptr → ℕ → HawkcContext
set_id ctx id len = record ctx {
  header_out = record (ctx.header_out) { id = record { len = len; chars = id } };
}

unfoldable pub set_app : HawkcContext → Ptr → ℕ → HawkcContext
set_app ctx app len = record ctx {
  header_out = record (ctx.header_out) { app = record { len = len; chars = app } };
}

unfoldable pub set_dlg : HawkcContext → Ptr → ℕ → HawkcContext
set_dlg ctx dlg len = record ctx {
  header_out = record (ctx.header_out) { dlg = record { len = len; chars = dlg } };
}

unfoldable pub set_ext : HawkcContext → Ptr → ℕ → HawkcContext
set_ext ctx ext len = record ctx {
  header_out = record (ctx.header_out) { ext = record { len = len; chars = ext } };
}

unfoldable pub set_method : HawkcContext → Ptr → ℕ → HawkcContext
set_method ctx method len = record ctx { method = record { len = len; chars = method } }

unfoldable pub set_path : HawkcContext → Ptr → ℕ → HawkcContext
set_path ctx path len = record ctx { path = record { len = len; chars = path } }

unfoldable pub set_host : HawkcContext → Ptr → ℕ → HawkcContext
set_host ctx host len = record ctx { host = record { len = len; chars = host } }

unfoldable pub set_port : HawkcContext → Ptr → ℕ → HawkcContext
set_port ctx port len = record ctx { port = record { len = len; chars = port } }
