-- ===== src/Tests/Sequences.antt =====
-- Sequences of calls on one context.
use hawkc.Base.{none, arith, [], codes, ◌≡◌, refl, some}
use hawkc.Base.Int.{pos}
use hawkc.Outcome.{failed}
use hawkc.Context.{HawkcContext, of_bytes, at, init, fail, set_error}
use hawkc.Context.Buffers.{IsContext}
use hawkc.Context.Error.{error}
use hawkc.Context.Setters.{set_algorithm, set_password}
use hawkc.Crypto.{Platform, hawkc_sha_256}
use hawkc.Authorization.Fill.{stale, calculate-stale}
use hawkc.Authorization.{calculate_authorization_header_length}
use hawkc.Calls.{Reach, start, next, algorithm_set, password_set, not_calculated, Reach-IsContext}
use hawkc.Tests.Requests.{os}

-- Algorithm and password are set, and the id is forgotten.
abbrev ready : HawkcContext
ready = set_password (set_algorithm init (some hawkc_sha_256)) (at (codes "secret")) 6

abbrev refused : HawkcContext
refused = set_error ready error (record { format = "ID not set"; args = [] })

id_forgotten : calculate_authorization_header_length os ready ≡ failed error refused
unfolding calculate_authorization_header_length fail init set_algorithm set_password
id_forgotten = refl

refused-Reach : Reach os refused
refused-Reach =
    next
      (next (next start (algorithm_set (some hawkc_sha_256)))
        (password_set (at (codes "secret")) 6))
      (not_calculated error id_forgotten)

Reach-IsContext_example : IsContext [] refused
Reach-IsContext_example = Reach-IsContext os refused refused-Reach

-- RAND_bytes does not return 1.
abbrev exhausted : Platform
exhausted = record os { rand_bytes = λ n. none }

-- An id and a time are set, and no nonce.
abbrev nonceless : HawkcContext
nonceless = record init {
  header_out = record (init.header_out) { id = of_bytes (codes "me"); ts = pos 1353832234 };
}

calculate-stale_example :
    calculate_authorization_header_length exhausted nonceless
    ≡ calculate_authorization_header_length exhausted (stale exhausted nonceless)
unfolding init
calculate-stale_example = calculate-stale exhausted nonceless refl refl (omega arith) refl
