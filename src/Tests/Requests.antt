-- ===== src/Tests/Requests.antt =====
-- A platform and requests to run the model on.
use hawkc.Base.{
  ℕ, ◌%◌, ◌<◌, true, [], ◌++◌, some, Bytes, codes, length, length-replicate, replicate, IsBytes,
  ◌≡◌, refl, sym, ap, ◌∙◌, arith, zero, suc,
}
use mathlib.Core.Path.{subst}
use hawkc.Base.Int.{ℤ, pos}
use hawkc.Context.{HawkcContext, AuthorizationHeader, at, init, of_bytes, pointee, IsReadable}
use hawkc.Crypto.{Platform, IsPlatform, hawkc_sha_256}

-- Digests of the documented lengths.
abbrev pub os : Platform
os = record {
  rand_bytes = λ n. some (replicate n 7);
  err_get_error = 0;
  hmac_sha1 = λ k d. replicate 20 1;
  hmac_sha256 = λ k d. replicate 32 (length d % 256);
  malloc = λ size. true;
  calloc = λ count size. true;
  time = pos 1353832234;
}

replicate-IsBytes : (n c : ℕ) → c < 256 → IsBytes (replicate n c)
replicate-IsBytes zero c h = tt
replicate-IsBytes (suc n) c h = (h, replicate-IsBytes n c h)

drawn : (n : ℕ) (bs : Bytes) → os.rand_bytes n ≡ some bs → replicate n 7 ≡ bs
drawn n bs e = cc

same_length : (n : ℕ) (bs : Bytes) → os.rand_bytes n ≡ some bs → length bs ≡ n
same_length n bs e = ap length (sym (drawn n bs e)) ∙ length-replicate n 7

same_range : (n : ℕ) (bs : Bytes) → os.rand_bytes n ≡ some bs → IsBytes bs
same_range n bs e = subst IsBytes (drawn n bs e) (replicate-IsBytes n 7 (omega arith))

pub os-IsPlatform : IsPlatform os
os-IsPlatform = record {
  sha1_length = λ k d. refl;
  sha1_bytes = λ k d. replicate-IsBytes 20 1 (omega arith);
  sha256_length = λ k d. refl;
  sha256_bytes = λ k d. replicate-IsBytes 32 (length d % 256) (omega arith);
  rand_length = λ n bs e. same_length n bs e;
  rand_range = λ n bs e. same_range n bs e;
}

-- A request with the given header on both sides.
abbrev pub request : AuthorizationHeader → HawkcContext
request header = record init {
  password = of_bytes (codes "secret");
  algorithm = some hawkc_sha_256;
  method = of_bytes (codes "GET");
  path = of_bytes (codes "/resource");
  host = of_bytes (codes "example.com");
  port = of_bytes (codes "80");
  header_in = header;
  header_out = header;
}

-- A parsed header with a MAC, a nonce, a time and an extension.
abbrev pub given_header : Bytes → ℤ → Bytes → AuthorizationHeader
given_header mac ts ext = record {
  id = of_bytes (codes "me");
  mac = record { len = length mac; chars = at (mac ++ []) };
  hash = of_bytes [];
  nonce = of_bytes (codes "j4h3g2");
  ts = ts;
  app = of_bytes [];
  dlg = of_bytes [];
  ext = of_bytes ext;
}

pub readable : (ctx : HawkcContext) (s : Bytes) → IsReadable ctx (of_bytes s)
unfolding pointee
readable ctx s = omega arith
