-- ===== src/HttpClient.antt =====
-- src/provider.rs: `http_client`, which builds the client of each outbound path.
pub mod Laws
mod Tests
use pincerbell.Base.{
  ℕ, Bool, true, false, Option, none, some, List, [], ◌∷◌, String, ◌==◌, string_eq, Result, ok, err,
  ◌>>=◌, map_err, if◌then◌else◌,
}
use Prim.Native.String.{◌++◌}
use pincerbell.Time.{Duration}
use pincerbell.Config.{HttpOptions, FilePath}
use pincerbell.Environment.{Environment, Client}

-- An empty text opts out.
unfoldable pub non_empty : Option String → Option String
non_empty none = none
non_empty (some s) = if s == "" then none else some s

unfoldable pub with_proxy : Environment → Option String → Client → Result Client String
with_proxy env none c = ok c
with_proxy env (some url) c = do
  _ ← map_err (λ e. "proxy " ++ url ++ ": " ++ e) (env.parse_proxy url)
  ok (record c { proxy = some url })

ca_error : FilePath → String → String
ca_error path e = "tls_ca_file " ++ path ++ ": " ++ e

unfoldable pub with_roots : Environment → Option FilePath → Client → Result Client String
unfolding ca_error
with_roots env none c = ok c
with_roots env (some path) c = do
  pem ← map_err (λ e. ca_error path (env.message e)) (env.read path)
  certs ← map_err (ca_error path) (env.from_pem_bundle pem)
  elim certs [
    | [] ↦ err (ca_error path "no certificates found")
    | cert ∷ more ↦ ok (record c { roots = cert ∷ more })
  ]

abbrev plain : Option Duration → Client
plain timeout = record { timeout = timeout; proxy = none; roots = []; accept_invalid_certs = false }

unfoldable pub http_client : Environment → HttpOptions → Option Duration → Result Client String
unfolding non_empty with_proxy with_roots
http_client env opts timeout = do
  c1 ← with_proxy env (non_empty opts.proxy) (plain timeout)
  c2 ← with_roots env (non_empty opts.tls_ca_file) c1
  let c3 = if opts.tls_accept_invalid_certs then record c2 { accept_invalid_certs = true } else c2
  _ ← env.build c3
  ok c3
