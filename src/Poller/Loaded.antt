-- ===== src/Poller/Loaded.antt =====
-- What an upstream that was loaded consists of.
use pincerbell.Base.{
  ◌≡◌, ◌≢◌, none, String, ◌==◌, string_eq, ok, arith, Result-cases, Bool-cases, inl, inr, eq_iff,
}
use pincerbell.Text.{trim, trim_end_slashes}
use pincerbell.Config.{PollUpstream, HttpOptions, upstream_http_options}
use pincerbell.Environment.{Environment}
use pincerbell.HttpClient.{http_client}
use pincerbell.Poller.Upstreams.{Upstream, load}

-- An upstream is loaded only if its token file can be read and holds more than white space, and if a
-- client can be built for its own HTTP options over the general ones; its token is the text of the
-- file without the white space around it, its address has no slash at its end, and the client sets
-- no timeout of its own.
pub load-eq-ok :
    (env : Environment) (cfg : PollUpstream) (defaults : HttpOptions) (up : Upstream)
    → load env cfg defaults ≡ ok up
    → (raw : String) × (env.read_to_string cfg.auth_token_file ≡ ok raw)
      × (trim raw ≢ "")
      × (up.token ≡ trim raw)
      × (up.url ≡ trim_end_slashes cfg.url)
      × (http_client env (upstream_http_options cfg defaults) none ≡ ok up.client)
unfolding load
load-eq-ok env cfg defaults up made =
    elim (Result-cases (http_client env (upstream_http_options cfg defaults) none)) [
      | inr (e, bad) ↦ absurd (ground (arith, bad, made))
      | inl (client, built) ↦ elim (Result-cases (env.read_to_string cfg.auth_token_file)) [
        | inr (e, bad) ↦ absurd (ground (arith, built, bad, made))
        | inl (raw, got) ↦ elim (Bool-cases (trim raw == "")) [
          | inl blank ↦ absurd (ground (arith, built, got, blank, made))
          | inr full ↦ (
            raw,
            got,
            ground (arith, full, eq_iff (trim raw) ""),
            ground (arith, built, got, full, made),
            ground (arith, built, got, full, made),
            ground (arith, built, got, full, made),
          )
        ]
      ]
    ]
