-- ===== src/Environment/Sample.antt =====
-- A concrete environment for tests, with stand-ins for the cryptography and the parsers.
use pincerbell.Base.{true, false, none, some, [], ◌∷◌, ◌==◌, string_eq, ok, err, if◌then◌else◌}
use Prim.Native.String.{len}
use pincerbell.Json.{null}
use pincerbell.Config.{
  Config, ReadError, AppConfig, PollUpstream, QueueConfig, HttpOptions, default_dedup_ttl_secs,
  default_dedup_max_entries, default_listen,
}
use pincerbell.Environment.{Environment}

abbrev pub queue_config : QueueConfig
queue_config = record {
  auth_token_file = "token";
  max_entries = 4;
  entry_ttl_secs = 3600;
  lease_secs = 60;
  rejected_ttl_secs = 600;
}

abbrev pub upstream : PollUpstream
upstream = record {
  url = "https://push.example.test/";
  auth_token_file = "token";
  timeout_secs = 30;
  max_batch = 100;
  proxy = some "";
  tls_ca_file = none;
  tls_accept_invalid_certs = none;
}

abbrev pub options : HttpOptions
options = record {
  proxy = some "http://proxy.example.test";
  tls_ca_file = some "ca.pem";
  tls_accept_invalid_certs = false;
}

abbrev pub config : Config
config = record {
  listen = default_listen;
  dedup_ttl_secs = default_dedup_ttl_secs;
  dedup_max_entries = default_dedup_max_entries;
  reject_unknown_apps = true;
  proxy = some "http://proxy.example.test";
  tls_ca_file = some "ca.pem";
  tls_accept_invalid_certs = false;
  apps =
      ("org.example.log", AppConfig.log)
      ∷ ("org.example.web", AppConfig.webpush "key.pem" "admin@example.test" ("push.test" ∷ []))
      ∷ [];
  queue = some queue_config;
  poll = upstream ∷ [];
}

-- Each file that is there holds the token.
abbrev pub environment : Environment
environment = record {
  read_to_string = λ path. if path == "missing" then err ReadError.not_found else ok " secret ";
  read = λ path. ok (1 ∷ []);
  message = λ e. "no such file";
  parse_config = λ raw. ok config;
  parse_json = λ raw. ok null;
  parse_proxy = λ url. ok tt;
  from_pem_bundle = λ pem. ok (pem ∷ []);
  build = λ client. ok tt;
  from_rsa_pem = λ pem. ok tt;
  from_ec_pem = λ pem. ok tt;
  from_pkcs8_pem = λ pem. err "no PKCS#8";
  from_sec1_pem = λ pem. ok (4 ∷ []);
  base64 = λ bytes. "BA";
  utf8 = λ s. len s ∷ [];
  sha256 = λ s. len s ∷ [];
}
