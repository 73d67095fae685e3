-- ===== src/Config.antt =====
-- src/config.rs: the configuration, its defaults and the resolution of the outbound HTTP options.
-- Reading TOML is the library's; a missing key takes the default of its field.
pub mod Loading
use pincerbell.Base.{ℕ, Bool, Option, none, some, List, String, Result, ok, err}
use pincerbell.HashMap.{HashMap}
use pincerbell.Json.{or_else}

-- A path of the file system.
abbrev pub FilePath : Type 0
FilePath = String

pub record HttpOptions : Type 0 where
  pub proxy : Option String
  pub tls_ca_file : Option FilePath
  pub tls_accept_invalid_certs : Bool

pub data ApnsPushType : Type 0 where
  alert voip : ApnsPushType

pub ApnsPushType-discrete : Discrete ApnsPushType
ApnsPushType-discrete = hlevel

pub record ApnsConfig : Type 0 where
  pub key_file : FilePath
  pub key_id : String
  pub team_id : String
  pub topic : String
  pub sandbox : Bool
  pub api_root : Option String
  pub default_alert_title : Option String
  pub sound : Option String
  pub push_type : ApnsPushType

pub data AppConfig : Type 0 where
  log : AppConfig
  fcm : FilePath → Option String → Option String → AppConfig
  apns : ApnsConfig → AppConfig
  webpush : FilePath → String → List String → AppConfig

pub record QueueConfig : Type 0 where
  pub auth_token_file : FilePath
  pub max_entries : ℕ
  pub entry_ttl_secs : ℕ
  pub lease_secs : ℕ
  pub rejected_ttl_secs : ℕ

pub record PollUpstream : Type 0 where
  pub url : String
  pub auth_token_file : FilePath
  pub timeout_secs : ℕ
  pub max_batch : ℕ
  pub proxy : Option String
  pub tls_ca_file : Option FilePath
  pub tls_accept_invalid_certs : Option Bool

pub record Config : Type 0 where
  pub listen : String
  pub dedup_ttl_secs : ℕ
  pub dedup_max_entries : ℕ
  pub reject_unknown_apps : Bool
  pub proxy : Option String
  pub tls_ca_file : Option FilePath
  pub tls_accept_invalid_certs : Bool
  pub apps : HashMap String AppConfig
  pub queue : Option QueueConfig
  pub poll : List PollUpstream

abbrev pub default_queue_max_entries : ℕ
default_queue_max_entries = 262144

abbrev pub default_queue_entry_ttl_secs : ℕ
default_queue_entry_ttl_secs = 3600

abbrev pub default_queue_lease_secs : ℕ
default_queue_lease_secs = 60

abbrev pub default_queue_rejected_ttl_secs : ℕ
default_queue_rejected_ttl_secs = 21600

abbrev pub default_poll_timeout_secs : ℕ
default_poll_timeout_secs = 30

abbrev pub default_poll_max_batch : ℕ
default_poll_max_batch = 100

abbrev pub default_listen : String
default_listen = "127.0.0.1:8300"

abbrev pub default_dedup_ttl_secs : ℕ
default_dedup_ttl_secs = 300

abbrev pub default_dedup_max_entries : ℕ
default_dedup_max_entries = 65536

-- Config::http_options
unfoldable pub http_options : Config → HttpOptions
http_options c = record {
  proxy = c.proxy;
  tls_ca_file = c.tls_ca_file;
  tls_accept_invalid_certs = c.tls_accept_invalid_certs;
}

-- PollUpstream::http_options
unfoldable pub upstream_http_options : PollUpstream → HttpOptions → HttpOptions
upstream_http_options p defaults = record {
  proxy = or_else p.proxy defaults.proxy;
  tls_ca_file = or_else p.tls_ca_file defaults.tls_ca_file;
  tls_accept_invalid_certs = elim p.tls_accept_invalid_certs [
    | none ↦ defaults.tls_accept_invalid_certs
    | some b ↦ b
  ];
}

-- What reading a file gives.
pub data ReadError : Type 0 where
  not_found : ReadError
  failed : String → ReadError
