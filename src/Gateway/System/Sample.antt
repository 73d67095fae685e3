-- ===== src/Gateway/System/Sample.antt =====
-- A concrete gateway with an FCM app and a queue.
use pincerbell.Base.{◌≡◌, refl, none, some, [], ◌∷◌, string_eq, ok}
use pincerbell.HashMap
use pincerbell.HashMap.{Distinct}
use pincerbell.Text.{trim}
use pincerbell.HttpClient.{http_client}
use pincerbell.Json.{str, obj, field, end}
use pincerbell.Json
use pincerbell.Api.Read.{fields_of, required, read_string}
use pincerbell.Config.{Config, AppConfig, http_options}
use pincerbell.Environment.{Environment}
use pincerbell.Environment.Sample
use pincerbell.Dedup
use pincerbell.Queue
use pincerbell.QueueSide
use pincerbell.Fcm.Construction
use pincerbell.Fcm.Tests as FcmTests
use pincerbell.Provider.{Provider, Worlds}
use pincerbell.Provider.Construction as Providers
use pincerbell.Gateway.{AppState}
use pincerbell.Gateway.Construction.{new}
use pincerbell.Apns.Tests as ApnsTests
use pincerbell.Webpush.Tests as WebpushTests
use pincerbell.QueueSide.{QueueState, verify_token, bytes_beq}

abbrev pub environment : Environment
environment = record Sample.environment {
  parse_json = λ raw. ok (
      obj (
        field "project_id" (str "p") (
          field "private_key" (str "key")
            (field "client_email" (str "me") (field "token_uri" (str "https://t") end)))));
}

abbrev pub config : Config
config = record Sample.config {
  apps = ("known", AppConfig.fcm "sa.json" none none) ∷ [];
  proxy = none;
  tls_ca_file = none;
}

abbrev pub first : AppState Provider
first = record {
  config = config;
  providers = ("known", Provider.fcm FcmTests.app) ∷ [];
  dedup = Dedup.new 300_000_000_000 65536;
  queue = some (record {
    queue = Queue.new 4 3600_000_000_000 60_000_000_000;
    token_hash = 6 ∷ [];
    rejected = Dedup.new 600_000_000_000 65536;
  });
}

pub built : new environment config ≡ ok first
unfolding new http_client http_options trim Providers.new Construction.new QueueSide.new
    HashMap.insert HashMap.remove Construction.read_account fields_of required read_string Json.get
built = refl

abbrev pub worlds : Worlds
worlds = record {
  fcm_world = FcmTests.world;
  apns_world = ApnsTests.world;
  webpush_world = WebpushTests.world_at WebpushTests.url;
}
