-- ===== src/Startup/Tests.antt =====
-- The start of the gateway on concrete inputs.
use pincerbell.Base.{
  ◌≡◌, refl, subst, false, Option, none, some, [], ◌∷◌, String, string_eq, Result, ok, err, arith,
}
use pincerbell.HashMap
use pincerbell.HashMap.{Distinct}
use pincerbell.Config.{Config, AppConfig, FilePath, http_options, upstream_http_options}
use pincerbell.Config.Loading
use pincerbell.Environment.Sample.{environment, config}
use pincerbell.Text.{trim, trim_end_slashes}
use pincerbell.Time.{Duration}
use pincerbell.HttpClient.{http_client}
use pincerbell.Dedup
use pincerbell.Queue
use pincerbell.QueueSide
use pincerbell.Environment.{Environment, Client}
use pincerbell.Provider.{Provider}
use pincerbell.Provider.Construction as Providers
use pincerbell.Webpush.Construction as WebPushApp
use pincerbell.Poller.Upstreams
use pincerbell.Gateway.Construction as State
use pincerbell.Gateway.Constructed.{Built}
use pincerbell.Gateway.Queueing.{IsSound}
use pincerbell.Startup.{
  Ready, start_with, print_version, misuse, config_path, load_all, main, failure,
}
use pincerbell.Startup.Laws.{main_serves, main-empty_allowlist}

-- The last path counts.
twice : config_path ("-c" ∷ "a" ∷ "--config" ∷ "b" ∷ []) (some "c") ≡ start_with "b"
unfolding config_path
twice = refl

from_environment : config_path [] (some "c") ≡ start_with "c"
unfolding config_path
from_environment = refl

no_path : config_path ("-c" ∷ "a" ∷ "-c" ∷ []) none ≡ misuse "-c requires a path argument"
unfolding config_path
no_path = refl

version : config_path ("-V" ∷ "no such option" ∷ []) none ≡ print_version
unfolding config_path
version = refl

abbrev proxied : Option Duration → Client
proxied timeout = record {
  timeout = timeout;
  proxy = some "http://proxy.example.test";
  roots = (1 ∷ []) ∷ [];
  accept_invalid_certs = false;
}

abbrev ready : Ready
ready = record {
  listen = "127.0.0.1:8300";
  state = record {
    config = config;
    providers =
        (
          "org.example.web",
          Provider.webpush (record {
            client = proxied (some 15_000_000_000);
            public_key_b64 = "BA";
            contact = "mailto:admin@example.test";
            allowed_endpoints = (9 ∷ []) ∷ [];
            tokens = [];
          }),
        )
        ∷ ("org.example.log", Provider.log)
        ∷ [];
    dedup = Dedup.new 300_000_000_000 65536;
    queue = some (record {
      queue = Queue.new 4 3600_000_000_000 60_000_000_000;
      token_hash = 6 ∷ [];
      rejected = Dedup.new 600_000_000_000 65536;
    });
  };
  upstreams =
      record {
        url = "https://push.example.test";
        token = "secret";
        timeout_secs = 30;
        max_batch = 100;
        client = record (proxied none) { proxy = none };
      }
      ∷ [];
}

abbrev served_by : String → Result {0, 0} Unit String
served_by address = ok tt

abbrev stopped : Ready → Result {0, 0} Unit String
stopped r = err "stopped"

served : (main environment served_by stopped ("-c" ∷ "a" ∷ []) none).1 ≡ some ready
unfolding main Loading.load load_all State.new Upstreams.load http_client upstream_http_options
    http_options trim trim_end_slashes Providers.new WebPushApp.new QueueSide.new HashMap.insert
    HashMap.remove
served = refl

tables : (raw : String) (c : Config) → environment.parse_config raw ≡ ok c → Distinct c.apps
unfolding HashMap.get
tables raw c parsed =
    let same : config ≡ c = ground (arith, parsed) in
    subst (λ x. Distinct x.apps) same (refl, (refl, tt))

main_serves_example :
    (path : FilePath) × (c : Config) × (config_path ("-c" ∷ "a" ∷ []) none ≡ start_with path)
    × (Loading.load environment path ≡ ok c)
    × (load_all environment (http_options c) c.poll ≡ ok ready.upstreams)
    × (served_by c.listen ≡ ok tt)
    × ((app_id : String)
        → Built environment
            (http_options c)
            (HashMap.get c.apps app_id)
            (HashMap.get ready.state.providers app_id))
    × IsSound 0 ready.state
main_serves_example =
    main_serves environment served_by stopped ("-c" ∷ "a" ∷ []) none ready tables served

-- The allowlist of the Web Push app is empty.
abbrev open_config : Config
open_config = record config {
  apps = ("org.example.web", AppConfig.webpush "key.pem" "admin@example.test" []) ∷ [];
}

abbrev open_environment : Environment
open_environment = record environment { parse_config = λ raw. ok open_config }

open_tables :
    (raw : String) (c : Config) → open_environment.parse_config raw ≡ ok c → Distinct c.apps
unfolding HashMap.get
open_tables raw c parsed =
    let same : open_config ≡ c = ground (arith, parsed) in
    subst (λ x. Distinct x.apps) same (refl, tt)

open_loaded : Loading.load open_environment "a" ≡ ok open_config
unfolding Loading.load
open_loaded = refl

open_listed :
    HashMap.get open_config.apps "org.example.web"
    ≡ some (AppConfig.webpush "key.pem" "admin@example.test" [])
unfolding HashMap.get
open_listed = refl

main-empty_allowlist_example :
    main open_environment served_by stopped ("-c" ∷ "a" ∷ []) none ≡ (failure, none)
unfolding config_path
main-empty_allowlist_example =
    main-empty_allowlist open_environment served_by stopped ("-c" ∷ "a" ∷ []) none "a" "key.pem"
      open_config "org.example.web" "admin@example.test" open_tables refl open_loaded open_listed
