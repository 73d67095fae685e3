-- ===== src/Gateway/Construction.antt =====
-- `AppState::new`.
use pincerbell.Base.{Option, none, some, [], ◌∷◌, String, string_eq, Result, ok, ◌>>=◌, map_err}
use Prim.Native.String.{◌++◌}
use pincerbell.Time.{from_secs}
use pincerbell.HashMap
use pincerbell.HashMap.{HashMap}
use pincerbell.Config.{Config, AppConfig, QueueConfig, HttpOptions, http_options}
use pincerbell.Environment.{Environment}
use pincerbell.Dedup
use pincerbell.QueueSide
use pincerbell.QueueSide.{QueueState}
use pincerbell.Provider.{Provider}
use pincerbell.Provider.Construction as Providers
use pincerbell.Gateway.{AppState}

-- The loop over the configured apps.
unfoldable pub add_providers :
    Environment
    → HttpOptions
    → HashMap String AppConfig
    → HashMap String Provider
    → Result (HashMap String Provider) String
add_providers env http [] providers = ok providers
add_providers env http ((app_id, app) ∷ apps) providers = do
  provider ← map_err (λ e. "app " ++ app_id ++ ": " ++ e) (Providers.new env app http)
  add_providers env http apps (HashMap.insert providers app_id provider)

unfoldable pub queue_of : Environment → Option QueueConfig → Result (Option QueueState) String
queue_of env none = ok none
queue_of env (some cfg) = do q ← QueueSide.new env cfg; ok (some q)

unfoldable pub new : Environment → Config → Result (AppState Provider) String
unfolding add_providers queue_of
new env config = do
  providers ← add_providers env (http_options config) config.apps HashMap.empty
  queue ← queue_of env config.queue
  ok (record {
    config = config;
    providers = providers;
    dedup = Dedup.new (from_secs config.dedup_ttl_secs) config.dedup_max_entries;
    queue = queue;
  })
