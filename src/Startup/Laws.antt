-- ===== src/Startup/Laws.antt =====
-- When the gateway serves, and with what.
use pincerbell.Base.{
  ◌≡◌, refl, ◌∙◌, ap, sym, subst, Option, none, some, List, [], String, string_eq, Result, ok,
  arith, Result-cases, inl, inr,
}
use pincerbell.HashMap
use pincerbell.HashMap.{Distinct}
use pincerbell.Provider.Construction as Providers
use pincerbell.Webpush.Construction as WebPushApp
use pincerbell.Config.{Config, AppConfig, FilePath, HttpOptions, http_options, not_found, failed}
use pincerbell.Config.Loading
use pincerbell.Provider.{Provider}
use pincerbell.Environment.{Environment}
use pincerbell.Gateway.Construction as State
use pincerbell.Gateway.Constructed.{Built, new-Built}
use pincerbell.Gateway.Queueing.{IsSound}
use pincerbell.Startup.{
  Request, start_with, print_version, misuse, Ready, config_path, load_all, prepare, main, failure,
}

-- What was prepared from a path.
pub record IsPrepared (env : Environment) (path : FilePath) (ready : Ready) : Type 0 where
  pub config : Config
  pub config_loaded : Loading.load env path ≡ ok config
  pub upstreams_loaded : load_all env (http_options config) config.poll ≡ ok ready.upstreams
  pub state_built : State.new env config ≡ ok ready.state
  pub same_listen : ready.listen ≡ config.listen

prepare-IsPrepared :
    (env : Environment) (path : FilePath) (ready : Ready)
    → prepare env path ≡ ok ready
    → IsPrepared env path ready
unfolding prepare
prepare-IsPrepared env path ready made = elim (Result-cases (Loading.load env path)) [
  | inr (e, bad) ↦ absurd (ground (arith, bad, made))
  | inl (config, loaded) ↦ elim (Result-cases (load_all env (http_options config) config.poll)) [
    | inr (e, bad) ↦ absurd (ground (arith, loaded, bad, made))
    | inl (ups, polled) ↦ elim (Result-cases (State.new env config)) [
      | inr (e, bad) ↦ absurd (ground (arith, loaded, polled, bad, made))
      | inl (st, built) ↦
          subst (IsPrepared env path) (ground (arith, loaded, polled, built, made)) (record {
            config = config;
            config_loaded = loaded;
            upstreams_loaded = polled;
            state_built = built;
            same_listen = refl;
          })
    ]
  ]
]

load-Distinct :
    (env : Environment) (path : FilePath) (config : Config)
    → ((raw : String) (c : Config) → env.parse_config raw ≡ ok c → Distinct c.apps)
    → Loading.load env path ≡ ok config
    → Distinct config.apps
unfolding Loading.load
load-Distinct env path config tables loaded = elim (Result-cases (env.read_to_string path)) [
  | inl (raw, got) ↦ elim (Result-cases (env.parse_config raw)) [
    | inl (c, parsed) ↦ tables raw config (ground (arith, got, parsed, loaded))
    | inr (e, bad) ↦ absurd (ground (arith, got, bad, loaded))
  ]
  | inr (not_found, got) ↦ elim (Result-cases (env.parse_config "")) [
    | inl (c, parsed) ↦ tables "" config (ground (arith, got, parsed, loaded))
    | inr (e, bad) ↦ absurd (ground (arith, got, bad, loaded))
  ]
  | inr (failed e, got) ↦ absurd (ground (arith, got, loaded))
]

-- What serves was prepared from the path that the command line asks to start with, and its address
-- is bound.
main-IsPrepared :
    (env : Environment) (bind : String → Result {0, 0} Unit String)
    (serve : Ready → Result {0, 0} Unit String) (args : List String) (var : Option FilePath)
    (ready : Ready)
    → (main env bind serve args var).1 ≡ some ready
    → (path : FilePath) × (config_path args var ≡ start_with path)
      × IsPrepared env path ready
      × (bind ready.listen ≡ ok tt)
unfolding main
main-IsPrepared env bind serve args var ready served = go (config_path args var) refl
  where
    go :
        (r : Request)
        → config_path args var ≡ r
        → (path : FilePath) × (config_path args var ≡ start_with path)
          × IsPrepared env path ready
          × (bind ready.listen ≡ ok tt)
    go print_version asked = absurd (ground (arith, asked, served))
    go (misuse m) asked = absurd (ground (arith, asked, served))
    go (start_with path) asked = elim (Result-cases (prepare env path)) [
      | inr (e, bad) ↦ absurd (ground (arith, asked, bad, served))
      | inl (r, made) ↦ elim (Result-cases (bind r.listen)) [
        | inr (e, bad) ↦ absurd (ground (arith, asked, made, bad, served))
        | inl (t, bound) ↦
            let same : r ≡ ready = ground (arith, asked, made, bound, served) in
            (
              path,
              asked,
              prepare-IsPrepared env path ready (made ∙ ap ok same),
              sym (ap (λ x. bind x.listen) same) ∙ bound,
            )
      ]
    ]

-- The gateway serves only if the command line asks for a start with some path, the configuration at
-- that path could be loaded, each of its upstreams could be loaded, and its address could be bound;
-- the state it serves then has exactly a backend for each configured app, built from the app's own
-- entry, and its cache, its queue and its record of invalid pushkeys are consistent. The parser
-- gives each app once.
pub main_serves :
    (env : Environment) (bind : String → Result {0, 0} Unit String)
    (serve : Ready → Result {0, 0} Unit String) (args : List String) (var : Option FilePath)
    (ready : Ready)
    → ((raw : String) (c : Config) → env.parse_config raw ≡ ok c → Distinct c.apps)
    → (main env bind serve args var).1 ≡ some ready
    → (path : FilePath) × (config : Config) × (config_path args var ≡ start_with path)
      × (Loading.load env path ≡ ok config)
      × (load_all env (http_options config) config.poll ≡ ok ready.upstreams)
      × (bind config.listen ≡ ok tt)
      × ((app_id : String)
          → Built env
              (http_options config)
              (HashMap.get config.apps app_id)
              (HashMap.get ready.state.providers app_id))
      × IsSound 0 ready.state
main_serves env bind serve args var ready tables served =
    let (path, asked, p, bound) = main-IsPrepared env bind serve args var ready served in
    let built =
      new-Built env p.config ready.state (load-Distinct env path p.config tables p.config_loaded)
        p.state_built in
    (
      path,
      p.config,
      asked,
      p.config_loaded,
      p.upstreams_loaded,
      sym (ap bind p.same_listen) ∙ bound,
      built.1,
      built.2,
    )

Built-empty_allowlist :
    (env : Environment) (http : HttpOptions) (key : FilePath) (email : String) (p : Option Provider)
    → ¬ Built env http (some (AppConfig.webpush key email [])) p
unfolding Built Providers.new WebPushApp.new
Built-empty_allowlist env http key email p (provider, there, made) = ground (arith, made)

-- Where the command line asks to start with a path, and the configuration there can be loaded but has
-- a Web Push app with an empty allowlist, which would let clients choose what the gateway contacts,
-- the program ends with a failure and serves nothing. The parser gives each app once.
pub main-empty_allowlist :
    (env : Environment) (bind : String → Result {0, 0} Unit String)
    (serve : Ready → Result {0, 0} Unit String) (args : List String) (var : Option FilePath)
    (path key : FilePath) (config : Config) (app_id email : String)
    → ((raw : String) (c : Config) → env.parse_config raw ≡ ok c → Distinct c.apps)
    → config_path args var ≡ start_with path
    → Loading.load env path ≡ ok config
    → HashMap.get config.apps app_id ≡ some (AppConfig.webpush key email [])
    → main env bind serve args var ≡ (failure, none)
unfolding main
main-empty_allowlist env bind serve args var path key config app_id email tables asked loaded
      listed =
    elim (Result-cases (prepare env path)) [
      | inr (e, bad) ↦ ground (arith, asked, bad)
      | inl (ready, made) ↦
          let p = prepare-IsPrepared env path ready made in
          let same : p.config ≡ config = ground (arith, p.config_loaded, loaded) in
          let built =
            (new-Built env p.config ready.state
                (load-Distinct env path p.config tables p.config_loaded) p.state_built).1
              app_id in
          absurd (
            Built-empty_allowlist env (http_options p.config) key email
              (HashMap.get ready.state.providers app_id)
              (subst
                (λ x.
                  Built env (http_options p.config) x (HashMap.get ready.state.providers app_id))
                (ap (λ c. HashMap.get c.apps app_id) same ∙ listed) built))
    ]
