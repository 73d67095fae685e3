-- ===== src/Startup.antt =====
-- src/main.rs: the command line, and the start of the gateway.
pub mod Laws
mod Tests
use pincerbell.Base.{
  ℕ, Option, none, some, List, [], ◌∷◌, String, ◌==◌, ◌||◌, string_eq, Result, ok, err, ◌>>=◌,
  if◌then◌else◌,
}
use Prim.Native.String.{◌++◌}
use pincerbell.Config.{Config, FilePath, PollUpstream, HttpOptions, http_options}
use pincerbell.Config.Loading
use pincerbell.Environment.{Environment}
use pincerbell.Poller.Upstreams.{Upstream}
use pincerbell.Poller.Upstreams
use pincerbell.Provider.{Provider}
use pincerbell.Gateway.{AppState}
use pincerbell.Gateway.Construction as State

-- What the command line asks for: to start with a configuration, or to print the version; or what is
-- wrong with it.
pub data Request : Type 0 where
  start_with : FilePath → Request
  print_version : Request
  misuse : String → Request

pub data Flag : Type 0 where
  config_flag version_flag unknown : Flag

unfoldable pub flag : String → Flag
flag arg =
    if arg == "-c" || arg == "--config"
    then config_flag
    else if arg == "-V" || arg == "--version"
    then version_flag
    else unknown

-- The path on the command line, or else the one of the environment variable PINCERBELL_CONF.
unfoldable pub path_or : Option FilePath → Option FilePath → FilePath
path_or (some path) var = path
path_or none (some path) = path
path_or none none = "pincerbell.toml"

-- The loop over the arguments behind the program's name.
unfoldable pub config_path_loop : List String → Option FilePath → Option FilePath → Request
unfolding flag path_or
config_path_loop [] path var = start_with (path_or path var)
config_path_loop (arg ∷ []) path var = elim (flag arg) [
  | config_flag ↦ misuse (arg ++ " requires a path argument")
  | version_flag ↦ print_version
  | unknown ↦ misuse ("unknown argument: " ++ arg ++ "\nusage: pincerbell [-c CONFIG]")
]
config_path_loop (arg ∷ next ∷ rest) path var = elim (flag arg) [
  | config_flag ↦ config_path_loop rest (some next) var
  | version_flag ↦ print_version
  | unknown ↦ misuse ("unknown argument: " ++ arg ++ "\nusage: pincerbell [-c CONFIG]")
]

unfoldable pub config_path : List String → Option FilePath → Request
unfolding config_path_loop
config_path args var = config_path_loop args none var

unfoldable pub load_all :
    Environment → HttpOptions → List PollUpstream → Result (List Upstream) String
load_all env defaults [] = ok []
load_all env defaults (p ∷ ps) = do
  up ← Upstreams.load env p defaults
  ups ← load_all env defaults ps
  ok (up ∷ ups)

-- What is ready to serve: the address to listen at, the state, and the upstreams to poll.
pub record Ready : Type 0 where
  pub listen : String
  pub state : AppState Provider
  pub upstreams : List Upstream

-- The steps of `main` from the path of the configuration up to the listener.
unfoldable pub prepare : Environment → FilePath → Result Ready String
unfolding load_all
prepare env path = do
  config ← Loading.load env path
  upstreams ← load_all env (http_options config) config.poll
  state ← State.new env config
  ok (record { listen = config.listen; state = state; upstreams = upstreams })

-- The exit codes.
abbrev pub success : ℕ
success = 0

abbrev pub failure : ℕ
failure = 1

unfoldable pub exit_of : Result {0, 0} Unit String → ℕ
exit_of (err e) = failure
exit_of (ok _) = success

-- The exit code, and what served, if anything did; the upstreams are polled from just before the
-- listener is bound. `bind` is the listener at an address, and `serve` the
-- end of serving.
unfoldable pub main :
    Environment
    → (String → Result {0, 0} Unit String)
    → (Ready → Result {0, 0} Unit String)
    → List String
    → Option FilePath
    → ℕ × Option Ready
unfolding config_path prepare exit_of
main env bind serve args var = elim (config_path args var) [
  | print_version ↦ (success, none)
  | misuse e ↦ (2, none)
  | start_with path ↦ elim (prepare env path) [
    | err e ↦ (failure, none)
    | ok ready ↦ elim (bind ready.listen) [
      | err e ↦ (failure, none)
      | ok _ ↦ (exit_of (serve ready), some ready)
    ]
  ]
]
