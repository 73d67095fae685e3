-- ===== src/Config/Loading.antt =====
-- `Config::load`.
use pincerbell.Base.{String, Result, ok, err, map_err}
use Prim.Native.String.{◌++◌}
use pincerbell.Config.{Config, FilePath, not_found, failed}
use pincerbell.Environment.{Environment}

-- A missing file is an empty one.
unfoldable pub load : Environment → FilePath → Result Config String
load env path =
    let parse : String → Result Config String =
      (λ raw. map_err (λ e. path ++ ": " ++ e) (env.parse_config raw)) in
    elim (env.read_to_string path) [
      | ok raw ↦ parse raw
      | err not_found ↦ parse ""
      | err (failed e) ↦ err (path ++ ": " ++ env.message (failed e))
    ]
