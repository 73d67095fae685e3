-- ===== src/HttpClient/Laws.antt =====
-- What a client that was built can be relied on for.
use pincerbell.Base.{ℕ, ◌≡◌, ◌≢◌, Option, none, some, List, [], ok}
use pincerbell.Config.{FilePath}
use pincerbell.Environment.{Environment}

-- The root certificates that the options ask for.
pub data Roots (env : Environment) : Option FilePath → List (List ℕ) → Type 0 where
  default_roots : Roots env none []
  bundle :
      {path : FilePath} (pem : List ℕ) {certs : List (List ℕ)}
      → env.read path ≡ ok pem
      → env.from_pem_bundle pem ≡ ok certs
      → certs ≢ []
      → Roots env (some path) certs
