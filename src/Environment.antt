-- ===== src/Environment.antt =====
-- What the process finds outside of it when it starts: files, and what the libraries make of texts.
-- The text of an error is what the program prints of it.
pub mod Sample
use pincerbell.Base.{ℕ, Bool, Option, List, String, Result}
use pincerbell.Time.{Duration}
use pincerbell.Json.{Value}
use pincerbell.Config.{Config, FilePath, ReadError}

-- What a reqwest::ClientBuilder was told. The root certificates stand for themselves.
pub record Client : Type 0 where
  pub timeout : Option Duration
  pub proxy : Option String
  pub roots : List (List ℕ)
  pub accept_invalid_certs : Bool

pub record Environment : Type 0 where
  pub read_to_string : FilePath → Result String ReadError
  pub read : FilePath → Result (List ℕ) ReadError
  pub message : ReadError → String
  -- toml::from_str
  pub parse_config : String → Result Config String
  -- serde_json, as far as a value
  pub parse_json : String → Result Value String
  -- reqwest: Proxy::all, Certificate::from_pem_bundle and ClientBuilder::build
  pub parse_proxy : String → Result {0, 0} Unit String
  pub from_pem_bundle : List ℕ → Result (List (List ℕ)) String
  pub build : Client → Result {0, 0} Unit String
  -- jsonwebtoken::EncodingKey, whether a text is one
  pub from_rsa_pem : String → Result {0, 0} Unit String
  pub from_ec_pem : String → Result {0, 0} Unit String
  -- p256::SecretKey, as the encoded point of its public key
  pub from_pkcs8_pem : String → Result (List ℕ) String
  pub from_sec1_pem : String → Result (List ℕ) String
  pub base64 : List ℕ → String
  pub utf8 : String → List ℕ
  pub sha256 : String → List ℕ
