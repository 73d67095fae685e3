-- ===== src/Fcm/Construction.antt =====
-- `FcmApp::new`.
use pincerbell.Base.{
  ◌≡◌, Result-cases, inl, inr, arith, Option, none, some, String, Result, ok, ◌>>=◌, map_err, ◌∷◌,
  [],
}
use Prim.Native.String.{◌++◌}
use pincerbell.Time.{from_secs}
use pincerbell.Json.{Value}
use pincerbell.Api.Read.{fields_of, required, read_string}
use pincerbell.Config.{FilePath, HttpOptions}
use pincerbell.Environment.{Environment}
use pincerbell.HttpClient.{http_client}
use pincerbell.Fcm.{FcmApp, ServiceAccount}

-- The derived `Deserialize`.
unfoldable pub read_account : Value → Result ServiceAccount String
read_account v = do
  fs ← fields_of ("project_id" ∷ "private_key" ∷ "client_email" ∷ "token_uri" ∷ []) v
  project_id ← required read_string fs "project_id"
  private_key ← required read_string fs "private_key"
  client_email ← required read_string fs "client_email"
  token_uri ← required read_string fs "token_uri"
  ok (record {
    project_id = project_id;
    private_key = private_key;
    client_email = client_email;
    token_uri = token_uri;
  })

abbrev pub or_default : Option String → String → String
or_default none d = d
or_default (some s) d = s

unfoldable pub new :
    Environment → FilePath → Option String → Option String → HttpOptions → Result FcmApp String
unfolding read_account
new env file project_id api_root http = do
  raw ← map_err (λ e. file ++ ": " ++ env.message e) (env.read_to_string file)
  account ← map_err (λ e. file ++ ": " ++ e) (env.parse_json raw >>= read_account)
  _ ← map_err (λ e. file ++ ": private_key: " ++ e) (env.from_rsa_pem account.private_key)
  client ← http_client env http (some (from_secs 15))
  ok (record {
    client = client;
    api_root = or_default api_root "https://fcm.googleapis.com";
    project_id = or_default project_id account.project_id;
    account = account;
    token = none;
  })

-- An app begins without a token.
pub token-new :
    (env : Environment) (file : FilePath) (project_id api_root : Option String) (http : HttpOptions)
    (app : FcmApp)
    → new env file project_id api_root http ≡ ok app
    → app.token ≡ none
unfolding new
token-new env file project_id api_root http app made =
    elim (Result-cases (env.read_to_string file)) [
      | inr (e, failed) ↦ absurd (ground (arith, made, failed))
      | inl (raw, got) ↦ elim (Result-cases (env.parse_json raw >>= read_account)) [
        | inr (e, failed) ↦ absurd (ground (arith, made, got, failed))
        | inl (account, read) ↦ elim (Result-cases (env.from_rsa_pem account.private_key)) [
          | inr (e, failed) ↦ absurd (ground (arith, made, got, read, failed))
          | inl (key, loaded) ↦ elim (Result-cases (http_client env http (some (from_secs 15)))) [
            | inr (e, failed) ↦ absurd (ground (arith, made, got, read, loaded, failed))
            | inl (client, built) ↦ ground (arith, made, got, read, loaded, built)
          ]
        ]
      ]
    ]
