-- ===== src/Apns/Construction.antt =====
-- `ApnsApp::new`.
use pincerbell.Base.{
  ◌≡◌, Result-cases, inl, inr, arith, Bool, Option, none, some, String, Result, ok, ◌>>=◌, map_err,
  if◌then◌else◌,
}
use Prim.Native.String.{◌++◌}
use pincerbell.Time.{from_secs}
use pincerbell.Config.{FilePath, HttpOptions, ApnsPushType}
use pincerbell.Environment.{Environment}
use pincerbell.HttpClient.{http_client}
use pincerbell.Apns.{ApnsApp}

pub record ApnsSettings : Type 0 where
  pub key_file : FilePath
  pub key_id : String
  pub team_id : String
  pub topic : String
  pub sandbox : Bool
  pub api_root : Option String
  pub default_alert_title : Option String
  pub sound : Option String
  pub push_type : ApnsPushType
  pub http : HttpOptions

unfoldable pub api_root_of : Option String → Bool → String
api_root_of (some root) sandbox = root
api_root_of none sandbox =
    if sandbox then "https://api.sandbox.push.apple.com" else "https://api.push.apple.com"

unfoldable pub new : Environment → ApnsSettings → Result ApnsApp String
unfolding api_root_of
new env settings = do
  pem ←
      map_err (λ e. settings.key_file ++ ": " ++ env.message e)
        (env.read_to_string settings.key_file)
  _ ← map_err (λ e. settings.key_file ++ ": " ++ e) (env.from_ec_pem pem)
  client ← http_client env settings.http (some (from_secs 15))
  ok (record {
    client = client;
    api_root = api_root_of settings.api_root settings.sandbox;
    topic = settings.topic;
    team_id = settings.team_id;
    key_id = settings.key_id;
    default_alert_title = elim settings.default_alert_title [
      | none ↦ "New message"
      | some title ↦ title
    ];
    sound = settings.sound;
    push_type = settings.push_type;
    token = none;
  })

-- An app begins without a token.
pub token-new :
    (env : Environment) (settings : ApnsSettings) (app : ApnsApp)
    → new env settings ≡ ok app
    → app.token ≡ none
unfolding new
token-new env settings app made = elim (Result-cases (env.read_to_string settings.key_file)) [
  | inr (e, failed) ↦ absurd (ground (arith, made, failed))
  | inl (pem, got) ↦ elim (Result-cases (env.from_ec_pem pem)) [
    | inr (e, failed) ↦ absurd (ground (arith, made, got, failed))
    | inl (key, loaded) ↦
        elim (Result-cases (http_client env settings.http (some (from_secs 15)))) [
          | inr (e, failed) ↦ absurd (ground (arith, made, got, loaded, failed))
          | inl (client, built) ↦ ground (arith, made, got, loaded, built)
        ]
  ]
]
