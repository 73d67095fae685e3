-- ===== src/Webpush/Construction.antt =====
-- `WebPushApp::new`.
use pincerbell.Base.{
  ◌≡◌, Result-cases, List-cases, inl, inr, arith, ℕ, some, List, [], ◌∷◌, map, String, Result, ok,
  err, ◌>>=◌, map_err,
}
use Prim.Native.String.{◌++◌}
use pincerbell.Time.{from_secs}
use pincerbell.HashMap
use pincerbell.Config.{FilePath, HttpOptions}
use pincerbell.Environment.{Environment}
use pincerbell.HttpClient.{http_client}
use pincerbell.Webpush.Delivery.{WebPushApp}

pub record WebPushSettings : Type 0 where
  pub vapid_private_key : FilePath
  pub vapid_contact_email : String
  pub allowed_endpoints : List String
  pub http : HttpOptions

-- Either encoding of the key will do; an error is that of the second.
unfoldable pub public_key : Environment → String → Result (List ℕ) String
public_key env pem = elim (env.from_pkcs8_pem pem) [
  | ok key ↦ ok key
  | err _ ↦ env.from_sec1_pem pem
]

-- `new` behind its check of the allowlist.
unfoldable pub with_allowlist : Environment → WebPushSettings → Result WebPushApp String
unfolding public_key
with_allowlist env settings = do
  pem ←
      map_err (λ e. settings.vapid_private_key ++ ": " ++ env.message e)
        (env.read_to_string settings.vapid_private_key)
  key ← map_err (λ e. settings.vapid_private_key ++ ": " ++ e) (public_key env pem)
  client ← http_client env settings.http (some (from_secs 15))
  ok (record {
    client = client;
    public_key_b64 = env.base64 key;
    contact = "mailto:" ++ settings.vapid_contact_email;
    allowed_endpoints = map env.utf8 settings.allowed_endpoints;
    tokens = HashMap.empty;
  })

unfoldable pub new : Environment → WebPushSettings → Result WebPushApp String
unfolding with_allowlist
new env settings = elim settings.allowed_endpoints [
  | [] ↦ err (
      "webpush: allowed_endpoints must not be empty -- the endpoint URL is "
      ++ "client-controlled, an empty allowlist would let clients aim the gateway "
      ++ "at arbitrary URLs (SSRF)")
  | _ ∷ _ ↦ with_allowlist env settings
]

tokens-with_allowlist :
    (env : Environment) (settings : WebPushSettings) (app : WebPushApp)
    → with_allowlist env settings ≡ ok app
    → app.tokens ≡ HashMap.empty
unfolding with_allowlist
tokens-with_allowlist env settings app made =
    elim (Result-cases (env.read_to_string settings.vapid_private_key)) [
      | inr (e, failed) ↦ absurd (ground (arith, made, failed))
      | inl (pem, got) ↦ elim (Result-cases (public_key env pem)) [
        | inr (e, failed) ↦ absurd (ground (arith, made, got, failed))
        | inl (key, loaded) ↦
            elim (Result-cases (http_client env settings.http (some (from_secs 15)))) [
              | inr (e, failed) ↦ absurd (ground (arith, made, got, loaded, failed))
              | inl (client, built) ↦ ground (arith, made, got, loaded, built)
            ]
      ]
    ]

-- An app begins without a header.
pub tokens-new :
    (env : Environment) (settings : WebPushSettings) (app : WebPushApp)
    → new env settings ≡ ok app
    → app.tokens ≡ HashMap.empty
unfolding new
tokens-new env settings app made = elim (List-cases settings.allowed_endpoints) [
  | inl empty ↦ absurd (ground (arith, made, empty))
  | inr (x, l, some_hosts) ↦
      tokens-with_allowlist env settings app (ground (arith, made, some_hosts))
]
