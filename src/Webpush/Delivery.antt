-- ===== src/Webpush/Delivery.antt =====
-- Delivery via Web Push: the subscription, the VAPID header and its cache, and `deliver`.
use pincerbell.Base.{
  ℕ, ◌+◌, ◌*◌, Option, none, some, List, String, string_eq, Result, ok, err, ◌>>=◌, if◌then◌else◌,
  ltb,
}
use Prim.Native.String.{◌++◌}
use pincerbell.Time.{Duration, Instant, from_secs}
use pincerbell.HashMap
use pincerbell.HashMap.{HashMap}
use pincerbell.Environment.{Client}
use pincerbell.Json
use pincerbell.Json.{Value, pos, num, str, obj, end, Fields}
use pincerbell.Api.{Notification, Device, PusherData, Prio, priority}
use pincerbell.Http.{Response, Reason, Outcome}
use pincerbell.Webpush.{Bytes, Url, endpoint_allowed, build_payload, classify}
use pincerbell.Webpush.Encryption.{Crypto, encrypt}

abbrev pub ttl_secs : ℕ
ttl_secs = 86400

abbrev pub vapid_lifetime : Duration
vapid_lifetime = from_secs (12 * 60 * 60)

abbrev pub vapid_refresh_margin : Duration
vapid_refresh_margin = from_secs (60 * 60)

pub record CachedToken : Type 0 where
  pub header : String
  pub expires : Instant

pub record WebPushApp : Type 0 where
  pub client : Client
  pub public_key_b64 : String
  pub contact : String
  pub allowed_endpoints : List Bytes
  pub tokens : HashMap String CachedToken

pub record Request : Type 0 where
  pub endpoint : Url
  pub authorization : String
  pub ttl : ℕ
  pub urgency : String
  pub body : Bytes

-- What the outside answers during one delivery: base64url both ways, the parsers of keys and URLs,
-- the printing of JSON, the cryptography, the fresh key, the salt, the clocks at the cache check,
-- for the claims and at the caching, the signature of a text in base64url, and the push service.
pub record World : Type 0 where
  pub decode : String → Result Bytes String
  pub encode : String → String
  pub public_key : Bytes → Result Bytes String
  pub parse_url : String → Result Url String
  pub print : Value → String
  pub utf8 : String → Bytes
  pub crypto : Crypto
  pub secret : Bytes
  pub salt : Result Bytes String
  pub now : Instant
  pub unix_now : ℕ
  pub signed_at : Instant
  pub sign : String → String
  pub send : Request → Result Response String

pub record Subscription : Type 0 where
  pub endpoint : Url
  pub p256dh : Bytes
  pub auth : Bytes

or_err : Option String → String → Result String String
or_err none e = err e
or_err (some s) e = ok s

-- A text entry of the pusher data.
entry_of : PusherData → String → Option String
entry_of d key = elim (Json.get d.rest key) [ none ↦ none | some v ↦ Json.as_str v ]

data_of : Device → Result PusherData String
data_of device = elim device.pusher_data [ none ↦ err "pusher data missing" | some d ↦ ok d ]

unfoldable pub subscription : World → Device → Result Subscription String
unfolding or_err entry_of data_of
subscription w device = do
  bytes ← w.decode device.pushkey
  p256dh ← w.public_key bytes
  pusher_data ← data_of device
  text ← or_err (entry_of pusher_data "endpoint") "pusher data has no endpoint"
  endpoint ← w.parse_url text
  secret ← or_err (entry_of pusher_data "auth") "pusher data has no auth secret"
  auth ← w.decode secret
  ok (record { endpoint = endpoint; p256dh = p256dh; auth = auth })

unfoldable pub cached_header : WebPushApp → Instant → String → Option String
cached_header app now audience = elim (HashMap.get app.tokens audience) [
  | none ↦ none
  | some t ↦ if ltb (now + vapid_refresh_margin) t.expires then some t.header else none
]

unfoldable pub claims_for : WebPushApp → ℕ → String → Value
claims_for app unix_now audience = obj (
    Json.put (Json.put (Json.put end "aud" (str audience)) "exp" (num (pos (unix_now + 43200))))
      "sub" (str app.contact))

unfoldable pub fresh_header : WebPushApp → World → String → String
unfolding claims_for
fresh_header app w audience =
    let signing_input =
      w.encode "{\"typ\":\"JWT\",\"alg\":\"ES256\"}"
      ++ "."
      ++ w.encode (w.print (claims_for app w.unix_now audience)) in
    "vapid t=" ++ signing_input ++ "." ++ w.sign signing_input ++ ", k=" ++ app.public_key_b64

-- It fails on no input.
unfoldable pub vapid_header : WebPushApp → World → Url → String × WebPushApp
unfolding cached_header fresh_header
vapid_header app w endpoint = elim (cached_header app w.now endpoint.origin) [
  | some header ↦ (header, app)
  | none ↦
      let header = fresh_header app w endpoint.origin in
      (
        header,
        record app {
          tokens =
              HashMap.insert app.tokens endpoint.origin
                (record { header = header; expires = w.signed_at + vapid_lifetime });
        },
      )
]

unfoldable pub answer : Result Response String → Outcome
answer (err e) = Outcome.transient (Reason.network e)
answer (ok r) = classify r

unfoldable pub request_for : Notification → Url → String → Bytes → Request
request_for n endpoint header body = record {
  endpoint = endpoint;
  authorization = header;
  ttl = ttl_secs;
  urgency = elim (priority n) [ Prio.high ↦ "high" | Prio.low ↦ "normal" ];
  body = body;
}

-- `deliver` from the point on where the endpoint may be contacted.
unfoldable pub contact_endpoint :
    WebPushApp → World → Notification → Subscription → Outcome × WebPushApp
contact_endpoint app w n sub = elim w.salt [
  | err e ↦ (Outcome.transient (Reason.rng e), app)
  | ok salt ↦
      elim (encrypt w.crypto (w.utf8 (w.print (build_payload n))) sub.p256dh sub.auth w.secret
        salt) [
          | err e ↦ (Outcome.transient (Reason.encryption e), app)
          | ok body ↦
              let (header, app') = vapid_header app w sub.endpoint in
              (answer (w.send (request_for n sub.endpoint header body)), app')
        ]
]

unfoldable pub deliver : WebPushApp → World → Notification → Device → Outcome × WebPushApp
unfolding contact_endpoint
deliver app w n device = elim (subscription w device) [
  | err e ↦ (Outcome.skipped, app)
  | ok sub ↦ elim (endpoint_allowed sub.endpoint app.allowed_endpoints) [
    | err e ↦ (Outcome.skipped, app)
    | ok u ↦ contact_endpoint app w n sub
  ]
]
