-- ===== src/Fcm.antt =====
-- src/fcm.rs: delivery via Firebase Cloud Messaging. The JWT library, the clocks and the HTTP
-- client answer through a `World`; the cached token is the backend's state.
pub mod Construction
pub mod Laws
pub mod Calls
pub mod Origins
pub mod Tests
use pincerbell.Base.{
  ℕ, ◌+◌, Bool, true, false, not, ◌&&◌, Option, none, some, String, Result, ok, err, if◌then◌else◌,
  ltb, nat_beq, ◌||◌,
}
use mathlib.Core.Option
use Prim.Native.String.{◌++◌}
use pincerbell.Time.{Duration, Instant, from_secs}
use pincerbell.Environment.{Client}
use pincerbell.Json
use pincerbell.Json.{Value, str, obj, Fields, end, field}
use pincerbell.Api.{Notification, Device, Counts, Prio, priority}
use pincerbell.Http.{
  Response, is_success, is_server_error, body_of, contains, Reason, Outcome, to_string,
}

abbrev pub scope : String
scope = "https://www.googleapis.com/auth/firebase.messaging"

abbrev pub token_grant_type : String
token_grant_type = "urn:ietf:params:oauth:grant-type:jwt-bearer"

abbrev pub token_refresh_margin : Duration
token_refresh_margin = from_secs 60

pub record ServiceAccount : Type 0 where
  pub project_id : String
  pub private_key : String
  pub client_email : String
  pub token_uri : String

pub record CachedToken : Type 0 where
  pub bearer : String
  pub expires : Instant

pub record FcmApp : Type 0 where
  pub client : Client
  pub api_root : String
  pub project_id : String
  pub account : ServiceAccount
  pub token : Option CachedToken

pub record Claims : Type 0 where
  pub iss : String
  pub scope_claim : String
  pub aud : String
  pub iat : ℕ
  pub exp : ℕ

pub record TokenResponse : Type 0 where
  pub access_token : String
  pub expires_in : ℕ

pub record TokenReply : Type 0 where
  pub status : ℕ
  pub json : Result TokenResponse String

pub record Request : Type 0 where
  pub url : String
  pub bearer : String
  pub json : Value

-- What the outside answers during one delivery: the clock at the cache check, the wall clock, the
-- signature of an assertion, the token endpoint (its URI, the grant type and the assertion), the
-- clock when the token arrived, and the push service.
pub record World : Type 0 where
  pub now : Instant
  pub unix_now : ℕ
  pub sign : Claims → Result String String
  pub post_token : String → String → String → Result TokenReply String
  pub token_time : Instant
  pub send : Request → Result Response String

-- The cached token, while it is valid for more than the margin.
unfoldable pub cached_bearer : FcmApp → Instant → Option String
cached_bearer app now = elim app.token [
  | none ↦ none
  | some t ↦ if ltb (now + token_refresh_margin) t.expires then some t.bearer else none
]

unfoldable pub claims_at : FcmApp → ℕ → Claims
claims_at app iat = record {
  iss = app.account.client_email;
  scope_claim = scope;
  aud = app.account.token_uri;
  iat = iat;
  exp = iat + 3600;
}

-- The answer of the token endpoint, stored. The sum has no bound here; the program panics where it
-- does not fit an `Instant`.
unfoldable pub store_token : FcmApp → Instant → TokenReply → Result String Reason × FcmApp
store_token app now reply =
    if not (is_success reply.status)
    then (err (Reason.endpoint_status reply.status), app)
    else elim reply.json [
      | err e ↦ (err (Reason.endpoint_body e), app)
      | ok t ↦ (
        ok t.access_token,
        record app {
          token = some (record { bearer = t.access_token; expires = now + from_secs t.expires_in });
        },
      )
    ]

unfoldable pub fetch_token : FcmApp → World → Result String Reason × FcmApp
unfolding claims_at store_token
fetch_token app w = elim (w.sign (claims_at app w.unix_now)) [
  | err e ↦ (err (Reason.signing e), app)
  | ok assertion ↦ elim (w.post_token app.account.token_uri token_grant_type assertion) [
    | err e ↦ (err (Reason.endpoint e), app)
    | ok reply ↦ store_token app w.token_time reply
  ]
]

unfoldable pub access_token : FcmApp → World → Result String Reason × FcmApp
unfolding cached_bearer fetch_token
access_token app w = elim (cached_bearer app w.now) [
  | some bearer ↦ (ok bearer, app)
  | none ↦ fetch_token app w
]

unfoldable pub build_message : Notification → Device → Value
build_message n device =
    let d1 = Json.put_opt end "event_id" (Option.map str n.event_id) in
    let d2 = Json.put_opt d1 "room_id" (Option.map str n.room_id) in
    let d3 = Json.put_opt d2 "type" (Option.map str n.event_type) in
    let d4 = Json.put_opt d3 "sender" (Option.map str n.sender) in
    let d5 = Json.put_opt d4 "sender_display_name" (Option.map str n.sender_display_name) in
    let d6 = Json.put_opt d5 "room_name" (Option.map str n.room_name) in
    let unread = Option.bind n.counts (λ (c : Counts). c.unread) in
    let d7 = Json.put_opt d6 "unread" (Option.map (λ (u : ℕ). str (to_string u)) unread) in
    let missed = Option.bind n.counts (λ (c : Counts). c.missed_calls) in
    let payload =
      Json.put_opt d7 "missed_calls" (Option.map (λ (m : ℕ). str (to_string m)) missed) in
    let prio : String = elim (priority n) [ Prio.high ↦ "HIGH" | Prio.low ↦ "NORMAL" ] in
    let android = Json.put end "priority" (str prio) in
    let message =
      Json.put (Json.put (Json.put end "token" (str device.pushkey)) "data" (obj payload)) "android"
        (obj android) in
    obj (Json.put end "message" (obj message))

-- What `deliver` makes of the push service's answer.
unfoldable pub classify : Response → Outcome
classify r =
    if is_success r.status
    then Outcome.delivered
    else if nat_beq r.status 404 && contains (body_of r) "UNREGISTERED"
    then Outcome.rejected
    else if nat_beq r.status 401
        || nat_beq r.status 403
        || nat_beq r.status 408
        || nat_beq r.status 429
    then Outcome.transient (Reason.http r.status)
    else if is_server_error r.status
    then Outcome.transient (Reason.http r.status)
    else Outcome.skipped

unfoldable pub request_for : FcmApp → String → Notification → Device → Request
unfolding build_message
request_for app bearer n device = record {
  url = app.api_root ++ "/v1/projects/" ++ app.project_id ++ "/messages:send";
  bearer = bearer;
  json = build_message n device;
}

unfoldable pub answer : Result Response String → Outcome
answer (err e) = Outcome.transient (Reason.network e)
answer (ok r) = classify r

unfoldable pub deliver : FcmApp → World → Notification → Device → Outcome × FcmApp
deliver app w n device =
    let (token, app') = access_token app w in
    (
      elim token [
        | err e ↦ Outcome.transient e
        | ok bearer ↦ answer (w.send (request_for app bearer n device))
      ],
      app',
    )
