-- ===== src/Apns.antt =====
-- src/apns.rs: delivery via the Apple Push Notification service. The JWT library, the clocks and
-- the HTTP client answer through a `World`; the cached token is the backend's state.
pub mod Construction
pub mod Laws
pub mod Calls
pub mod Origins
pub mod Tests
use pincerbell.Base.{
  ℕ, ◌+◌, ◌*◌, Bool, true, false, ◌&&◌, ◌||◌, Option, none, some, String, Result, ok, err,
  if◌then◌else◌, ltb, nat_beq,
}
use mathlib.Core.Option
use Prim.Native.String.{◌++◌}
use pincerbell.Time.{Duration, Instant, from_secs, duration_since}
use pincerbell.Environment.{Client}
use pincerbell.Json
use pincerbell.Json.{pos, Value, str, num, obj, Fields, end, or_else}
use pincerbell.Api.{Notification, Device, Counts, Prio, priority}
use pincerbell.Config.{ApnsPushType}
use pincerbell.Http.{Response, is_success, is_server_error, body_of, contains, Reason, Outcome}

-- 45 minutes
abbrev pub token_max_age : Duration
token_max_age = from_secs (45 * 60)

pub record CachedToken : Type 0 where
  pub bearer : String
  pub issued : Instant

pub record ApnsApp : Type 0 where
  pub client : Client
  pub api_root : String
  pub topic : String
  pub team_id : String
  pub key_id : String
  pub default_alert_title : String
  pub sound : Option String
  pub push_type : ApnsPushType
  pub token : Option CachedToken

pub record Claims : Type 0 where
  pub kid : String
  pub iss : String
  pub iat : ℕ

pub record Request : Type 0 where
  pub url : String
  pub authorization : String
  pub topic : String
  pub push_type : String
  pub priority : String
  pub json : Value

-- What the outside answers during one delivery: the clock at the cache check, the wall clock, the
-- signature of a token, the clock when it was signed, and the push service.
pub record World : Type 0 where
  pub now : Instant
  pub unix_now : ℕ
  pub sign : Claims → Result String String
  pub signed_at : Instant
  pub send : Request → Result Response String

unfoldable pub cached_bearer : ApnsApp → Instant → Option String
cached_bearer app now = elim app.token [
  | none ↦ none
  | some t ↦ if ltb (duration_since now t.issued) token_max_age then some t.bearer else none
]

unfoldable pub bearer_token : ApnsApp → World → Result String Reason × ApnsApp
unfolding cached_bearer
bearer_token app w = elim (cached_bearer app w.now) [
  | some bearer ↦ (ok bearer, app)
  | none ↦ elim (w.sign (record { kid = app.key_id; iss = app.team_id; iat = w.unix_now })) [
    | err e ↦ (err (Reason.signing e), app)
    | ok bearer ↦
        (ok bearer, record app { token = some (record { bearer = bearer; issued = w.signed_at }) })
  ]
]

-- The `apns-push-type` and `apns-priority` headers.
unfoldable pub push_headers : ApnsPushType → Prio → String × String
push_headers ApnsPushType.voip p = ("voip", "10")
push_headers ApnsPushType.alert Prio.high = ("alert", "10")
push_headers ApnsPushType.alert Prio.low = ("alert", "5")

unread_of : Notification → Option ℕ
unread_of n = Option.bind n.counts (λ (c : Counts). c.unread)

-- The push-rule sound tweak.
tweak_sound : Device → Option String
tweak_sound device =
    Option.bind (Option.bind device.tweaks (λ (t : Fields). Json.get t "sound")) Json.as_str

-- The `aps` dictionary: a badge where there is a count, and a rewritable alert for an event.
pub aps_for : ApnsApp → Notification → Device → Fields
unfolding unread_of tweak_sound
aps_for app n device = elim app.push_type [
  | ApnsPushType.voip ↦ end
  | ApnsPushType.alert ↦
      let badge = Json.put_opt end "badge" (Option.map (λ (u : ℕ). num (pos u)) (unread_of n)) in
      elim n.event_id [
        | none ↦ badge
        | some _ ↦
            let mutable_content = Json.put badge "mutable-content" (num (pos 1)) in
            let alert =
              Json.put mutable_content "alert"
                (obj (Json.put end "title" (str app.default_alert_title))) in
            Json.put_opt alert "sound" (Option.map str (or_else (tweak_sound device) app.sound))
      ]
]

unfoldable pub build_payload : ApnsApp → Notification → Device → Value
unfolding aps_for
build_payload app n device =
    let p0 = Json.put end "aps" (obj (aps_for app n device)) in
    let p1 = Json.put_opt p0 "event_id" (Option.map str n.event_id) in
    let p2 = Json.put_opt p1 "room_id" (Option.map str n.room_id) in
    let p3 = Json.put_opt p2 "type" (Option.map str n.event_type) in
    let p4 = Json.put_opt p3 "sender" (Option.map str n.sender) in
    let p5 = Json.put_opt p4 "sender_display_name" (Option.map str n.sender_display_name) in
    let p6 = Json.put_opt p5 "room_name" (Option.map str n.room_name) in
    let p7 = Json.put_opt p6 "unread" (Option.map (λ (u : ℕ). num (pos u)) (unread_of n)) in
    let missed = Option.bind n.counts (λ (c : Counts). c.missed_calls) in
    obj (Json.put_opt p7 "missed_calls" (Option.map (λ (m : ℕ). num (pos m)) missed))

unfoldable pub request_for : ApnsApp → String → Notification → Device → Request
unfolding push_headers build_payload
request_for app bearer n device =
    let (push_type, urgency) = push_headers app.push_type (priority n) in
    record {
      url = app.api_root ++ "/3/device/" ++ device.pushkey;
      authorization = "bearer " ++ bearer;
      topic = app.topic;
      push_type = push_type;
      priority = urgency;
      json = build_payload app n device;
    }

-- What `deliver` makes of the push service's answer, and whether it discards the cached token.
unfoldable pub classify : Response → Outcome × Bool
classify r =
    if is_success r.status
    then (Outcome.delivered, false)
    else if nat_beq r.status 410 && contains (body_of r) "Unregistered"
    then (Outcome.rejected, false)
    else if nat_beq r.status 403
    then (Outcome.transient (Reason.http_body 403 (body_of r)), true)
    else if nat_beq r.status 408 || nat_beq r.status 429
    then (Outcome.transient (Reason.http r.status), false)
    else if is_server_error r.status
    then (Outcome.transient (Reason.http r.status), false)
    else (Outcome.skipped, false)

unfoldable pub answer : Result Response String → Outcome × Bool
answer (err e) = (Outcome.transient (Reason.network e), false)
answer (ok r) = classify r

unfoldable pub deliver : ApnsApp → World → Notification → Device → Outcome × ApnsApp
deliver app w n device =
    let (token, app') = bearer_token app w in
    elim token [
      | err e ↦ (Outcome.transient e, app')
      | ok bearer ↦
          let (outcome, discard) = answer (w.send (request_for app bearer n device)) in
          (outcome, if discard then record app' { token = none } else app')
    ]
