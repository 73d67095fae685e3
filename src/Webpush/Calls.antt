-- ===== src/Webpush/Calls.antt =====
-- `WebPushApp::deliver` cut at the locks of its cached headers and at its await.
use pincerbell.Base.{◌+◌, none, some, ok, err, String, string_eq}
use pincerbell.HashMap
use pincerbell.Call.{Call}
use pincerbell.Api.{Notification, Device}
use pincerbell.Http.{Outcome}
use pincerbell.Webpush.{Bytes, Url, endpoint_allowed}
use pincerbell.Webpush.Delivery.{
  WebPushApp, World, Request, subscription, cached_header, fresh_header, request_for, answer,
  vapid_lifetime,
}
use pincerbell.Webpush.Contact.{message_body}

-- `vapid_header` from the point on where no cached header serves.
unfoldable pub sign_header : WebPushApp → World → Url → String × WebPushApp
sign_header app w endpoint =
    let header = fresh_header app w endpoint.origin in
    (
      header,
      record app {
        tokens =
            HashMap.insert app.tokens endpoint.origin
              (record { header = header; expires = w.signed_at + vapid_lifetime });
      },
    )

-- The look at the cache, once the message is sealed.
unfoldable pub look_up :
    WebPushApp → World → Notification → Url → Bytes → Call (Url × Bytes) Request
look_up app w n endpoint body = elim (cached_header app w.now endpoint.origin) [
  | some header ↦ Call.sending (request_for n endpoint header body)
  | none ↦ Call.minting (endpoint, body)
]

-- From the subscription to the look at the cache.
unfoldable pub open_call : WebPushApp → World → Notification → Device → Call (Url × Bytes) Request
unfolding look_up
open_call app w n device = elim (subscription w device) [
  | err e ↦ Call.ended Outcome.skipped
  | ok sub ↦ elim (endpoint_allowed sub.endpoint app.allowed_endpoints) [
    | err e ↦ Call.ended Outcome.skipped
    | ok u ↦ elim (message_body w n sub) [
      | err e ↦ Call.ended (Outcome.transient e)
      | ok body ↦ look_up app w n sub.endpoint body
    ]
  ]
]

-- The next part of a delivery.
unfoldable pub proceed :
    WebPushApp
    → World
    → Notification
    → Device
    → Call (Url × Bytes) Request
    → Call (Url × Bytes) Request × WebPushApp
unfolding open_call sign_header
proceed app w n device Call.looking = (open_call app w n device, app)
proceed app w n device (Call.minting (endpoint, body)) =
    let (header, app') = sign_header app w endpoint in
    (Call.sending (request_for n endpoint header body), app')
proceed app w n device (Call.sending r) = (Call.ended (answer (w.send r)), app)
proceed app w n device (Call.ended outcome) = (Call.ended outcome, app)
