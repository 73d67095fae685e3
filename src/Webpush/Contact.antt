-- ===== src/Webpush/Contact.antt =====
-- Which endpoints are contacted, when a pushkey is rejected, and how long a VAPID header is reused.
use pincerbell.Base.{
  ◌+◌, ◌<◌, ◌≡◌, ◌↔◌, ◌⊎◌, refl, sym, ap, ◌∙◌, some, String, Result, ok, err, Result-cases, arith,
  inl, inr, string_eq, eq_self,
}
use pincerbell.HashMap
use pincerbell.Api.{Notification, Device}
use pincerbell.Http.{Response, Reason, Outcome}
use pincerbell.Webpush.{Bytes, Url, endpoint_allowed, build_payload, classify}
use pincerbell.Webpush.Encryption.{encrypt}
use pincerbell.Webpush.Delivery.{
  WebPushApp, World, Subscription, CachedToken, subscription, cached_header, fresh_header,
  vapid_header, answer, request_for, contact_endpoint, deliver, vapid_refresh_margin,
  vapid_lifetime,
}

pub answer-eq-rejected :
    (a : Result Response String)
    → (answer a ≡ Outcome.rejected)
      ↔ ((r : Response) × (a ≡ ok r) × ((r.status ≡ 404) ⊎ (r.status ≡ 410)))
unfolding answer classify
answer-eq-rejected (err e) = (λ h. cc, λ h. ground (arith, h))
answer-eq-rejected (ok r) = (λ h. (r, refl, ground arith), λ h. ground (arith, h))

-- The body of the request, as far as it comes.
unfoldable pub message_body : World → Notification → Subscription → Result Bytes Reason
message_body w n sub = elim w.salt [
  | err e ↦ err (Reason.rng e)
  | ok salt ↦
      elim (encrypt w.crypto (w.utf8 (w.print (build_payload n))) sub.p256dh sub.auth w.secret
        salt) [ err e ↦ err (Reason.encryption e) | ok body ↦ ok body ]
]

contact_endpoint-eq-rejected :
    (app : WebPushApp) (w : World) (n : Notification) (sub : Subscription)
    → ((contact_endpoint app w n sub).0 ≡ Outcome.rejected) ↔ (
        (body : Bytes) × (r : Response) × (message_body w n sub ≡ ok body)
        × (w.send (request_for n sub.endpoint (vapid_header app w sub.endpoint).0 body) ≡ ok r)
        × ((r.status ≡ 404) ⊎ (r.status ≡ 410)))
unfolding contact_endpoint message_body
contact_endpoint-eq-rejected app w n sub = elim (Result-cases w.salt) [
  | inr (e, failed) ↦ (
    λ h. absurd (ground (arith, h, failed)),
    λ (b, r, h, _, _). absurd (ground (arith, h, failed)),
  )
  | inl (salt, got) ↦
      elim (Result-cases
        (encrypt w.crypto (w.utf8 (w.print (build_payload n))) sub.p256dh sub.auth w.secret salt)) [
          | inr (e, failed) ↦ (
            λ h. absurd (ground (arith, h, got, failed)),
            λ (b, r, h, _, _). absurd (ground (arith, h, got, failed)),
          )
          | inl (body, sealed) ↦
              let a =
                answer-eq-rejected
                  (w.send (request_for n sub.endpoint (vapid_header app w sub.endpoint).0 body)) in
              (
                λ h.
                    let (r, sent, gone) = a.0 (ground (arith, h, got, sealed)) in
                    (body, r, ground (arith, got, sealed), sent, gone),
                λ (b, r, h, sent, gone).
                    rw (got, sealed, contact_endpoint)
                      (a.1 (r, ground (arith, h, got, sealed, sent), gone)),
              )
        ]
]

-- A pushkey is rejected exactly if the subscription is usable, its endpoint passes the gate, the
-- message could be encrypted, and the push service answered 404 or 410.
pub deliver-eq-rejected_webpush :
    (app : WebPushApp) (w : World) (n : Notification) (device : Device)
    → ((deliver app w n device).0 ≡ Outcome.rejected) ↔ (
        (sub : Subscription) × (body : Bytes) × (r : Response) × (subscription w device ≡ ok sub)
        × (endpoint_allowed sub.endpoint app.allowed_endpoints ≡ ok tt)
        × (message_body w n sub ≡ ok body)
        × (w.send (request_for n sub.endpoint (vapid_header app w sub.endpoint).0 body) ≡ ok r)
        × ((r.status ≡ 404) ⊎ (r.status ≡ 410)))
unfolding deliver
deliver-eq-rejected_webpush app w n device = elim (Result-cases (subscription w device)) [
  | inr (e, failed) ↦ (
    λ h. absurd (ground (arith, h, failed)),
    λ (s, b, r, h, _, _, _, _). absurd (ground (arith, h, failed)),
  )
  | inl (sub, made) ↦ elim (Result-cases (endpoint_allowed sub.endpoint app.allowed_endpoints)) [
    | inr (e, refused) ↦ (
      λ h. absurd (ground (arith, h, made, refused)),
      λ (s, b, r, h, allowed, _, _, _). absurd (ground (arith, h, made, refused, allowed)),
    )
    | inl (u, allowed) ↦ (
      λ h.
          let (body, r, sealed, sent, gone) =
            (contact_endpoint-eq-rejected app w n sub).0 (ground (arith, h, made, allowed)) in
          (sub, body, r, made, allowed, sealed, sent, gone),
      λ (s, body, r, h, _, sealed, sent, gone).
          let same : s ≡ sub = ground (arith, h, made) in
          rw (made, allowed, deliver)
            ((contact_endpoint-eq-rejected app w n sub).1
              (body, r, rw same at sealed, rw same at sent, gone)),
    )
  ]
]

vapid_header_hit :
    (app : WebPushApp) (w : World) (endpoint : Url) (header : String)
    → cached_header app w.now endpoint.origin ≡ some header
    → vapid_header app w endpoint ≡ (header, app)
unfolding vapid_header
vapid_header_hit app w endpoint header found = rw (found, vapid_header) refl

cached_while_valid :
    (app : WebPushApp) (w : World) (endpoint : Url) (t : CachedToken)
    → HashMap.get app.tokens endpoint.origin ≡ some t
    → w.now + vapid_refresh_margin < t.expires
    → cached_header app w.now endpoint.origin ≡ some t.header
unfolding cached_header
cached_while_valid app w endpoint t stored valid = ground (arith, stored, valid)

-- The stored token is the one whose header was used.
header-stored :
    (app : WebPushApp) (w : World) (endpoint : Url) (t : CachedToken)
    → HashMap.get (vapid_header app w endpoint).1.tokens endpoint.origin ≡ some t
    → (vapid_header app w endpoint).0 ≡ t.header
unfolding vapid_header cached_header
header-stored app w endpoint t stored = ground (
  arith,
  stored,
  HashMap.get-insert app.tokens endpoint.origin endpoint.origin (record {
    header = fresh_header app w endpoint.origin;
    expires = w.signed_at + vapid_lifetime;
  }),
  eq_self endpoint.origin,
)

-- The header that a delivery used for an origin is used again for that origin, whatever the outside
-- would answer, while its token is valid for more than the margin.
pub vapid_header-reuse :
    (app : WebPushApp) (w later : World) (endpoint : Url) (t : CachedToken)
    → HashMap.get (vapid_header app w endpoint).1.tokens endpoint.origin ≡ some t
    → later.now + vapid_refresh_margin < t.expires
    → vapid_header (vapid_header app w endpoint).1 later endpoint ≡ vapid_header app w endpoint
vapid_header-reuse app w later endpoint t stored valid =
    let app' = (vapid_header app w endpoint).1 in
    vapid_header_hit app' later endpoint t.header
      (cached_while_valid app' later endpoint t stored valid)
    ∙ ap (λ (h : String). (h, app')) (sym (header-stored app w endpoint t stored))
