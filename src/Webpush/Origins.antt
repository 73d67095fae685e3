-- ===== src/Webpush/Origins.antt =====
-- Where the headers and the requests of src/webpush.rs come from, over any course of events. `Says`
-- is what the outside may answer.
use pincerbell.Base.{
  ◌≡◌, ◌⊎◌, ◌==◌, eq_iff, refl, sym, subst, some, String, ok, Result-cases, Option-cases,
  Bool-cases, inl, inr, arith, string_eq, ◌+◌, [], ap, ◌∙◌,
}
use pincerbell.HashMap
use pincerbell.HashMap.{get-insert}
use pincerbell.Call.{Call}
use pincerbell.Api.{Notification, Device}
use pincerbell.Http.{Outcome, Response}
use pincerbell.Webpush.{Bytes, Url, endpoint_allowed}
use pincerbell.Webpush.Delivery.{
  WebPushApp, World, CachedToken, Request, Subscription, subscription, cached_header, fresh_header,
  request_for, vapid_lifetime,
}
use pincerbell.Webpush.Contact.{message_body, answer-eq-rejected}
use pincerbell.Webpush.Calls.{sign_header, look_up, open_call, proceed}

-- An app without its headers.
abbrev pub bare : WebPushApp → WebPushApp
bare app = record app { tokens = [] }

module _ (Says : World → Type 0) where
  -- The header was signed for the origin, in the app's own name.
  unfoldable pub Issued : WebPushApp → String → String → Type 0
  Issued app origin header = (w : World) × Says w × (fresh_header app w origin ≡ header)

  -- So was each cached header, for the origin that it is kept under.
  unfoldable pub Holds : WebPushApp → Type 0
  unfolding Issued
  Holds app =
      (origin : String) (t : CachedToken)
      → HashMap.get app.tokens origin ≡ some t
      → Issued app origin t.header

  -- The message sealed for the device, whose endpoint passes the gate.
  unfoldable pub Sealed : WebPushApp → Notification → Device → Url → Bytes → Type 0
  Sealed app n device endpoint body =
      (w : World) × (sub : Subscription) × Says w
      × (subscription w device ≡ ok sub)
      × (endpoint_allowed sub.endpoint app.allowed_endpoints ≡ ok tt)
      × (message_body w n sub ≡ ok body)
      × (sub.endpoint ≡ endpoint)

  -- The request for the device, to such an endpoint, with such a body and such a header.
  unfoldable pub Sent : WebPushApp → Notification → Device → Request → Type 0
  unfolding Issued Sealed
  Sent app n device r =
      (endpoint : Url) × (body : Bytes) × (header : String) × Sealed app n device endpoint body
      × Issued app endpoint.origin header
      × (r ≡ request_for n endpoint header body)

  -- The push service said to such a request that the subscription is gone.
  unfoldable pub Gone : WebPushApp → Notification → Device → Type 0
  unfolding Sent
  Gone app n device =
      (w : World) × (r : Request) × (resp : Response) × Says w
      × Sent app n device r
      × (w.send r ≡ ok resp)
      × ((resp.status ≡ 404) ⊎ (resp.status ≡ 410))

  -- A delivery under way.
  unfoldable pub Proper : WebPushApp → Notification → Device → Call (Url × Bytes) Request → Type 0
  unfolding Sealed Sent Gone
  Proper app n device Call.looking = Unit
  Proper app n device (Call.minting (endpoint, body)) = Sealed app n device endpoint body
  Proper app n device (Call.sending r) = Sent app n device r
  Proper app n device (Call.ended outcome) = outcome ≡ Outcome.rejected → Gone app n device

  pub Proper-bare :
      (app app' : WebPushApp) (n : Notification) (device : Device) (c : Call (Url × Bytes) Request)
      → bare app ≡ bare app'
      → Proper app n device c
      → Proper app' n device c
  unfolding Proper fresh_header
  Proper-bare app app' n device Call.looking e h = tt
  Proper-bare app app' n device (Call.minting (endpoint, body)) e h =
      subst (λ x. Sealed x n device endpoint body) e h
  Proper-bare app app' n device (Call.sending r) e h = subst (λ x. Sent x n device r) e h
  Proper-bare app app' n device (Call.ended outcome) e h =
      λ bad. subst (λ x. Gone x n device) e (h bad)

  look_up-Proper :
      (app : WebPushApp) (w : World) (n : Notification) (device : Device) (endpoint : Url)
      (body : Bytes)
      → Holds app
      → Sealed app n device endpoint body
      → Proper app n device (look_up app w n endpoint body)
  unfolding look_up Proper Sent cached_header Holds
  look_up-Proper app w n device endpoint body holds sealed =
      elim (Option-cases (cached_header app w.now endpoint.origin)) [
        | inl missed ↦ rw (missed, look_up) sealed
        | inr (header, found) ↦ elim (Option-cases (HashMap.get app.tokens endpoint.origin)) [
          | inl empty ↦ absurd (ground (arith, found, empty))
          | inr (t, there) ↦
              let same : t.header ≡ header = ground (arith, found, there) in
              rw (found, look_up)
                (
                  endpoint,
                  body,
                  header,
                  sealed,
                  subst (Issued app endpoint.origin) same (holds endpoint.origin t there),
                  refl,
                )
        ]
      ]

  open_call-Proper :
      (app : WebPushApp) (w : World) (n : Notification) (device : Device)
      → Says w
      → Holds app
      → Proper app n device (open_call app w n device)
  unfolding open_call Proper Sealed
  open_call-Proper app w n device says holds = elim (Result-cases (subscription w device)) [
    | inr (e, failed) ↦ rw (failed, open_call) (λ bad. absurd (ground (arith, bad)))
    | inl (sub, made) ↦ elim (Result-cases (endpoint_allowed sub.endpoint app.allowed_endpoints)) [
      | inr (e, refused) ↦ rw (made, refused, open_call) (λ bad. absurd (ground (arith, bad)))
      | inl (u, allowed) ↦ elim (Result-cases (message_body w n sub)) [
        | inr (e, failed) ↦
            rw (made, allowed, failed, open_call) (λ bad. absurd (ground (arith, bad)))
        | inl (body, sealed) ↦
            rw (made, allowed, sealed, open_call)
              (look_up-Proper app w n device sub.endpoint body holds
                (w, sub, says, made, allowed, sealed, refl))
      ]
    ]
  ]

  sign_header-Holds :
      (app : WebPushApp) (w : World) (endpoint : Url)
      → Says w
      → Holds app
      → Holds (sign_header app w endpoint).1
  unfolding sign_header Holds Issued fresh_header
  sign_header-Holds app w endpoint says holds origin t there =
      let c : CachedToken = record {
        header = fresh_header app w endpoint.origin;
        expires = w.signed_at + vapid_lifetime;
      } in
      let stored = get-insert app.tokens endpoint.origin origin c in
      elim (Bool-cases (endpoint.origin == origin)) [
        | inl hit ↦
            let at_origin : endpoint.origin ≡ origin =
              ground (arith, hit, eq_iff endpoint.origin origin) in
            let same : c ≡ t = ground (arith, there, stored, hit) in
            (
              w,
              says,
              ap (fresh_header app w) (sym at_origin) ∙ ap (λ (x : CachedToken). x.header) same,
            )
        | inr miss ↦ holds origin t (ground (arith, there, stored, miss))
      ]

  -- Each part of a delivery keeps to this.
  pub proceed-Proper :
      (app : WebPushApp) (w : World) (n : Notification) (device : Device)
      (c : Call (Url × Bytes) Request)
      → Says w
      → Holds app
      → Proper app n device c
      → Proper app n device (proceed app w n device c).0
        × Holds (proceed app w n device c).1
        × (bare (proceed app w n device c).1 ≡ bare app)
  unfolding proceed Proper Sent Gone sign_header Issued
  proceed-Proper app w n device Call.looking says holds h =
      (open_call-Proper app w n device says holds, holds, refl)
  proceed-Proper app w n device (Call.minting (endpoint, body)) says holds h = (
    (endpoint, body, fresh_header app w endpoint.origin, h, (w, says, refl), refl),
    sign_header-Holds app w endpoint says holds,
    refl,
  )
  proceed-Proper app w n device (Call.sending r) says holds h = (
    λ bad.
        let (resp, sent, gone) = (answer-eq-rejected (w.send r)).0 bad in
        (w, r, resp, says, h, sent, gone),
    holds,
    refl,
  )
  proceed-Proper app w n device (Call.ended outcome) says holds h = (h, holds, refl)
