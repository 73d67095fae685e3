-- ===== src/Provider/Calls/Progress.antt =====
-- A delivery keeps its kind, and each of its parts gets it on.
use pincerbell.Base.{
  ℕ, ◌-◌, ◌≤◌, ◌≡◌, refl, none, string_eq, arith, Option-cases, Result-cases, inl, inr,
}
use pincerbell.Api.{Notification, Device}
use pincerbell.Call.{Call}
use pincerbell.Fcm
use pincerbell.Fcm.Calls as FcmCalls
use pincerbell.Apns
use pincerbell.Apns.Calls as ApnsCalls
use pincerbell.Webpush.{Bytes, Url, endpoint_allowed}
use pincerbell.Webpush.Contact.{message_body}
use pincerbell.Webpush.Delivery
use pincerbell.Webpush.Calls as WebpushCalls
use pincerbell.Provider.{Provider, Worlds}
use pincerbell.Provider.Calls.{
  Running, on_log, on_fcm, on_apns, on_webpush, begin, outcome_of, outcome_of_call, proceed,
}

-- The kind of a backend, and of a delivery.
pub data Kind : Type 0 where
  logs : Kind
  uses_fcm : Kind
  uses_apns : Kind
  uses_webpush : Kind

unfoldable pub kind : Provider → Kind
kind Provider.log = logs
kind (Provider.fcm app) = uses_fcm
kind (Provider.apns app) = uses_apns
kind (Provider.webpush app) = uses_webpush

unfoldable pub kind_of : Running → Kind
kind_of on_log = logs
kind_of (on_fcm c) = uses_fcm
kind_of (on_apns c) = uses_apns
kind_of (on_webpush c) = uses_webpush

-- How many parts a delivery has left.
unfoldable pub parts_of_call : {M R : Type 0} → Call M R → ℕ
parts_of_call Call.looking = 3
parts_of_call (Call.minting m) = 2
parts_of_call (Call.sending r) = 1
parts_of_call (Call.ended outcome) = 0

unfoldable pub parts_of : Running → ℕ
unfolding parts_of_call
parts_of on_log = 0
parts_of (on_fcm c) = parts_of_call c
parts_of (on_apns c) = parts_of_call c
parts_of (on_webpush c) = parts_of_call c

pub kind-begin : (p : Provider) → kind_of (begin p) ≡ kind p
unfolding kind kind_of begin
kind-begin Provider.log = refl
kind-begin (Provider.fcm app) = refl
kind-begin (Provider.apns app) = refl
kind-begin (Provider.webpush app) = refl

module _ (w : Worlds) (n : Notification) (device : Device) where
  pub kind-proceed :
      (p : Provider) (r : Running)
      → (kind (proceed p w n device r).1 ≡ kind p)
        × (kind_of (proceed p w n device r).0 ≡ kind_of r)
  unfolding kind kind_of proceed
  kind-proceed (Provider.fcm app) (on_fcm c) = (refl, refl)
  kind-proceed (Provider.apns app) (on_apns c) = (refl, refl)
  kind-proceed (Provider.webpush app) (on_webpush c) = (refl, refl)
  kind-proceed p r = (refl, refl)

  parts-fcm :
      (app : Fcm.FcmApp) (c : Call Unit Fcm.Request)
      → parts_of_call (FcmCalls.proceed app w.fcm_world n device c).0 ≤ parts_of_call c - 1
  unfolding parts_of_call FcmCalls.proceed
  parts-fcm app Call.looking = elim (Option-cases (Fcm.cached_bearer app w.fcm_world.now)) [
    | inl missed ↦ ground (arith, missed)
    | inr (bearer, found) ↦ ground (arith, found)
  ]
  parts-fcm app (Call.minting u) = elim (Result-cases (Fcm.fetch_token app w.fcm_world).0) [
    | inl (bearer, got) ↦ ground (arith, got)
    | inr (e, failed) ↦ ground (arith, failed)
  ]
  parts-fcm app (Call.sending r) = omega arith
  parts-fcm app (Call.ended outcome) = omega arith

  parts-apns :
      (app : Apns.ApnsApp) (c : Call Unit Apns.Request)
      → parts_of_call (ApnsCalls.proceed app w.apns_world n device c).0 ≤ parts_of_call c - 1
  unfolding parts_of_call ApnsCalls.proceed
  parts-apns app Call.looking = elim (Option-cases (Apns.cached_bearer app w.apns_world.now)) [
    | inl missed ↦ ground (arith, missed)
    | inr (bearer, found) ↦ ground (arith, found)
  ]
  parts-apns app (Call.minting u) = elim (Result-cases (ApnsCalls.sign_token app w.apns_world).0) [
    | inl (bearer, got) ↦ ground (arith, got)
    | inr (e, failed) ↦ ground (arith, failed)
  ]
  parts-apns app (Call.sending r) = omega arith
  parts-apns app (Call.ended outcome) = omega arith

  parts-look_up :
      (app : Delivery.WebPushApp) (endpoint : Url) (body : Bytes)
      → parts_of_call (WebpushCalls.look_up app w.webpush_world n endpoint body) ≤ 2
  unfolding parts_of_call WebpushCalls.look_up
  parts-look_up app endpoint body =
      elim (Option-cases (Delivery.cached_header app w.webpush_world.now endpoint.origin)) [
        | inl missed ↦ ground (arith, missed)
        | inr (header, found) ↦ ground (arith, found)
      ]

  parts-open_call :
      (app : Delivery.WebPushApp)
      → parts_of_call (WebpushCalls.open_call app w.webpush_world n device) ≤ 2
  unfolding parts_of_call WebpushCalls.open_call
  parts-open_call app = elim (Result-cases (Delivery.subscription w.webpush_world device)) [
    | inr (e, failed) ↦ ground (arith, failed)
    | inl (sub, made) ↦ elim (Result-cases (endpoint_allowed sub.endpoint app.allowed_endpoints)) [
      | inr (e, refused) ↦ ground (arith, made, refused)
      | inl (u, allowed) ↦ elim (Result-cases (message_body w.webpush_world n sub)) [
        | inr (e, failed) ↦ ground (arith, made, allowed, failed)
        | inl (body, sealed) ↦
            ground (arith, made, allowed, sealed, parts-look_up app sub.endpoint body)
      ]
    ]
  ]

  parts-webpush :
      (app : Delivery.WebPushApp) (c : Call (Url × Bytes) Delivery.Request)
      → parts_of_call (WebpushCalls.proceed app w.webpush_world n device c).0 ≤ parts_of_call c - 1
  unfolding parts_of_call WebpushCalls.proceed
  parts-webpush app Call.looking = parts-open_call app
  parts-webpush app (Call.minting (endpoint, body)) = omega arith
  parts-webpush app (Call.sending r) = omega arith
  parts-webpush app (Call.ended outcome) = omega arith

  -- With the backend of its kind, a delivery gets on.
  pub parts-proceed :
      (p : Provider) (r : Running)
      → kind p ≡ kind_of r
      → parts_of (proceed p w n device r).0 ≤ parts_of r - 1
  unfolding kind kind_of proceed parts_of
  parts-proceed (Provider.fcm app) (on_fcm c) e = parts-fcm app c
  parts-proceed (Provider.apns app) (on_apns c) e = parts-apns app c
  parts-proceed (Provider.webpush app) (on_webpush c) e = parts-webpush app c
  parts-proceed Provider.log on_log e = omega arith
  parts-proceed p r e = ground (arith, e)

-- A delivery that has not ended has a part left.
pub parts-eq-none : (r : Running) → outcome_of r ≡ none → 1 ≤ parts_of r
unfolding parts_of parts_of_call outcome_of outcome_of_call
parts-eq-none on_log e = ground (arith, e)
parts-eq-none (on_fcm Call.looking) e = omega arith
parts-eq-none (on_fcm (Call.minting m)) e = omega arith
parts-eq-none (on_fcm (Call.sending r)) e = omega arith
parts-eq-none (on_apns Call.looking) e = omega arith
parts-eq-none (on_apns (Call.minting m)) e = omega arith
parts-eq-none (on_apns (Call.sending r)) e = omega arith
parts-eq-none (on_webpush Call.looking) e = omega arith
parts-eq-none (on_webpush (Call.minting m)) e = omega arith
parts-eq-none (on_webpush (Call.sending r)) e = omega arith
parts-eq-none r e = ground (arith, e)

pub parts-begin-le : (p : Provider) → parts_of (begin p) ≤ 3
unfolding parts_of parts_of_call begin
parts-begin-le Provider.log = omega arith
parts-begin-le (Provider.fcm app) = omega arith
parts-begin-le (Provider.apns app) = omega arith
parts-begin-le (Provider.webpush app) = omega arith
