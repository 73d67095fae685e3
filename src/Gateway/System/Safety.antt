-- ===== src/Gateway/System/Safety.antt =====
-- What the gateway sends, keeps and rejects, whatever goes on.
use pincerbell.Base.{
  ℕ, ◌≡◌, subst, none, some, List, [], ◌∷◌, String, ok, arith, string_eq, All, ◌↔◌, ◌∙◌,
}
use pincerbell.HashMap
use pincerbell.HashMap.{Distinct}
use pincerbell.Api.{Notification, Device}
use pincerbell.Call.{Call}
use pincerbell.Config.{Config}
use pincerbell.Environment.{Environment}
use pincerbell.Dedup.{key_eq}
use pincerbell.Fcm
use pincerbell.Fcm.Origins as FcmOrigins
use pincerbell.Apns
use pincerbell.Apns.Origins as ApnsOrigins
use pincerbell.Webpush.Delivery
use pincerbell.Webpush.Origins as WebpushOrigins
use pincerbell.Provider.{Provider, Worlds}
use pincerbell.Provider.Calls.{Running, on_fcm, on_apns, on_webpush}
use pincerbell.Provider.Origins.{SaysFcm, SaysApns, SaysWebpush, Proper}
use pincerbell.Gateway.{AppState, Disposition, Stage}
use pincerbell.Gateway.Construction.{new}
use pincerbell.Gateway.Constructed.{new-Built}
use pincerbell.Gateway.Notify.{Task}
use pincerbell.Gateway.System.{idle, System, Reach}
use pincerbell.Gateway.System.Tidy.{Kept, Why, Justified, TaskOk}
use pincerbell.Gateway.System.Built.{Tidy-new}
use pincerbell.Gateway.System.Origins.{RequestOk, Reach-AllTidy}

module _ (Says : Worlds → Type 0) (Reports : String → String → Type 0)
    (first : AppState Provider) where
  -- The task rejects a pushkey only if there is a reason, and then that of its device.
  abbrev pub Accounted : Notification → Task Running → Type 0
  Accounted n (device, s) =
      (key : String)
      → s ≡ some (Stage.settled (Disposition.reject key))
      → (key ≡ device.pushkey) × Why Says Reports first n device

  TaskOk-Accounted :
      (n : Notification) (t : Task Running) → TaskOk Says Reports first n t → Accounted n t
  TaskOk-Accounted n (device, none) h key e = absurd (ground (arith, e))
  TaskOk-Accounted n (device, some (Stage.calling r)) h key e = absurd (ground (arith, e))
  TaskOk-Accounted n (device, some (Stage.settled d)) h key e =
      let same : d ≡ Disposition.reject key = ground (arith, e) in
      subst (Justified Says Reports first n device) same h

  -- What the task sends: the request of the backend that was configured for the device's app, with
  -- that app's own credential.
  abbrev pub SendsOwn : Notification → Task Running → Type 0
  SendsOwn n (device, some (Stage.calling (on_fcm (Call.sending r)))) =
      (app : Fcm.FcmApp) × (HashMap.get first.providers device.app_id ≡ some (Provider.fcm app))
      × FcmOrigins.Sent (SaysFcm Says) app n device r
  SendsOwn n (device, some (Stage.calling (on_apns (Call.sending r)))) =
      (app : Apns.ApnsApp) × (HashMap.get first.providers device.app_id ≡ some (Provider.apns app))
      × ApnsOrigins.Sent (SaysApns Says) app n device r
  SendsOwn n (device, some (Stage.calling (on_webpush (Call.sending r)))) =
      (app : Delivery.WebPushApp) × (HashMap.get first.providers device.app_id
        ≡ some (Provider.webpush app))
      × WebpushOrigins.Sent (SaysWebpush Says) app n device r
  SendsOwn n t = Unit

  Proper-SendsOwn :
      (n : Notification) (device : Device) (p : Provider) (r : Running)
      → HashMap.get first.providers device.app_id ≡ some p
      → Proper Says p n device r
      → SendsOwn n (device, some (Stage.calling r))
  unfolding Proper FcmOrigins.Proper ApnsOrigins.Proper WebpushOrigins.Proper
  Proper-SendsOwn n device (Provider.fcm app) (on_fcm (Call.sending r)) there h = (app, there, h)
  Proper-SendsOwn n device (Provider.apns app) (on_apns (Call.sending r)) there h = (app, there, h)
  Proper-SendsOwn n device (Provider.webpush app) (on_webpush (Call.sending r)) there h =
      (app, there, h)
  Proper-SendsOwn n device p r there h = ground arith

  TaskOk-SendsOwn :
      (n : Notification) (t : Task Running) → TaskOk Says Reports first n t → SendsOwn n t
  TaskOk-SendsOwn n (device, none) h = tt
  TaskOk-SendsOwn n (device, some (Stage.calling r)) (p, there, proper) =
      Proper-SendsOwn n device p r there proper
  TaskOk-SendsOwn n (device, some (Stage.settled d)) h = tt

-- What holds of every item.
map-All {ℓ κ μ} :
    {A : Type ℓ} (P : A → Type κ) (Q : A → Type μ) (xs : List A)
    → ((x : A) → P x → Q x)
    → All P xs
    → All Q xs
map-All P Q [] f h = tt
map-All P Q (x ∷ xs) f h = (f x h.0, map-All P Q xs f h.1)

module _ (sha256 : String → List ℕ) (Says : Worlds → Type 0) (Reports : String → String → Type 0)
    (env : Environment) (config : Config) (first : AppState Provider) where
  -- For a gateway that was built from a configuration, whose apps have each key once, whatever goes
  -- on: a device is settled with a rejection only of its own pushkey, and only if the app has no
  -- backend, there is no queue and unknown apps are to be rejected; or the app has no backend,
  -- there is a queue, and an authorized poll side reported the pushkey for the app; or the push
  -- service of the app's backend said that the device is gone, to the backend's own request for it.
  pub Reach-Accounted :
      {k : ℕ} {s : System}
      → Distinct config.apps
      → new env config ≡ ok first
      → Reach sha256 Says Reports (idle first) k s
      → All (λ r. All (Accounted Says Reports first r.notification) r.tasks) s.requests
  Reach-Accounted {s = s} d made r =
      let v =
        Reach-AllTidy Says Reports first sha256 (Tidy-new Says Reports env config first d made) r in
      map-All (RequestOk Says Reports first) _ s.requests
        (λ x h. map-All _ _ x.tasks (λ t. TaskOk-Accounted Says Reports first x.notification t) h)
        v.tasks

  -- For a gateway that was built from a configuration, whose apps have each key once, whatever goes
  -- on, also where the deliveries of several requests share a token: what a delivery sends is the
  -- request for its own device, of the backend that was built for the device's app. Its credential
  -- is the app's own: FCM's token endpoint gave it out for the app's service account, it was signed
  -- for the app's APNs team and key, or it was signed for the origin of the Web Push endpoint, which
  -- passes the gate.
  pub Reach-SendsOwn :
      {k : ℕ} {s : System}
      → Distinct config.apps
      → new env config ≡ ok first
      → Reach sha256 Says Reports (idle first) k s
      → All (λ r. All (SendsOwn Says Reports first r.notification) r.tasks) s.requests
  Reach-SendsOwn {s = s} d made r =
      let v =
        Reach-AllTidy Says Reports first sha256 (Tidy-new Says Reports env config first d made) r in
      map-All (RequestOk Says Reports first) _ s.requests
        (λ x h. map-All _ _ x.tasks (λ t. TaskOk-SendsOwn Says Reports first x.notification t) h)
        v.tasks

  -- For a gateway that was built from a configuration, whose apps have each key once, whatever goes
  -- on: the configuration stays, queue mode stays on or off, and exactly the apps that had a
  -- backend have one, which is the one that was built but for its tokens, and these are the app's
  -- own.
  pub Reach-Kept :
      {k : ℕ} {s : System}
      → Distinct config.apps
      → new env config ≡ ok first
      → Reach sha256 Says Reports (idle first) k s
      → (s.gateway.config ≡ config)
        × ((s.gateway.queue ≡ none) ↔ (first.queue ≡ none))
        × ((app_id : String)
            → Kept Says Reports first
                (HashMap.get first.providers app_id)
                (HashMap.get s.gateway.providers app_id))
  Reach-Kept d made r =
      let v =
        Reach-AllTidy Says Reports first sha256 (Tidy-new Says Reports env config first d made) r in
      let (same, _, _) = new-Built env config first d made in
      (v.state.config_kept ∙ same, v.state.queue_kept, v.state.providers_kept)
