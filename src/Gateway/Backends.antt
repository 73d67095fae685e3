-- ===== src/Gateway/Backends.antt =====
-- src/gateway.rs with the backends of src/provider.rs: `deliver_one` with `Provider.deliver`, whose
-- cached tokens are part of the state, and when a pushkey is rejected.
use pincerbell.Base.{
  ◌≡◌, ◌↔◌, ◌⊎◌, ◌∙◌, refl, ap, sym, true, false, none, some, String, string_eq, ok, arith,
}
use pincerbell.Time.{Instant}
use pincerbell.HashMap
use pincerbell.Api.{Notification, Device}
use pincerbell.Http.{Outcome, Response, body_of, contains}
use pincerbell.Fcm
use pincerbell.Fcm.Laws.{deliver-eq-rejected_fcm}
use pincerbell.Apns
use pincerbell.Apns.Laws.{deliver-eq-rejected_apns}
use pincerbell.Webpush.{Bytes, endpoint_allowed}
use pincerbell.Webpush.Delivery as Webpush
use pincerbell.Webpush.Contact.{message_body, deliver-eq-rejected_webpush}
use pincerbell.Provider
use pincerbell.Provider.{Provider, Worlds}
use pincerbell.QueueSide.{QueueState, is_rejected}
use pincerbell.Gateway.{AppState, Disposition, Stage, is_suppressed, start, finish, deliver_one}
use pincerbell.Gateway.Rejections.{Grounds, unknown, reported, refused, deliver_one-eq-reject}

-- The outcome of a backend, without its tokens.
abbrev pub outcome_in : Worlds → Provider → Notification → Device → Outcome
outcome_in w p n device = (Provider.deliver p w n device).0

-- From a stage on, with nothing else going on.
unfoldable pub deliver_from :
    Worlds
    → Instant
    → Notification
    → Device
    → AppState Provider
    → Stage Provider
    → AppState Provider × Disposition
unfolding finish Provider.deliver
deliver_from w later n device st (Stage.settled d) = (st, d)
deliver_from w later n device st (Stage.calling p) =
    let (outcome, p') = Provider.deliver p w n device in
    let st' = record st { providers = HashMap.insert st.providers device.app_id p' } in
    finish st' later n device outcome

unfoldable pub deliver_with :
    AppState Provider
    → Instant
    → Instant
    → Worlds
    → Notification
    → Device
    → AppState Provider × Disposition
unfolding start deliver_from
deliver_with st now later w n device =
    let (st', stage) = start st now n device in deliver_from w later n device st' stage

-- What a push service answered when a backend rejects a pushkey.
pub Refuses : Provider → Worlds → Notification → Device → Type 0
Refuses Provider.log w n device = ⊥
Refuses (Provider.fcm app) w n device =
    (bearer : String) × (r : Response) × ((Fcm.access_token app w.fcm_world).0 ≡ ok bearer)
    × (w.fcm_world.send (Fcm.request_for app bearer n device) ≡ ok r)
    × (r.status ≡ 404)
    × (contains (body_of r) "UNREGISTERED" ≡ true)
Refuses (Provider.apns app) w n device =
    (bearer : String) × (r : Response) × ((Apns.bearer_token app w.apns_world).0 ≡ ok bearer)
    × (w.apns_world.send (Apns.request_for app bearer n device) ≡ ok r)
    × (r.status ≡ 410)
    × (contains (body_of r) "Unregistered" ≡ true)
Refuses (Provider.webpush app) w n device =
    (sub : Webpush.Subscription) × (body : Bytes) × (r : Response) × (Webpush.subscription
        w.webpush_world device
      ≡ ok sub)
    × (endpoint_allowed sub.endpoint app.allowed_endpoints ≡ ok tt)
    × (message_body w.webpush_world n sub ≡ ok body)
    × (w.webpush_world.send (
          Webpush.request_for n sub.endpoint
            (Webpush.vapid_header app w.webpush_world sub.endpoint).0 body)
        ≡ ok r)
    × ((r.status ≡ 404) ⊎ (r.status ≡ 410))

deliver-Refuses :
    (p : Provider) (w : Worlds) (n : Notification) (device : Device)
    → (outcome_in w p n device ≡ Outcome.rejected) ↔ Refuses p w n device
unfolding Refuses Provider.deliver
deliver-Refuses Provider.log w n device = (λ h. ground (arith, h), λ h. absurd h)
deliver-Refuses (Provider.fcm app) w n device = deliver-eq-rejected_fcm app w.fcm_world n device
deliver-Refuses (Provider.apns app) w n device = deliver-eq-rejected_apns app w.apns_world n device
deliver-Refuses (Provider.webpush app) w n device =
    deliver-eq-rejected_webpush app w.webpush_world n device

pub finish-providers :
    (st : AppState Provider) (m : HashMap.HashMap String Provider) (later : Instant)
    (n : Notification) (device : Device) (answer : Outcome)
    → finish (record st { providers = m }) later n device answer ≡ (
      record (finish st later n device answer).0 { providers = m },
      (finish st later n device answer).1,
    )
unfolding finish
finish-providers st m later n device Outcome.delivered = refl
finish-providers st m later n device Outcome.rejected = refl
finish-providers st m later n device Outcome.skipped = refl
finish-providers st m later n device (Outcome.transient e) = refl

-- The same, with a backend that is its outcome.
outcome_from :
    Worlds
    → Instant
    → Notification
    → Device
    → AppState Provider
    → Stage Provider
    → AppState Provider × Disposition
outcome_from w later n device st (Stage.settled d) = (st, d)
outcome_from w later n device st (Stage.calling p) =
    finish st later n device (outcome_in w p n device)

deliver_from-outcome :
    (w : Worlds) (later : Instant) (n : Notification) (device : Device) (st : AppState Provider)
    (stage : Stage Provider)
    → (deliver_from w later n device st stage).1 ≡ (outcome_from w later n device st stage).1
unfolding deliver_from outcome_from
deliver_from-outcome w later n device st (Stage.settled d) = refl
deliver_from-outcome w later n device st (Stage.calling p) =
    let (outcome, p') = Provider.deliver p w n device in
    ap (λ x. x.1)
      (finish-providers st (HashMap.insert st.providers device.app_id p') later n device outcome)

-- The tokens apart, a backend is asked for nothing but its outcome.
deliver_with-outcome :
    (st : AppState Provider) (now later : Instant) (w : Worlds) (n : Notification) (device : Device)
    → (deliver_with st now later w n device).1
      ≡ (deliver_one (outcome_in w) st now later n device).1
unfolding deliver_with deliver_one outcome_from
deliver_with-outcome st now later w n device =
    deliver_from-outcome w later n device (start st now n device).0 (start st now n device).1

-- Why a pushkey is rejected by the gateway with its backends.
pub data Causes (w : Worlds) (st : AppState Provider) (now : Instant) (n : Notification)
    (device : Device) : Type 0 where
  unknown_app :
      HashMap.get st.providers device.app_id ≡ none
      → st.queue ≡ none
      → st.config.reject_unknown_apps ≡ true
      → Causes w st now n device
  reported_key :
      (q : QueueState)
      → HashMap.get st.providers device.app_id ≡ none
      → st.queue ≡ some q
      → is_rejected q now device.app_id device.pushkey ≡ true
      → Causes w st now n device
  refused_key :
      (p : Provider)
      → HashMap.get st.providers device.app_id ≡ some p
      → is_suppressed st.dedup now n.event_id device ≡ false
      → Refuses p w n device
      → Causes w st now n device

Causes-Grounds :
    (w : Worlds) (st : AppState Provider) (now : Instant) (n : Notification) (device : Device)
    → Grounds (outcome_in w) st now n device ↔ Causes w st now n device
Causes-Grounds w st now n device = (forth, back)
  where
    forth : Grounds (outcome_in w) st now n device → Causes w st now n device
    forth (unknown absent unqueued strict) = unknown_app absent unqueued strict
    forth (reported q absent queued bad) = reported_key q absent queued bad
    forth (refused p there fresh no_use) =
        refused_key p there fresh ((deliver-Refuses p w n device).0 no_use)

    back : Causes w st now n device → Grounds (outcome_in w) st now n device
    back (unknown_app absent unqueued strict) = unknown absent unqueued strict
    back (reported_key q absent queued bad) = reported q absent queued bad
    back (refused_key p there fresh no_use) =
        refused p there fresh ((deliver-Refuses p w n device).1 no_use)

-- With its backends the gateway rejects a pushkey exactly in these cases, and then that of the device
-- itself: no backend and no queue is configured for the app, and unknown apps are to be rejected; no
-- backend is configured, and the poll side reported the pushkey within the record's `ttl`; or the
-- event is not suppressed, and the push service of the app's backend says that the pushkey is no
-- longer in use: FCM by a 404 that names UNREGISTERED, APNs by a 410 that names Unregistered, Web
-- Push by a 404 or 410 of an endpoint that passes the gate.
pub deliver_with-eq-reject :
    (st : AppState Provider) (now later : Instant) (w : Worlds) (n : Notification) (device : Device)
    (k : String)
    → ((deliver_with st now later w n device).1 ≡ Disposition.reject k)
      ↔ (Causes w st now n device × (k ≡ device.pushkey))
deliver_with-eq-reject st now later w n device k =
    let same = deliver_with-outcome st now later w n device in
    let r = deliver_one-eq-reject (outcome_in w) st now later n device k in
    let c = Causes-Grounds w st now n device in
    (λ h. let (g, key) = r.0 (sym same ∙ h) in (c.0 g, key), λ (g, key). same ∙ r.1 (c.1 g, key))
