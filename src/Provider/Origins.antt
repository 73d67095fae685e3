-- ===== src/Provider/Origins.antt =====
-- Where the credentials and the requests of the backends come from, over any course of events.
-- `Says` is what the outside may answer.
use pincerbell.Base.{◌≡◌, refl, ap, some, arith}
use pincerbell.Call.{Call}
use pincerbell.Api.{Notification, Device}
use pincerbell.Http.{Outcome}
use pincerbell.Fcm
use pincerbell.Fcm.Origins as FcmOrigins
use pincerbell.Apns
use pincerbell.Apns.Origins as ApnsOrigins
use pincerbell.Webpush.Delivery
use pincerbell.Webpush.Origins as WebpushOrigins
use pincerbell.Provider.{Provider, Worlds}
use pincerbell.Provider.Calls.{
  Running, on_log, on_fcm, on_apns, on_webpush, begin, outcome_of, outcome_of_call, proceed,
}

-- A backend without its tokens.
unfoldable pub bare : Provider → Provider
bare Provider.log = Provider.log
bare (Provider.fcm app) = Provider.fcm (FcmOrigins.bare app)
bare (Provider.apns app) = Provider.apns (ApnsOrigins.bare app)
bare (Provider.webpush app) = Provider.webpush (WebpushOrigins.bare app)

module _ (Says : Worlds → Type 0) where
  -- What the outside says to each kind of backend.
  abbrev pub SaysFcm : Fcm.World → Type 0
  SaysFcm v = (w : Worlds) × Says w × (w.fcm_world ≡ v)

  abbrev pub SaysApns : Apns.World → Type 0
  SaysApns v = (w : Worlds) × Says w × (w.apns_world ≡ v)

  abbrev pub SaysWebpush : Delivery.World → Type 0
  SaysWebpush v = (w : Worlds) × Says w × (w.webpush_world ≡ v)

  unfoldable pub Holds : Provider → Type 0
  unfolding FcmOrigins.Holds ApnsOrigins.Holds WebpushOrigins.Holds
  Holds Provider.log = Unit
  Holds (Provider.fcm app) = FcmOrigins.Holds SaysFcm app
  Holds (Provider.apns app) = ApnsOrigins.Holds SaysApns app
  Holds (Provider.webpush app) = WebpushOrigins.Holds SaysWebpush app

  -- The push service of the backend said that the device is gone.
  unfoldable pub Gone : Provider → Notification → Device → Type 0
  unfolding FcmOrigins.Gone ApnsOrigins.Gone WebpushOrigins.Gone
  Gone Provider.log n device = ⊥
  Gone (Provider.fcm app) n device = FcmOrigins.Gone SaysFcm app n device
  Gone (Provider.apns app) n device = ApnsOrigins.Gone SaysApns app n device
  Gone (Provider.webpush app) n device = WebpushOrigins.Gone SaysWebpush app n device

  -- A delivery under way through the backend: it keeps to the backend's kind, and what it sends
  -- is the backend's own request for the device.
  unfoldable pub Proper : Provider → Notification → Device → Running → Type 0
  unfolding FcmOrigins.Proper ApnsOrigins.Proper WebpushOrigins.Proper
  Proper Provider.log n device on_log = Unit
  Proper (Provider.fcm app) n device (on_fcm c) = FcmOrigins.Proper SaysFcm app n device c
  Proper (Provider.apns app) n device (on_apns c) = ApnsOrigins.Proper SaysApns app n device c
  Proper (Provider.webpush app) n device (on_webpush c) =
      WebpushOrigins.Proper SaysWebpush app n device c
  Proper p n device r = ⊥

  pub begin-Proper :
      (p : Provider) (n : Notification) (device : Device) → Proper p n device (begin p)
  unfolding begin Proper
  begin-Proper Provider.log n device = tt
  begin-Proper (Provider.fcm app) n device = tt
  begin-Proper (Provider.apns app) n device = tt
  begin-Proper (Provider.webpush app) n device = tt

  pub Proper-bare :
      (p p' : Provider) (n : Notification) (device : Device) (r : Running)
      → bare p ≡ bare p'
      → Proper p n device r
      → Proper p' n device r
  unfolding bare Proper
  Proper-bare Provider.log Provider.log n device on_log e h = tt
  Proper-bare (Provider.fcm app) (Provider.fcm app') n device (on_fcm c) e h =
      FcmOrigins.Proper-bare SaysFcm app app' n device c (ground (arith, e)) h
  Proper-bare (Provider.apns app) (Provider.apns app') n device (on_apns c) e h =
      ApnsOrigins.Proper-bare SaysApns app app' n device c (ground (arith, e)) h
  Proper-bare (Provider.webpush app) (Provider.webpush app') n device (on_webpush c) e h =
      WebpushOrigins.Proper-bare SaysWebpush app app' n device c (ground (arith, e)) h
  Proper-bare p p' n device r e h = ground arith

  -- Each part of a delivery keeps to this.
  pub proceed-Proper :
      (p : Provider) (w : Worlds) (n : Notification) (device : Device) (r : Running)
      → Says w
      → Holds p
      → Proper p n device r
      → Proper p n device (proceed p w n device r).0
        × Holds (proceed p w n device r).1
        × (bare (proceed p w n device r).1 ≡ bare p)
  unfolding proceed Proper Holds bare
  proceed-Proper Provider.log w n device on_log says holds h = (tt, tt, refl)
  proceed-Proper (Provider.fcm app) w n device (on_fcm c) says holds h =
      let (proper, held, same) =
        FcmOrigins.proceed-Proper SaysFcm app w.fcm_world n device c (w, says, refl) holds h in
      (proper, held, ap Provider.fcm same)
  proceed-Proper (Provider.apns app) w n device (on_apns c) says holds h =
      let (proper, held, same) =
        ApnsOrigins.proceed-Proper SaysApns app w.apns_world n device c (w, says, refl) holds h in
      (proper, held, ap Provider.apns same)
  proceed-Proper (Provider.webpush app) w n device (on_webpush c) says holds h =
      let (proper, held, same) =
        WebpushOrigins.proceed-Proper SaysWebpush app w.webpush_world n device c (w, says, refl)
          holds h in
      (proper, held, ap Provider.webpush same)
  proceed-Proper p w n device r says holds h = ground arith

  pub rejected-Gone :
      (p : Provider) (n : Notification) (device : Device) (r : Running)
      → Proper p n device r
      → outcome_of r ≡ some Outcome.rejected
      → Gone p n device
  unfolding Proper outcome_of outcome_of_call Gone
  rejected-Gone Provider.log n device on_log h bad = ground (arith, bad)
  rejected-Gone (Provider.fcm app) n device (on_fcm (Call.ended o)) h bad = h (ground (arith, bad))
  rejected-Gone (Provider.apns app) n device (on_apns (Call.ended o)) h bad =
      h (ground (arith, bad))
  rejected-Gone (Provider.webpush app) n device (on_webpush (Call.ended o)) h bad =
      h (ground (arith, bad))
  rejected-Gone p n device r h bad = ground (arith, bad)
