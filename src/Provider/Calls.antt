-- ===== src/Provider/Calls.antt =====
-- A delivery under way through one of the backends.
pub mod Progress
use pincerbell.Base.{Option, none, some}
use pincerbell.Call.{Call}
use pincerbell.Api.{Notification, Device}
use pincerbell.Http.{Outcome}
use pincerbell.Webpush.{Bytes, Url}
use pincerbell.Fcm
use pincerbell.Fcm.Calls as FcmCalls
use pincerbell.Apns
use pincerbell.Apns.Calls as ApnsCalls
use pincerbell.Webpush.Delivery
use pincerbell.Webpush.Calls as WebpushCalls
use pincerbell.Provider.{Provider, Worlds}

pub data Running : Type 0 where
  on_log : Running
  on_fcm : Call Unit Fcm.Request → Running
  on_apns : Call Unit Apns.Request → Running
  on_webpush : Call (Url × Bytes) Delivery.Request → Running

unfoldable pub begin : Provider → Running
begin Provider.log = on_log
begin (Provider.fcm app) = on_fcm Call.looking
begin (Provider.apns app) = on_apns Call.looking
begin (Provider.webpush app) = on_webpush Call.looking

unfoldable pub outcome_of_call : {M R : Type 0} → Call M R → Option Outcome
outcome_of_call Call.looking = none
outcome_of_call (Call.minting m) = none
outcome_of_call (Call.sending r) = none
outcome_of_call (Call.ended outcome) = some outcome

unfoldable pub outcome_of : Running → Option Outcome
unfolding outcome_of_call
outcome_of on_log = some Outcome.delivered
outcome_of (on_fcm c) = outcome_of_call c
outcome_of (on_apns c) = outcome_of_call c
outcome_of (on_webpush c) = outcome_of_call c

-- The next part of a delivery. It keeps to the backend it began with, so that it meets no other.
unfoldable pub proceed : Provider → Worlds → Notification → Device → Running → Running × Provider
unfolding FcmCalls.proceed ApnsCalls.proceed WebpushCalls.proceed
proceed (Provider.fcm app) w n device (on_fcm c) =
    let (c', app') = FcmCalls.proceed app w.fcm_world n device c in (on_fcm c', Provider.fcm app')
proceed (Provider.apns app) w n device (on_apns c) =
    let (c', app') = ApnsCalls.proceed app w.apns_world n device c in
    (on_apns c', Provider.apns app')
proceed (Provider.webpush app) w n device (on_webpush c) =
    let (c', app') = WebpushCalls.proceed app w.webpush_world n device c in
    (on_webpush c', Provider.webpush app')
proceed p w n device r = (r, p)
