-- ===== src/Provider.antt =====
-- src/provider.rs: the configured backends, and the choice of the one that delivers.
pub mod Construction
pub mod Calls
pub mod Origins
use pincerbell.Api.{Notification, Device}
use pincerbell.Http.{Outcome}
use pincerbell.Fcm
use pincerbell.Apns
use pincerbell.Webpush.Delivery

pub data Provider : Type 0 where
  log : Provider
  fcm : Fcm.FcmApp → Provider
  apns : Apns.ApnsApp → Provider
  webpush : Delivery.WebPushApp → Provider

-- What the outside answers to each kind of backend during one delivery.
pub record Worlds : Type 0 where
  pub fcm_world : Fcm.World
  pub apns_world : Apns.World
  pub webpush_world : Delivery.World

-- The outcome, and the backend with its tokens as they are afterwards.
unfoldable pub deliver : Provider → Worlds → Notification → Device → Outcome × Provider
deliver log w n device = (Outcome.delivered, log)
deliver (fcm app) w n device =
    let (outcome, app') = Fcm.deliver app w.fcm_world n device in (outcome, fcm app')
deliver (apns app) w n device =
    let (outcome, app') = Apns.deliver app w.apns_world n device in (outcome, apns app')
deliver (webpush app) w n device =
    let (outcome, app') = Delivery.deliver app w.webpush_world n device in (outcome, webpush app')
