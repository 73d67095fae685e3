-- ===== src/Apns/Tests.antt =====
-- Deliveries through APNs on concrete inputs.
use pincerbell.Base.{none, some, [], ok, false}
use pincerbell.Api.{Notification, Device}
use pincerbell.Config.{ApnsPushType}
use pincerbell.Http.{Response}
use pincerbell.Apns.{ApnsApp, World}

abbrev pub app : ApnsApp
app = record {
  client = record {
    timeout = some 15_000_000_000;
    proxy = none;
    roots = [];
    accept_invalid_certs = false;
  };
  api_root = "https://api.push.apple.com";
  topic = "org.example";
  team_id = "team";
  key_id = "key";
  default_alert_title = "title";
  sound = none;
  push_type = ApnsPushType.alert;
  token = none;
}

abbrev forbidden : Response
forbidden = record { status = 403; text = ok "ExpiredProviderToken" }

abbrev pub world : World
world = record {
  now = 0;
  unix_now = 1000;
  sign = λ c. ok "jwt";
  signed_at = 3;
  send = λ r. ok forbidden;
}

abbrev device : Device
device = record {
  app_id = "a";
  pushkey = "k";
  pushkey_ts = none;
  pusher_data = none;
  tweaks = none;
}

abbrev notification : Notification
notification = record {
  devices = [];
  content = none;
  counts = none;
  event_id = some "e";
  room_id = none;
  event_type = none;
  sender = none;
  sender_display_name = none;
  room_name = none;
  room_alias = none;
  user_is_target = none;
  prio = none;
}
