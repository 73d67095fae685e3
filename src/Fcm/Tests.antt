-- ===== src/Fcm/Tests.antt =====
-- Deliveries through FCM on concrete inputs.
use pincerbell.Base.{◌≡◌, refl, none, some, [], ok, arith, false}
use pincerbell.Api.{Notification, Device}
use pincerbell.Http.{Response}
use pincerbell.Fcm.{
  FcmApp, World, CachedToken, cached_bearer, fetch_token, store_token, claims_at, access_token,
}
use pincerbell.Fcm.Laws.{access_token-reuse}

abbrev pub app : FcmApp
app = record {
  client = record {
    timeout = some 15_000_000_000;
    proxy = none;
    roots = [];
    accept_invalid_certs = false;
  };
  api_root = "https://fcm.googleapis.com";
  project_id = "p";
  account = record {
    project_id = "p";
    private_key = "key";
    client_email = "me";
    token_uri = "https://t";
  };
  token = none;
}

abbrev gone : Response
gone = record { status = 404; text = ok "UNREGISTERED" }

abbrev pub world : World
world = record {
  now = 0;
  unix_now = 1000;
  sign = λ c. ok "assertion";
  post_token = λ u g a.
      ok (record { status = 200; json = ok (record { access_token = "t"; expires_in = 3600 }) });
  token_time = 5;
  send = λ r. ok gone;
}

abbrev device : Device
device = record {
  app_id = "a";
  pushkey = "k";
  pushkey_ts = none;
  pusher_data = none;
  tweaks = none;
}

abbrev notification : Notification
notification = record {
  devices = [];
  content = none;
  counts = none;
  event_id = some "e";
  room_id = none;
  event_type = none;
  sender = none;
  sender_display_name = none;
  room_name = none;
  room_alias = none;
  user_is_target = none;
  prio = none;
}

abbrev token : CachedToken
token = record { bearer = "t"; expires = 3600_000_000_005 }

access_token-reuse_example :
    access_token (access_token app world).1 (record world { now = 7 })
    ≡ (ok "t", (access_token app world).1)
unfolding access_token fetch_token store_token cached_bearer claims_at
access_token-reuse_example =
    access_token-reuse app world (record world { now = 7 }) "t" token refl refl (omega arith)
