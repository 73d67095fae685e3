-- ===== src/Gateway/Sample.antt =====
-- A concrete gateway for tests.
use pincerbell.Base.{ℕ, Bool, true, false, none, some, List, [], ◌∷◌, String}
use Prim.Native.String.{len}
use pincerbell.Config.{Config}
use pincerbell.Api.{Notification, Device}
use pincerbell.Dedup
use pincerbell.Queue
use pincerbell.QueueSide.{QueueState}
use pincerbell.Gateway.{AppState}

-- A stand-in for the digest.
abbrev pub digest : String → List ℕ
digest s = len s ∷ []

abbrev pub config : Config
config = record {
  listen = "127.0.0.1:8300";
  dedup_ttl_secs = 300;
  dedup_max_entries = 16;
  reject_unknown_apps = true;
  proxy = none;
  tls_ca_file = none;
  tls_accept_invalid_certs = false;
  apps = [];
  queue = none;
  poll = [];
}

abbrev pub queue_state : QueueState
queue_state = record {
  queue = Queue.new 4 3600 60;
  token_hash = digest "secret";
  rejected = Dedup.new 600 16;
}

-- The backend of "known" stands for itself.
abbrev pub state : AppState Bool
state = record {
  config = config;
  providers = ("known", true) ∷ [];
  dedup = Dedup.new 300 16;
  queue = some queue_state;
}

abbrev pub phone : Device
phone = record {
  app_id = "known";
  pushkey = "k1";
  pushkey_ts = none;
  pusher_data = none;
  tweaks = none;
}

abbrev pub other : Device
other = record {
  app_id = "other";
  pushkey = "k2";
  pushkey_ts = none;
  pusher_data = none;
  tweaks = none;
}

abbrev pub notification : Notification
notification = record {
  devices = phone ∷ other ∷ [];
  content = none;
  counts = none;
  event_id = some "e";
  room_id = none;
  event_type = none;
  sender = none;
  sender_display_name = none;
  room_name = none;
  room_alias = none;
  user_is_target = none;
  prio = none;
}
