-- ===== src/Relay/Tests.antt =====
-- The relay on a concrete notification.
use pincerbell.Base.{
  ℕ, ◌+◌, ◌≡◌, ◌↔◌, String, Option, true, Bool, refl, false, none, some, [], ◌∷◌, ok, arith,
  if◌then◌else◌,
}
use pincerbell.Json
use pincerbell.Json.{Value, str, arr, obj, nil, cons, Fields}
use pincerbell.Api.{Notification, Device, device_value, notification_fields, to_value}
use pincerbell.Api.Read.{read_notification}
use pincerbell.Api.ReadBack.{Within}
use pincerbell.Api.RoundTrip.{IsNotification}
use pincerbell.Queue.{payload_for}
use pincerbell.Queue.Wire.{PollEntry}
use pincerbell.Gateway.{Disposition}
use pincerbell.Poller.{empty_ack, handle_entry, note, push_acked}
use pincerbell.Config.{upstream_http_options}
use pincerbell.QueueSide
use pincerbell.QueueSide.{QueueState}
use pincerbell.Text.{trim, visible_ascii, trim_end_slashes}
use pincerbell.HttpClient.{http_client}
use pincerbell.Dedup
use pincerbell.Queue
use pincerbell.Environment.Sample.{environment, queue_config, upstream, options, config}
use pincerbell.Poller.Upstreams.{Upstream, load, poll_request, ack_request}
use pincerbell.Gateway.{AppState}
use pincerbell.Gateway.QueueApi.{queue_auth}
use pincerbell.Queue.{take_at}
use pincerbell.Queue.Tests as QueueTests
use pincerbell.Queue.Take.{batch_of}
use pincerbell.Poller.Batches.{Acks}
use pincerbell.Relay.Cycle.{settled_ids, Fared, poll_once-Fared}
use pincerbell.Relay.Access.{queue_auth-load}
use pincerbell.Relay.{single, alone, handle_entry-payload_for}

abbrev phone : Device
phone = record {
  app_id = "app";
  pushkey = "k1";
  pushkey_ts = none;
  pusher_data = none;
  tweaks = none;
}

abbrev tablet : Device
tablet = record phone { pushkey = "k2" }

abbrev message : Notification
message = record {
  devices = phone ∷ tablet ∷ [];
  content = some (str "secret");
  counts = some (record { unread = some 2; missed_calls = none });
  event_id = some "$e";
  room_id = none;
  event_type = none;
  sender = none;
  sender_display_name = none;
  room_name = none;
  room_alias = none;
  user_is_target = none;
  prio = none;
}

alone-IsNotification : IsNotification (alone message tablet)
unfolding Within
alone-IsNotification = record {
  devices_valid = (record { ts_range = tt; data_valid = tt }, tt);
  counts_valid = record { unread_range = omega arith; missed_range = tt };
}

abbrev entry : PollEntry
entry = record {
  id = 7;
  notification =
      Json.set (obj (notification_fields message)) "devices" (arr (cons (device_value tablet) nil));
}

-- The deliveries are counted, and each rejects its pushkey.
abbrev one : ℕ → Notification → Device → ℕ × Disposition
one s n device = (s + 1, Disposition.reject device.pushkey)

stored : payload_for message tablet ≡ ok entry.notification
unfolding payload_for to_value
stored = refl

handle_entry-payload_for_example : handle_entry read_notification one entry 0 empty_ack ≡ (
    let (s', d) = one 0 (single message tablet) tablet in
    let (a', transient) = note tablet d empty_ack false in
    (s', if transient then a' else push_acked a' 7))
handle_entry-payload_for_example =
    handle_entry-payload_for one message tablet entry 0 empty_ack alone-IsNotification stored

abbrev built : QueueState
built = record {
  queue = Queue.new 4 3600_000_000_000 60_000_000_000;
  token_hash = 6 ∷ [];
  rejected = Dedup.new 600_000_000_000 65536;
}

built_so : QueueSide.new environment queue_config ≡ ok built
unfolding QueueSide.new trim
built_so = refl

-- The empty proxy of the upstream's own opts out.
abbrev loaded : Upstream
loaded = record {
  url = "https://push.example.test";
  token = "secret";
  timeout_secs = 30;
  max_batch = 100;
  client = record {
    timeout = none;
    proxy = none;
    roots = (1 ∷ []) ∷ [];
    accept_invalid_certs = false;
  };
}

loaded_so : load environment upstream options ≡ ok loaded
unfolding load trim trim_end_slashes http_client upstream_http_options
loaded_so = refl

abbrev state : AppState Bool
state = record { config = config; providers = []; dedup = Dedup.new 300 16; queue = some built }

abbrev to_str : String → Option String
to_str s = if visible_ascii s then some s else none

queue_auth-load_example :
    ((queue_auth environment.sha256 state (to_str (poll_request loaded).authorization) ≡ ok built)
      ↔ (visible_ascii (trim " secret ") ≡ true))
    × ((queue_auth environment.sha256 state (to_str (ack_request loaded empty_ack).authorization)
          ≡ ok built)
        ↔ (visible_ascii (trim " secret ") ≡ true))
queue_auth-load_example =
    queue_auth-load environment environment queue_config upstream options built built loaded
      " secret " " secret " state empty_ack to_str (λ s v. rw (v, to_str) refl)
      (λ s v. rw (v, to_str) refl) built_so loaded_so refl refl refl refl refl

poll_once-Fared_example :
    Acks read_notification one 0
      (batch_of (take_at QueueTests.two_entries 5 10))
      (settled_ids read_notification one (λ a. ok 200) QueueTests.two_entries 5 10 0)
    × Fared read_notification one (λ a. ok 200) QueueTests.two_entries 5 10 0 QueueTests.broken
poll_once-Fared_example =
    poll_once-Fared read_notification one (λ a. ok 200) QueueTests.two_entries 5 10 0
      QueueTests.broken QueueTests.two_entries-IsValid QueueTests.handed
