-- ===== src/Api/Tests.antt =====
-- The wire types on concrete inputs.
use pincerbell.Base.{◌≡◌, refl, false, none, some, [], ◌∷◌, ok, err, ◌>>=◌, arith}
use pincerbell.Json
use pincerbell.Json.{pos, Value, null, bool, num, str, arr, obj, nil, cons, Fields, end, field}
use pincerbell.Api.{Prio, Notification, Device, to_value}
use pincerbell.Api.Objects.{IsMap}
use pincerbell.Api.ReadBack.{Within, IsI64}
use pincerbell.Api.Read.{
  read_request, read_notification, notification_of, fields_of, required, optional, read_option,
  read_string, read_device,
}
use pincerbell.Api.RoundTrip.{IsNotification, to_value-read_notification}

abbrev phone : Device
phone = record {
  app_id = "org.example.app";
  pushkey = "pushkey-1";
  pushkey_ts = some (pos 1700000000);
  pusher_data =
      some (record { format = some "event_id_only"; rest = field "extra" (str "kept") end });
  tweaks = some (field "sound" (str "default") end);
}

abbrev message : Notification
message = record {
  devices = phone ∷ [];
  content = some (str "secret");
  counts = some (record { unread = some 2; missed_calls = none });
  event_id = some "$event1:example.test";
  room_id = none;
  event_type = some "m.room.message";
  sender = none;
  sender_display_name = some "Alice";
  room_name = none;
  room_alias = none;
  user_is_target = some false;
  prio = some Prio.low;
}

message-IsNotification : IsNotification message
unfolding Within IsI64 IsMap Json.get
message-IsNotification = record {
  devices_valid = (
    record {
      ts_range = omega arith;
      data_valid = record { rest_map = (refl, tt); no_format = refl };
    },
    tt,
  );
  counts_valid = record { unread_range = omega arith; missed_range = tt };
}

to_value-read_notification_example :
    (to_value message >>= read_notification) ≡ ok (record message { content = none })
to_value-read_notification_example = to_value-read_notification message message-IsNotification

-- Only the devices are required of a notification.
no_devices :
    read_request (obj (field "notification" (obj (field "event_id" (str "$e") end)) end))
    ≡ err "devices"
unfolding read_request fields_of required read_notification notification_of Json.get
no_devices = refl

-- A device as an array of its fields, without the optional ones.
device_by_position :
    read_device (arr (cons (str "app") (cons (str "key") nil)))
    ≡ ok (record {
      app_id = "app";
      pushkey = "key";
      pushkey_ts = none;
      pusher_data = none;
      tweaks = none;
    })
unfolding read_device fields_of required optional read_option read_string Json.get
device_by_position = refl
