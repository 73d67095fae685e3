-- ===== src/Api/RoundTrip.antt =====
-- What a notification's serialization writes is read back.
use pincerbell.Base.{◌≡◌, refl, ap, none, some, ok, ◌>>=◌, string_eq, All}
use mathlib.Core.Option
use pincerbell.Json
use pincerbell.Json.{
  ℤ, pos, negsuc, Value, null, bool, num, real, str, arr, obj, Items, nil, cons, Fields, end, field,
  get-put, get-put_opt, json_laws,
}
use pincerbell.Api.{
  PusherData, Device, Notification, prio_value, counts_value, flatten, pusher_data_value,
  device_value, items_of, notification_fields, to_value,
}
use pincerbell.Api.Objects.{IsMap, flatten-format}
use pincerbell.Api.ReadBack.{
  IsI64, Within, IsCounts, ReadsBack, Within-Anything, optional-map, required-some,
  read_each-items_of, read_string-str, read_i64-num, read_map-obj, read_bool-bool,
  read_prio-prio_value, read_counts-counts_value,
}
use pincerbell.Api.Read.{
  read_option, optional, required, read_string, read_i64, read_map, read_prio, read_counts,
  fields_of, read_bool, read_pusher_data, read_device, read_list, notification_of,
  read_notification,
}

pub record IsPusherData (d : PusherData) : Type 0 where
  pub rest_map : IsMap d.rest
  pub no_format : Json.get d.rest "format" ≡ none

pub record IsDevice (d : Device) : Type 0 where
  pub ts_range : Within IsI64 d.pushkey_ts
  pub data_valid : Within IsPusherData d.pusher_data

read_pusher_data-pusher_data_value : ReadsBack IsPusherData read_pusher_data pusher_data_value
unfolding read_option read_pusher_data pusher_data_value read_map
read_pusher_data-pusher_data_value d v =
    let fs = flatten (Json.put_opt end "format" (Option.map str d.format)) d.rest in
    let (there, others) = flatten-format d.format d.rest v.rest_map v.no_format in
    let e : optional read_string fs "format" ≡ ok d.format =
      optional-map _ read_string str fs "format" d.format read_string-str there
        (Within-Anything d.format) in
    simp (e, others)

device_lem : (d : Device) → IsDevice d → read_device (device_value d) ≡ ok d
unfolding read_device device_value fields_of read_string
device_lem d v =
    let f1 = Json.put end "app_id" (str d.app_id) in
    let f2 = Json.put f1 "pushkey" (str d.pushkey) in
    let f3 = Json.put_opt f2 "pushkey_ts" (Option.map num d.pushkey_ts) in
    let f4 = Json.put_opt f3 "data" (Option.map pusher_data_value d.pusher_data) in
    let fs = Json.put_opt f4 "tweaks" (Option.map obj d.tweaks) in
    let e1 : required read_string fs "app_id" ≡ ok d.app_id =
      required-some read_string fs "app_id" (str d.app_id) d.app_id (simp json_laws) refl in
    let e2 : required read_string fs "pushkey" ≡ ok d.pushkey =
      required-some read_string fs "pushkey" (str d.pushkey) d.pushkey (simp json_laws) refl in
    let e3 : optional read_i64 fs "pushkey_ts" ≡ ok d.pushkey_ts =
      optional-map _ read_i64 num fs "pushkey_ts" d.pushkey_ts read_i64-num (simp json_laws)
        v.ts_range in
    let e4 : optional read_pusher_data fs "data" ≡ ok d.pusher_data =
      optional-map _ read_pusher_data pusher_data_value fs "data" d.pusher_data
        read_pusher_data-pusher_data_value (simp json_laws) v.data_valid in
    let e5 : optional read_map fs "tweaks" ≡ ok d.tweaks =
      optional-map _ read_map obj fs "tweaks" d.tweaks read_map-obj (simp json_laws)
        (Within-Anything d.tweaks) in
    simp (e1, e2, e3, e4, e5)

pub record IsNotification (n : Notification) : Type 0 where
  pub devices_valid : All IsDevice n.devices
  pub counts_valid : Within IsCounts n.counts

-- The fields are those of a notification's serialization, in some order.
pub record Writes (fs : Fields) (n : Notification) : Type 0 where
  pub devices_at : Json.get fs "devices" ≡ some (arr (items_of device_value n.devices))
  pub content_at : Json.get fs "content" ≡ none
  pub counts_at : Json.get fs "counts" ≡ Option.map counts_value n.counts
  pub event_id_at : Json.get fs "event_id" ≡ Option.map str n.event_id
  pub room_id_at : Json.get fs "room_id" ≡ Option.map str n.room_id
  pub event_type_at : Json.get fs "type" ≡ Option.map str n.event_type
  pub sender_at : Json.get fs "sender" ≡ Option.map str n.sender
  pub sender_display_name_at :
      Json.get fs "sender_display_name" ≡ Option.map str n.sender_display_name
  pub room_name_at : Json.get fs "room_name" ≡ Option.map str n.room_name
  pub room_alias_at : Json.get fs "room_alias" ≡ Option.map str n.room_alias
  pub user_is_target_at : Json.get fs "user_is_target" ≡ Option.map bool n.user_is_target
  pub prio_at : Json.get fs "prio" ≡ Option.map prio_value n.prio

pub notification_fields-Writes : (n : Notification) → Writes (notification_fields n) n
unfolding notification_fields
notification_fields-Writes n = record {
  devices_at = simp json_laws;
  content_at = simp json_laws;
  counts_at = simp json_laws;
  event_id_at = simp json_laws;
  room_id_at = simp json_laws;
  event_type_at = simp json_laws;
  sender_at = simp json_laws;
  sender_display_name_at = simp json_laws;
  room_name_at = simp json_laws;
  room_alias_at = simp json_laws;
  user_is_target_at = simp json_laws;
  prio_at = simp json_laws;
}

-- What is written is read, without the content.
pub notification_of-Writes :
    (fs : Fields) (n : Notification)
    → IsNotification n
    → Writes fs n
    → notification_of fs ≡ ok (record n { content = none })
unfolding notification_of read_list optional read_option
notification_of-Writes fs n v w =
    let e1 : required (read_list read_device) fs "devices" ≡ ok n.devices =
      required-some (read_list read_device) fs "devices" (arr (items_of device_value n.devices))
        n.devices w.devices_at
        (read_each-items_of IsDevice read_device device_value n.devices device_lem
          v.devices_valid) in
    let e2 : optional (λ v. ok v) fs "content" ≡ ok none =
      ap (read_option (λ v. ok v)) w.content_at in
    let e3 : optional read_counts fs "counts" ≡ ok n.counts =
      optional-map _ read_counts counts_value fs "counts" n.counts read_counts-counts_value
        w.counts_at v.counts_valid in
    let e4 : optional read_string fs "event_id" ≡ ok n.event_id =
      optional-map _ read_string str fs "event_id" n.event_id read_string-str w.event_id_at
        (Within-Anything n.event_id) in
    let e5 : optional read_string fs "room_id" ≡ ok n.room_id =
      optional-map _ read_string str fs "room_id" n.room_id read_string-str w.room_id_at
        (Within-Anything n.room_id) in
    let e6 : optional read_string fs "type" ≡ ok n.event_type =
      optional-map _ read_string str fs "type" n.event_type read_string-str w.event_type_at
        (Within-Anything n.event_type) in
    let e7 : optional read_string fs "sender" ≡ ok n.sender =
      optional-map _ read_string str fs "sender" n.sender read_string-str w.sender_at
        (Within-Anything n.sender) in
    let e8 : optional read_string fs "sender_display_name" ≡ ok n.sender_display_name =
      optional-map _ read_string str fs "sender_display_name" n.sender_display_name read_string-str
        w.sender_display_name_at (Within-Anything n.sender_display_name) in
    let e9 : optional read_string fs "room_name" ≡ ok n.room_name =
      optional-map _ read_string str fs "room_name" n.room_name read_string-str w.room_name_at
        (Within-Anything n.room_name) in
    let e10 : optional read_string fs "room_alias" ≡ ok n.room_alias =
      optional-map _ read_string str fs "room_alias" n.room_alias read_string-str w.room_alias_at
        (Within-Anything n.room_alias) in
    let e11 : optional read_bool fs "user_is_target" ≡ ok n.user_is_target =
      optional-map _ read_bool bool fs "user_is_target" n.user_is_target read_bool-bool
        w.user_is_target_at (Within-Anything n.user_is_target) in
    let e12 : optional read_prio fs "prio" ≡ ok n.prio =
      optional-map _ read_prio prio_value fs "prio" n.prio read_prio-prio_value w.prio_at
        (Within-Anything n.prio) in
    simp (e1, e2, e3, e4, e5, e6, e7, e8, e9, e10, e11, e12)

-- A notification whose numbers are in the ranges of their types, and whose maps have each key once,
-- is serialized, and what is written is read back as the same notification without its content.
pub to_value-read_notification :
    (n : Notification)
    → IsNotification n
    → (to_value n >>= read_notification) ≡ ok (record n { content = none })
unfolding to_value read_notification fields_of
to_value-read_notification n v =
    notification_of-Writes (notification_fields n) n v (notification_fields-Writes n)
