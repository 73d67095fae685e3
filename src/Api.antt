-- ===== src/Api.antt =====
-- src/api.rs: the wire types of the push gateway API, and what their derived `Serialize`
-- implementations write: an absent optional field stays absent, and `content` is never written.
pub mod Read
pub mod Objects
pub mod ReadBack
pub mod RoundTrip
mod Tests
use pincerbell.Base.{ℕ, Bool, Option, none, some, List, [], ◌∷◌, String, Result, ok}
use mathlib.Core.Option
use pincerbell.Json.{ℤ, pos, Value, bool, num, str, arr, obj, Items, nil, cons, Fields, end, field}
use pincerbell.Json

pub data Prio : Type 0 where
  high low : Prio

pub Prio-discrete : Discrete Prio
Prio-discrete = hlevel

pub record Counts : Type 0 where
  pub unread : Option ℕ
  pub missed_calls : Option ℕ

pub record PusherData : Type 0 where
  pub format : Option String
  pub rest : Fields

pub record Device : Type 0 where
  pub app_id : String
  pub pushkey : String
  pub pushkey_ts : Option ℤ
  pub pusher_data : Option PusherData
  pub tweaks : Option Fields

pub record Notification : Type 0 where
  pub devices : List Device
  pub content : Option Value
  pub counts : Option Counts
  pub event_id : Option String
  pub room_id : Option String
  pub event_type : Option String
  pub sender : Option String
  pub sender_display_name : Option String
  pub room_name : Option String
  pub room_alias : Option String
  pub user_is_target : Option Bool
  pub prio : Option Prio

-- An absent `prio` is high.
unfoldable pub priority : Notification → Prio
priority n = elim n.prio [ none ↦ Prio.high | some p ↦ p ]

-- The derived `Serialize`, type by type.
unfoldable pub prio_value : Prio → Value
prio_value Prio.high = str "high"
prio_value Prio.low = str "low"

abbrev pub nat_value : ℕ → Value
nat_value n = num (pos n)

unfoldable pub counts_value : Counts → Value
counts_value c = obj (
    Json.put_opt (Json.put_opt end "unread" (Option.map nat_value c.unread)) "missed_calls"
      (Option.map nat_value c.missed_calls))

-- `#[serde(flatten)]`: the other entries stand beside `format`.
pub flatten : Fields → Fields → Fields
flatten into end = into
flatten into (field k v fs) = flatten (Json.put into k v) fs

unfoldable pub pusher_data_value : PusherData → Value
unfolding flatten
pusher_data_value d = obj (flatten (Json.put_opt end "format" (Option.map str d.format)) d.rest)

unfoldable pub device_value : Device → Value
device_value d =
    let f1 = Json.put end "app_id" (str d.app_id) in
    let f2 = Json.put f1 "pushkey" (str d.pushkey) in
    let f3 = Json.put_opt f2 "pushkey_ts" (Option.map num d.pushkey_ts) in
    let f4 = Json.put_opt f3 "data" (Option.map pusher_data_value d.pusher_data) in
    obj (Json.put_opt f4 "tweaks" (Option.map obj d.tweaks))

unfoldable pub items_of {ℓ} : {A : Type ℓ} → (A → Value) → List A → Items
items_of write [] = nil
items_of write (a ∷ xs) = let rest = items_of write xs in cons (write a) rest

unfoldable pub notification_fields : Notification → Fields
notification_fields n =
    let f1 = Json.put end "devices" (arr (items_of device_value n.devices)) in
    let f2 = Json.put_opt f1 "counts" (Option.map counts_value n.counts) in
    let f3 = Json.put_opt f2 "event_id" (Option.map str n.event_id) in
    let f4 = Json.put_opt f3 "room_id" (Option.map str n.room_id) in
    let f5 = Json.put_opt f4 "type" (Option.map str n.event_type) in
    let f6 = Json.put_opt f5 "sender" (Option.map str n.sender) in
    let f7 = Json.put_opt f6 "sender_display_name" (Option.map str n.sender_display_name) in
    let f8 = Json.put_opt f7 "room_name" (Option.map str n.room_name) in
    let f9 = Json.put_opt f8 "room_alias" (Option.map str n.room_alias) in
    let f10 = Json.put_opt f9 "user_is_target" (Option.map bool n.user_is_target) in
    Json.put_opt f10 "prio" (Option.map prio_value n.prio)

-- serde_json::to_value, which fails on no notification.
unfoldable pub to_value : Notification → Result Value String
unfolding notification_fields
to_value n = ok (obj (notification_fields n))
