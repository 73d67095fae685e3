-- ===== src/Relay.antt =====
-- The relay of src/queue.rs and src/poller.rs: what the queue side stores of a notification is what
-- the poll side reads and delivers.
pub mod Access
pub mod Cycle
mod Tests
use pincerbell.Base.{
  ℕ, ◌≡◌, ◌∙◌, refl, ap, sym, Bool, true, false, Option, none, some, List, [], ◌∷◌, String, Result,
  ok, err, ◌>>=◌, if◌then◌else◌, arith, All,
}
use pincerbell.Json
use pincerbell.Json.{Value, arr, obj, Items, nil, cons, Fields, get-put, json_laws}
use pincerbell.Api.{Notification, Device, device_value, items_of, notification_fields, to_value}
use pincerbell.Api.Read.{read_notification, fields_of}
use pincerbell.Api.RoundTrip.{
  IsDevice, IsNotification, Writes, notification_fields-Writes, notification_of-Writes,
}
use pincerbell.Queue.{payload_for}
use pincerbell.Queue.Wire.{PollEntry, AckRequest}
use pincerbell.Gateway.{Disposition}
use pincerbell.Poller
use pincerbell.Poller.{handle_entry, each_device, note, push_acked}

-- What the poll side sees of a notification for one of its devices.
abbrev pub single : Notification → Device → Notification
single n device = record n { content = none; devices = device ∷ [] }

-- The notification with the device in place of all devices.
abbrev alone : Notification → Device → Notification
alone n device = record n { devices = device ∷ [] }

put-Writes :
    (n : Notification) (device : Device)
    → Writes
        (Json.put (notification_fields n) "devices" (arr (cons (device_value device) nil)))
        (alone n device)
unfolding items_of
put-Writes n device =
    let w = notification_fields-Writes n in
    record {
      devices_at = simp json_laws;
      content_at = simp (get-put, w.content_at);
      counts_at = simp (get-put, w.counts_at);
      event_id_at = simp (get-put, w.event_id_at);
      room_id_at = simp (get-put, w.room_id_at);
      event_type_at = simp (get-put, w.event_type_at);
      sender_at = simp (get-put, w.sender_at);
      sender_display_name_at = simp (get-put, w.sender_display_name_at);
      room_name_at = simp (get-put, w.room_name_at);
      room_alias_at = simp (get-put, w.room_alias_at);
      user_is_target_at = simp (get-put, w.user_is_target_at);
      prio_at = simp (get-put, w.prio_at);
    }

payload_for-read :
    (n : Notification) (device : Device)
    → IsNotification (alone n device)
    → (payload_for n device >>= read_notification) ≡ ok (single n device)
unfolding payload_for to_value read_notification fields_of Json.set
payload_for-read n device v =
    notification_of-Writes
      (Json.put (notification_fields n) "devices" (arr (cons (device_value device) nil)))
      (alone n device) v (put-Writes n device)

-- A polled entry that the queue side stored for a device runs the delivery of that device once, with
-- the notification it was stored for, less the content and the other devices; it is acknowledged
-- unless that delivery failed transiently, and reports what that delivery rejects. The numbers of
-- the notification are in the ranges of their types, and its maps have each key once.
pub handle_entry-payload_for {ℓ} :
    {S : Type ℓ} (one : S → Notification → Device → S × Disposition) (n : Notification)
    (device : Device) (entry : PollEntry) (s : S) (a : AckRequest)
    → IsNotification (alone n device)
    → payload_for n device ≡ ok entry.notification
    → handle_entry read_notification one entry s a ≡ (
        let (s', d) = one s (single n device) device in
        let (a', transient) = note device d a false in
        (s', if transient then a' else push_acked a' entry.id))
unfolding handle_entry each_device
handle_entry-payload_for one n device entry s a v stored =
    let e : read_notification entry.notification ≡ ok (single n device) =
      sym (ap (λ r. r >>= read_notification) stored) ∙ payload_for-read n device v in
    rw (e, handle_entry) refl
