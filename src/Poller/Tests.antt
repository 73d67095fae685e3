-- ===== src/Poller/Tests.antt =====
-- The poll side on concrete inputs.
use pincerbell.Base.{
  map, ℕ, ◌+◌, ◌≡◌, refl, true, List, [], ◌∷◌, String, none, some, Result, ok, err, if◌then◌else◌,
  ltb, string_eq,
}
use pincerbell.Time.{from_secs}
use pincerbell.Json.{Value, str, bool}
use pincerbell.Api.{Notification, Device}
use pincerbell.Queue.Wire.{PollEntry, AckRequest}
use pincerbell.Gateway.{Disposition}
use pincerbell.Poller.{PollReply, poll_once, back_off, empty_ack, Exchange, run}
use pincerbell.Poller.Rounds.{sleeps, run-sleeps}

abbrev device : Device
device = record {
  app_id = "a";
  pushkey = "k";
  pushkey_ts = none;
  pusher_data = none;
  tweaks = none;
}

abbrev notification : Notification
notification = record {
  devices = device ∷ [];
  content = none;
  counts = none;
  event_id = some "e";
  room_id = none;
  event_type = none;
  sender = none;
  sender_display_name = none;
  room_name = none;
  room_alias = none;
  user_is_target = none;
  prio = none;
}

-- Only a text is read.
abbrev read : Value → Result Notification String
read (str s) = ok notification
read v = err "not a notification"

-- A backend that fails at its first delivery; the state counts the deliveries.
abbrev one : ℕ → Notification → Device → ℕ × Disposition
one s n d = (s + 1, if ltb 0 s then Disposition.fine else Disposition.transient)

abbrev entries : List PollEntry
entries =
    record { id = 4; notification = str "a" }
    ∷ record { id = 5; notification = bool true }
    ∷ record { id = 6; notification = str "b" }
    ∷ []

abbrev reply : PollReply
reply = record { status = 200; body = ok (record { entries = entries }) }

abbrev send : AckRequest → Result ℕ String
send a = ok 200

-- Two failures, a success, and a failure again.
abbrev exchanges : List Exchange
exchanges =
    record { reply = err "refused"; send = send }
    ∷ record { reply = ok (record reply { status = 502 }); send = send }
    ∷ record { reply = ok reply; send = send }
    ∷ record { reply = ok reply; send = λ a. err "refused" }
    ∷ []

run-sleeps_example :
    map (λ r. r.1) (run read one exchanges 0).1
    ≡ sleeps 0 (map (λ r. r.0) (run read one exchanges 0).1)
run-sleeps_example = run-sleeps read one exchanges 0

slept :
    map (λ r. r.1) (run read one exchanges 0).1 ≡ from_secs 1 ∷ from_secs 2 ∷ 0 ∷ from_secs 1 ∷ []
unfolding run poll_once back_off empty_ack
slept = refl
