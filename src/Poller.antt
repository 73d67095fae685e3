-- ===== src/Poller.antt =====
-- src/poller.rs: the poll side's loop. `read` is the derived deserialization of a notification, and
-- `one` is `deliver_one` with whatever it does to the state, the clock and the backends.
pub mod Upstreams
pub mod Loaded
pub mod Batches
pub mod Backoff
pub mod Rounds
mod Tests
use pincerbell.Base.{
  ℕ, ◌+◌, ◌*◌, Bool, true, false, not, ◌||◌, List, [], ◌∷◌, ◌++◌, Option, none, some, String,
  Result, ok, err, if◌then◌else◌, ltb, length,
}
use pincerbell.Time.{Duration, from_secs}
use pincerbell.Json.{Value}
use pincerbell.Api.{Notification, Device}
use pincerbell.Http.{is_success}
use pincerbell.Queue.Wire.{PollEntry, PollResponse, PollRequest, RejectedPushkey, AckRequest}
use pincerbell.Config.{PollUpstream}
use pincerbell.Gateway.{Disposition}

-- The answer to the poll: its status, and its body.
pub record PollReply : Type 0 where
  pub status : ℕ
  pub body : Result PollResponse String

pub data Failure : Type 0 where
  poll_network : String → Failure
  poll_status : ℕ → Failure
  poll_body : String → Failure
  ack_network : String → Failure
  ack_status : ℕ → Failure

unfoldable pub empty_ack : AckRequest
empty_ack = record { acked = []; rejected_pushkeys = [] }

unfoldable pub push_acked : AckRequest → ℕ → AckRequest
push_acked a id = record a { acked = a.acked ++ id ∷ [] }

unfoldable pub is_empty : AckRequest → Bool
is_empty a = elim a.acked [
  | [] ↦ elim a.rejected_pushkeys [ [] ↦ true | r ∷ rs ↦ false ]
  | id ∷ ids ↦ false
]

-- What one device's disposition adds to the acknowledgement and to the flag `transient`.
unfoldable pub note : Device → Disposition → AckRequest → Bool → AckRequest × Bool
note device Disposition.fine a transient = (a, transient)
note device (Disposition.reject pushkey) a transient = (
  record a {
    rejected_pushkeys =
        a.rejected_pushkeys ++ record { app_id = device.app_id; pushkey = pushkey } ∷ [];
  },
  transient,
)
note device Disposition.transient a transient = (a, true)

module _ {ℓ} {S : Type ℓ} (read : Value → Result Notification String)
    (one : S → Notification → Device → S × Disposition) where
  -- The loop over a notification's devices, one after the other.
  unfoldable pub each_device :
      Notification → List Device → S → AckRequest → Bool → S × AckRequest × Bool
  unfolding note
  each_device n [] s a transient = (s, a, transient)
  each_device n (device ∷ ds) s a transient =
      let (s', d) = one s n device in
      let (a', transient') = note device d a transient in each_device n ds s' a' transient'

  unfoldable pub handle_entry : PollEntry → S → AckRequest → S × AckRequest
  unfolding each_device push_acked
  handle_entry entry s a = elim (read entry.notification) [
    | err e ↦ (s, push_acked a entry.id)
    | ok n ↦
        let (s', a', transient) = each_device n n.devices s a false in
        (s', if transient then a' else push_acked a' entry.id)
  ]

  -- The loop over the fetched entries.
  unfoldable pub each_entry : List PollEntry → S → AckRequest → S × AckRequest
  unfolding handle_entry
  each_entry [] s a = (s, a)
  each_entry (entry ∷ entries) s a =
      let (s', a') = handle_entry entry s a in each_entry entries s' a'

  -- `reply` answers the poll and `send` the acknowledgement, which is sent only if it says anything.
  unfoldable pub poll_once :
      Result PollReply String
      → (AckRequest → Result ℕ String)
      → S
      → S × Option AckRequest × Result ℕ Failure
  unfolding each_entry is_empty
  poll_once (err e) send s = (s, none, err (poll_network e))
  poll_once (ok reply) send s =
      if not (is_success reply.status)
      then (s, none, err (poll_status reply.status))
      else elim reply.body [
        | err e ↦ (s, none, err (poll_body e))
        | ok resp ↦
            let (s', a) = each_entry resp.entries s empty_ack in
            if is_empty a then (s', none, ok (length resp.entries)) else (
              s',
              some a,
              elim (send a) [
                | err e ↦ err (ack_network e)
                | ok status ↦
                    if is_success status then ok (length resp.entries) else err (ack_status status)
              ],
            )
      ]

-- How the loop of `run` goes on after a cycle: the time it sleeps, and the next backoff.
unfoldable pub back_off : Duration → Result ℕ Failure → Duration × Duration
back_off backoff (ok fetched) = (0, from_secs 1)
back_off backoff (err e) =
    let twice = backoff * 2 in (backoff, if ltb (from_secs 60) twice then from_secs 60 else twice)

-- What the upstream answers during one cycle.
pub record Exchange : Type 0 where
  pub reply : Result PollReply String
  pub send : AckRequest → Result ℕ String

-- The loop of `run` for as long as there are exchanges: each cycle's result, and the sleep after it.
-- The health check before the loop changes nothing.
unfoldable pub run_loop {ℓ} :
    {S : Type ℓ}
    → (Value → Result Notification String)
    → (S → Notification → Device → S × Disposition)
    → Duration
    → List Exchange
    → S
    → S × List (Result ℕ Failure × Duration)
unfolding poll_once back_off
run_loop read one backoff [] s = (s, [])
run_loop read one backoff (x ∷ xs) s =
    let (s', sent, result) = poll_once read one x.reply x.send s in
    let (pause, backoff') = back_off backoff result in
    let (s'', rounds) = run_loop read one backoff' xs s' in (s'', (result, pause) ∷ rounds)

-- The first backoff of `run`.
abbrev pub first_backoff : Duration
first_backoff = from_secs 1

unfoldable pub run {ℓ} :
    {S : Type ℓ}
    → (Value → Result Notification String)
    → (S → Notification → Device → S × Disposition)
    → List Exchange
    → S
    → S × List (Result ℕ Failure × Duration)
unfolding run_loop
run read one xs s = run_loop read one first_backoff xs s

-- The backoff after a number of cycles.
unfoldable pub back_offs : Duration → List (Result ℕ Failure) → Duration
unfolding back_off
back_offs backoff [] = backoff
back_offs backoff (r ∷ rs) = back_offs (back_off backoff r).1 rs
