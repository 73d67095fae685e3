-- ===== src/Gateway/System/Effects.antt =====
-- What one part of a delivery does to the state.
use pincerbell.Base.{
  ℕ, zero, suc, ◌≡◌, subst, none, some, List, [], ◌∷◌, String, ok, arith, Option-cases, Bool-cases,
  Result-cases, inl, inr, string_eq,
}
use pincerbell.Time.{Instant}
use pincerbell.HashMap
use pincerbell.Api.{Notification, Device}
use pincerbell.Http.{Outcome}
use pincerbell.Queue
use pincerbell.QueueSide.{QueueState, is_rejected}
use pincerbell.Provider.{Provider, Worlds}
use pincerbell.Provider.Calls.{Running, outcome_of, proceed}
use pincerbell.Gateway.{
  AppState, Stage, is_suppressed, record_delivery, enqueue_one, queue_one, without_provider, start,
  finish,
}
use pincerbell.Gateway.Notify.{Task}
use pincerbell.Gateway.Interleaved.{advance_at, advance, advance_call, call_on}
use pincerbell.Gateway.System.{Request, go_on}

pub data Effect (st : AppState Provider) : AppState Provider → Type 0 where
  nothing : Effect st st
  recorded :
      (now : Instant) (n : Notification) (device : Device)
      → Effect st (record st { dedup = record_delivery st.dedup now n.event_id device })
  queued :
      (now : Instant) (n : Notification) (device : Device) (q : QueueState)
      (queue' : Queue.NotificationQueue)
      → st.queue ≡ some q
      → Queue.enqueue q.queue now n device ≡ ok queue'
      → Effect st (record st {
        dedup = record_delivery st.dedup now n.event_id device;
        queue = some (record q { queue = queue' });
      })
  called :
      (k : String) (p : Provider)
      → Effect st (record st { providers = HashMap.insert st.providers k p })

enqueue_one-Effect :
    (st : AppState Provider) (q : QueueState) (now : Instant) (n : Notification) (device : Device)
    → st.queue ≡ some q
    → Effect st (enqueue_one st q now n device).0
unfolding enqueue_one
enqueue_one-Effect st q now n device there =
    elim (Result-cases (Queue.enqueue q.queue now n device)) [
      | inr (e, failed) ↦ rw (failed, enqueue_one) nothing
      | inl (queue', done) ↦ rw (done, enqueue_one) (queued now n device q queue' there done)
    ]

queue_one-Effect :
    (st : AppState Provider) (q : QueueState) (now : Instant) (n : Notification) (device : Device)
    → st.queue ≡ some q
    → Effect st (queue_one st q now n device).0
unfolding queue_one
queue_one-Effect st q now n device there =
    elim (Bool-cases (is_rejected q now device.app_id device.pushkey)) [
      | inl bad ↦ rw (bad, queue_one) nothing
      | inr good ↦ elim (Bool-cases (is_suppressed st.dedup now n.event_id device)) [
        | inl held ↦ rw (good, held, queue_one) nothing
        | inr fresh ↦ rw (good, fresh, queue_one) (enqueue_one-Effect st q now n device there)
      ]
    ]

without_provider-Effect :
    (st : AppState Provider) (now : Instant) (n : Notification) (device : Device)
    → Effect st (without_provider st now n device).0
unfolding without_provider
without_provider-Effect st now n device = elim (Option-cases st.queue) [
  | inl unqueued ↦
      let same : st ≡ (without_provider st now n device).0 = ground (arith, unqueued) in
      subst (Effect st) same nothing
  | inr (q, there) ↦
      let same : (queue_one st q now n device).0 ≡ (without_provider st now n device).0 =
        ground (arith, there) in
      subst (Effect st) same (queue_one-Effect st q now n device there)
]

start-Effect :
    (st : AppState Provider) (now : Instant) (n : Notification) (device : Device)
    → Effect st (start st now n device).0
unfolding start
start-Effect st now n device = elim (Option-cases (HashMap.get st.providers device.app_id)) [
  | inl absent ↦ rw (absent, start) (without_provider-Effect st now n device)
  | inr (p, there) ↦ elim (Bool-cases (is_suppressed st.dedup now n.event_id device)) [
    | inl held ↦ rw (there, held, start) nothing
    | inr fresh ↦ rw (there, fresh, start) nothing
  ]
]

finish-Effect :
    (st : AppState Provider) (now : Instant) (n : Notification) (device : Device)
    (outcome : Outcome)
    → Effect st (finish st now n device outcome).0
unfolding finish
finish-Effect st now n device Outcome.delivered = recorded now n device
finish-Effect st now n device Outcome.rejected = nothing
finish-Effect st now n device Outcome.skipped = nothing
finish-Effect st now n device (Outcome.transient e) = nothing

module _ (n : Notification) (now : Instant) (w : Worlds) where
  call_on-Effect :
      (st : AppState Provider) (device : Device) (r : Running)
      → Effect st (call_on n now w st device r).0
  unfolding call_on
  call_on-Effect st device r = elim (Option-cases (HashMap.get st.providers device.app_id)) [
    | inl absent ↦ rw (absent, call_on) nothing
    | inr (p, there) ↦ rw (there, call_on) (called device.app_id (proceed p w n device r).1)
  ]

  advance-Effect : (st : AppState Provider) (t : Task Running) → Effect st (advance n now w st t).0
  unfolding advance advance_call
  advance-Effect st (device, none) = start-Effect st now n device
  advance-Effect st (device, some (Stage.calling r)) = elim (Option-cases (outcome_of r)) [
    | inl open_call ↦ rw (open_call, advance_call) (call_on-Effect st device r)
    | inr (outcome, over) ↦ rw (over, advance_call) (finish-Effect st now n device outcome)
  ]
  advance-Effect st (device, some (Stage.settled d)) = nothing

  advance_at-Effect :
      (k : ℕ) (st : AppState Provider) (ts : List (Task Running))
      → Effect st (advance_at n now w k st ts).0
  unfolding advance_at
  advance_at-Effect k st [] = nothing
  advance_at-Effect zero st (t ∷ ts) = advance-Effect st t
  advance_at-Effect (suc k) st (t ∷ ts) = advance_at-Effect k st ts

-- One step of a request does one of these at most.
pub go_on-Effect :
    (i k : ℕ) (now : Instant) (w : Worlds) (st : AppState Provider) (rs : List Request)
    → Effect st (go_on i k now w st rs).0
unfolding go_on
go_on-Effect i k now w st [] = nothing
go_on-Effect zero k now w st (r ∷ rs) = advance_at-Effect r.notification now w k st r.tasks
go_on-Effect (suc i) k now w st (r ∷ rs) = go_on-Effect i k now w st rs
