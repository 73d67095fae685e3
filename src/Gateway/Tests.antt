-- ===== src/Gateway/Tests.antt =====
-- The gateway on concrete inputs.
use pincerbell.Base.{
  Any, inl, inr, ℕ, ◌≡◌, ◌↔◌, refl, Bool, true, none, some, List, [], ◌∷◌, String, ok, arith,
}
use Prim.Native.String.{slice, len}
use text.Mathlib.Text.{starts_with}
use pincerbell.Time.{Instant}
use pincerbell.HashMap
use pincerbell.Api.{to_value, Notification}
use pincerbell.Http
use pincerbell.Http.{Outcome, Reason}
use pincerbell.Dedup
use pincerbell.Dedup.Invariant.{new-IsValid}
use pincerbell.Queue
use pincerbell.Queue.Wire.{RejectedPushkey}
use pincerbell.QueueSide
use pincerbell.Gateway.Reported.{notify_tells_reported}
use pincerbell.QueueSide.{bytes_beq, verify_token, is_rejected}
use pincerbell.Gateway.{
  AppState, without_provider, Disposition, Stage, start, finish, is_suppressed,
}
use pincerbell.Gateway.Notify.{notify, fan_out, tasks_of}
use pincerbell.Gateway.QueueApi.{queue_auth, is_authorized, queue_ack, with_queue, report_all}
use pincerbell.Fcm
use pincerbell.Fcm.Tests as FcmTests
use pincerbell.Apns.Tests as ApnsTests
use pincerbell.Webpush.Tests as WebpushTests
use pincerbell.Provider.{Provider, Worlds}
use pincerbell.Gateway.Backends.{deliver_with, Causes, deliver_with-eq-reject}
use pincerbell.Gateway.Retries.{start-finish_delivered}
use pincerbell.Gateway.Settling.{Stands}
use pincerbell.Gateway.Fanout.{IsAnswerTo, notify-IsAnswerTo}
use pincerbell.Gateway.Endpoints.{queue_auth-eq-ok, notify-queue_ack}
use pincerbell.Gateway.Sample.{digest, config, queue_state, state, phone, other, notification}

start-finish_delivered_example :
    start ((finish state 12 notification phone Outcome.delivered).0) 20 notification phone
    ≡ ((finish state 12 notification phone Outcome.delivered).0, Stage.settled Disposition.fine)
unfolding start is_suppressed Dedup.is_duplicate_at Dedup.is_within Dedup.new HashMap.get
start-finish_delivered_example =
    start-finish_delivered state notification phone "e" 10 12 20 true (new-IsValid 300 16) refl
      (omega arith) refl refl (omega arith) (omega arith) (omega arith)

-- The second device is queued while the first one's backend is being called.
abbrev events : List (ℕ × Instant × Outcome)
events = (0, 10, Outcome.delivered) ∷ (1, 11, Outcome.delivered) ∷ (0, 12, Outcome.rejected) ∷ []

answered : (notify events state notification).1 ≡ some (ok (record { rejected = "k1" ∷ [] }))
unfolding notify HashMap.get is_suppressed Dedup.is_duplicate_at Dedup.new without_provider
    is_rejected Queue.enqueue to_value
answered = refl

notify-IsAnswerTo_example :
    Stands
      (phone ∷ other ∷ [])
      (fan_out notification events state (tasks_of (phone ∷ other ∷ []))).1
    × IsAnswerTo
        (fan_out notification events state (tasks_of (phone ∷ other ∷ []))).1
        (ok (record { rejected = "k1" ∷ [] }))
notify-IsAnswerTo_example =
    notify-IsAnswerTo events state notification (ok (record { rejected = "k1" ∷ [] })) answered

queue_auth-eq-ok_example : (queue_auth digest state (some "Bearer secret") ≡ ok queue_state) ↔ (
    (state.queue ≡ some queue_state)
    × ((v : String) × (some "Bearer secret" ≡ some v)
        × (starts_with v "Bearer " ≡ true)
        × (digest (slice v 7 (len v)) ≡ queue_state.token_hash)))
queue_auth-eq-ok_example = queue_auth-eq-ok digest state (some "Bearer secret") queue_state

abbrev report : RejectedPushkey
report = record { app_id = "other"; pushkey = "k2" }

abbrev reported : AppState Bool
reported = with_queue state (
    report_all (record queue_state { queue = Queue.ack queue_state.queue (0 ∷ []) }) 30
      (report ∷ []))

accepted :
    queue_ack digest state 30
      (some "Bearer secret")
      (record { acked = 0 ∷ []; rejected_pushkeys = report ∷ [] })
    ≡ ok reported
unfolding queue_ack queue_auth is_authorized verify_token bytes_beq
accepted = refl

abbrev for_other : Notification
for_other = record notification { devices = other ∷ [] }

notify-queue_ack_example :
    notify ((0, 40, Outcome.skipped) ∷ []) reported for_other
    ≡ (reported, some (ok (record { rejected = "k2" ∷ [] })))
unfolding is_rejected Dedup.is_duplicate_at Dedup.is_within Dedup.new HashMap.get
notify-queue_ack_example =
    notify-queue_ack digest state reported queue_state 30 40 (some "Bearer secret") (0 ∷ []) report
      for_other other Outcome.skipped accepted refl (new-IsValid 600 16) refl (omega arith) refl
      refl refl refl refl (omega arith) (omega arith)

-- The reported device is looked at while the first one's backend is being called.
abbrev later_events : List (ℕ × Instant × Outcome)
later_events =
    (0, 31, Outcome.delivered) ∷ (1, 32, Outcome.delivered) ∷ (0, 33, Outcome.delivered) ∷ []

answered_later :
    (notify later_events reported notification).1 ≡ some (ok (record { rejected = "k2" ∷ [] }))
unfolding notify HashMap.get is_suppressed Dedup.is_duplicate_at Dedup.is_within Dedup.new
    Dedup.record_at without_provider is_rejected with_queue report_all QueueSide.report_rejected
    HashMap.len HashMap.insert HashMap.remove Dedup.key_beq
answered_later = refl

notify_tells_reported_example : Any {A = String} (λ k. k ≡ "k2") ("k2" ∷ [])
unfolding Dedup.new is_rejected Dedup.is_duplicate_at HashMap.get
notify_tells_reported_example =
    notify_tells_reported digest state reported queue_state 30 (some "Bearer secret") (0 ∷ [])
      report notification later_events (record { rejected = "k2" ∷ [] }) accepted refl
      (new-IsValid 600 16) refl (omega arith) refl refl (inr (inl (refl, refl)))
      ((omega arith, omega arith), ((omega arith, omega arith), ((omega arith, omega arith), tt)))
      answered_later

-- The backend of "known" is that of an FCM app, and FCM knows no such token.
abbrev worlds : Worlds
worlds = record {
  fcm_world = FcmTests.world;
  apns_world = ApnsTests.world;
  webpush_world = WebpushTests.world_at WebpushTests.url;
}

abbrev with_backends : AppState Provider
with_backends = record {
  config = config;
  providers = ("known", Provider.fcm FcmTests.app) ∷ [];
  dedup = Dedup.new 300 16;
  queue = none;
}

gone : (deliver_with with_backends 10 12 worlds notification phone).1 ≡ Disposition.reject "k1"
unfolding deliver_with HashMap.get is_suppressed Dedup.is_duplicate_at Dedup.new Fcm.deliver
    Fcm.access_token Fcm.answer Fcm.classify Http.contains
gone = refl

deliver_with-eq-reject_example :
    ((deliver_with with_backends 10 12 worlds notification phone).1 ≡ Disposition.reject "k1")
    ↔ (Causes worlds with_backends 10 notification phone × ◌≡◌ {A = String} "k1" phone.pushkey)
deliver_with-eq-reject_example =
    deliver_with-eq-reject with_backends 10 12 worlds notification phone "k1"
