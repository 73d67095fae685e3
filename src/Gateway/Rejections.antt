-- ===== src/Gateway/Rejections.antt =====
-- When a pushkey is rejected, which makes the homeserver delete its pusher.
use pincerbell.Base.{
  ◌≡◌, ◌↔◌, ◌∙◌, ap, sym, refl, true, false, none, some, String, if◌then◌else◌, Result-cases,
  Bool-cases, Option-cases, arith, inl, inr, string_eq,
}
use pincerbell.Time.{Instant}
use pincerbell.HashMap
use pincerbell.Api.{Notification, Device}
use pincerbell.Http.{Outcome}
use pincerbell.Queue
use pincerbell.QueueSide.{QueueState, is_rejected}
use pincerbell.Gateway.{
  AppState, Disposition, is_suppressed, enqueue_one, queue_one, without_provider, start, finish,
  deliver_one,
}

-- Why the pushkey of a device is rejected: its app is unknown and the gateway is told to reject
-- such; or the poll side reported the pushkey; or the backend was asked and rejected it.
pub data Grounds {ℓ} {P : Type ℓ} (deliver : P → Notification → Device → Outcome) (st : AppState P)
    (now : Instant) (n : Notification) (device : Device) : Type ℓ where
  unknown :
      HashMap.get st.providers device.app_id ≡ none
      → st.queue ≡ none
      → st.config.reject_unknown_apps ≡ true
      → Grounds deliver st now n device
  reported :
      (q : QueueState)
      → HashMap.get st.providers device.app_id ≡ none
      → st.queue ≡ some q
      → is_rejected q now device.app_id device.pushkey ≡ true
      → Grounds deliver st now n device
  refused :
      (p : P)
      → HashMap.get st.providers device.app_id ≡ some p
      → is_suppressed st.dedup now n.event_id device ≡ false
      → deliver p n device ≡ Outcome.rejected
      → Grounds deliver st now n device

module _ {ℓ} {P : Type ℓ} (deliver : P → Notification → Device → Outcome) (st : AppState P)
    (now later : Instant) (n : Notification) (device : Device) where
  finish-eq-reject :
      (answer : Outcome) (k : String)
      → ((finish st later n device answer).1 ≡ Disposition.reject k)
        ↔ ((answer ≡ Outcome.rejected) × (k ≡ device.pushkey))
  unfolding finish
  finish-eq-reject Outcome.delivered k = (λ h. cc, λ h. ground (arith, h))
  finish-eq-reject Outcome.rejected k = (λ h. (refl, ground (arith, h)), λ h. ground (arith, h))
  finish-eq-reject Outcome.skipped k = (λ h. cc, λ h. ground (arith, h))
  finish-eq-reject (Outcome.transient e) k = (λ h. cc, λ h. ground (arith, h))

  queue_one-eq-reject :
      (q : QueueState) (k : String)
      → ((queue_one st q now n device).1 ≡ Disposition.reject k)
        ↔ ((is_rejected q now device.app_id device.pushkey ≡ true) × (k ≡ device.pushkey))
  unfolding queue_one enqueue_one
  queue_one-eq-reject q k = elim (Result-cases (Queue.enqueue q.queue now n device)) [
    | inl (q', done) ↦ (λ h. ground (arith, h, done), λ h. ground (arith, h, done))
    | inr (e, failed) ↦ (λ h. ground (arith, h, failed), λ h. ground (arith, h, failed))
  ]

  -- The disposition, case by case.
  disposition_unknown :
      HashMap.get st.providers device.app_id ≡ none
      → st.queue ≡ none
      → (deliver_one deliver st now later n device).1 ≡ (
          if st.config.reject_unknown_apps
          then Disposition.reject device.pushkey
          else Disposition.fine)
  unfolding deliver_one start without_provider
  disposition_unknown absent unqueued = ground (arith, absent, unqueued)

  disposition_queued :
      (q : QueueState)
      → HashMap.get st.providers device.app_id ≡ none
      → st.queue ≡ some q
      → (deliver_one deliver st now later n device).1 ≡ (queue_one st q now n device).1
  unfolding deliver_one start without_provider
  disposition_queued q absent queued = ground (arith, absent, queued)

  disposition_suppressed :
      (p : P)
      → HashMap.get st.providers device.app_id ≡ some p
      → is_suppressed st.dedup now n.event_id device ≡ true
      → (deliver_one deliver st now later n device).1 ≡ Disposition.fine
  unfolding deliver_one start
  disposition_suppressed p there held = ground (arith, there, held)

  disposition_asked :
      (p : P)
      → HashMap.get st.providers device.app_id ≡ some p
      → is_suppressed st.dedup now n.event_id device ≡ false
      → (deliver_one deliver st now later n device).1
        ≡ (finish st later n device (deliver p n device)).1
  unfolding deliver_one start
  disposition_asked p there fresh = ground (arith, there, fresh)

  reject_of_grounds :
      Grounds deliver st now n device
      → (deliver_one deliver st now later n device).1 ≡ Disposition.reject device.pushkey
  reject_of_grounds (unknown absent unqueued strict) =
      ground (arith, disposition_unknown absent unqueued, strict)
  reject_of_grounds (reported q absent queued bad) =
      disposition_queued q absent queued ∙ (queue_one-eq-reject q device.pushkey).1 (bad, refl)
  reject_of_grounds (refused p there fresh no_use) =
      disposition_asked p there fresh
      ∙ (finish-eq-reject (deliver p n device) device.pushkey).1 (no_use, refl)

  grounds_of_reject :
      (k : String)
      → (deliver_one deliver st now later n device).1 ≡ Disposition.reject k
      → Grounds deliver st now n device × (k ≡ device.pushkey)
  grounds_of_reject k h = elim (Option-cases (HashMap.get st.providers device.app_id)) [
    | inl absent ↦ elim (Option-cases st.queue) [
      | inr (q, queued) ↦
          let (bad, same) =
            (queue_one-eq-reject q k).0 (sym (disposition_queued q absent queued) ∙ h) in
          (reported q absent queued bad, same)
      | inl unqueued ↦ elim (Bool-cases st.config.reject_unknown_apps) [
        | inl strict ↦ (
          unknown absent unqueued strict,
          ground (arith, h, disposition_unknown absent unqueued, strict),
        )
        | inr lax ↦ absurd (ground (arith, h, disposition_unknown absent unqueued, lax))
      ]
    ]
    | inr (p, there) ↦ elim (Bool-cases (is_suppressed st.dedup now n.event_id device)) [
      | inl held ↦ absurd (ground (arith, h, disposition_suppressed p there held))
      | inr fresh ↦
          let (no_use, same) =
            (finish-eq-reject (deliver p n device) k).0
              (sym (disposition_asked p there fresh) ∙ h) in
          (refused p there fresh no_use, same)
    ]
  ]

  -- Delivery to a device ends in a rejection exactly on one of these grounds, and rejects the
  -- device's own pushkey: the app is not configured, there is no queue, and unknown apps are to be
  -- rejected; or the app is not configured, and the poll side reported the pushkey within the
  -- record's `ttl`; or the backend of the app was asked, and rejected it.
  pub deliver_one-eq-reject :
      (k : String)
      → ((deliver_one deliver st now later n device).1 ≡ Disposition.reject k)
        ↔ (Grounds deliver st now n device × (k ≡ device.pushkey))
  deliver_one-eq-reject k =
      (grounds_of_reject k, λ (g, same). reject_of_grounds g ∙ ap Disposition.reject (sym same))
