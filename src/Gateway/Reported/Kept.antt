-- ===== src/Gateway/Reported/Kept.antt =====
-- Deliveries leave the record of invalid pushkeys as it is, and which apps have a backend.
use pincerbell.Base.{
  ◌≡◌, refl, Option, some, Result-cases, Bool-cases, Option-cases, inl, inr, string_eq,
}
use mathlib.Core.Option
use pincerbell.Time.{Instant}
use pincerbell.HashMap
use pincerbell.HashMap.{HashMap}
use pincerbell.Api.{Notification, Device}
use pincerbell.Http.{Outcome}
use pincerbell.Dedup.{DedupCache}
use pincerbell.Queue
use pincerbell.QueueSide.{QueueState, is_rejected}
use pincerbell.Gateway.{
  AppState, start, finish, without_provider, queue_one, enqueue_one, is_suppressed,
}

module _ {ℓ} {P : Type ℓ} where
  unfoldable pub record_of : AppState P → Option DedupCache
  record_of st = Option.map (λ (q : QueueState). q.rejected) st.queue

  -- The backends and the record of invalid pushkeys have stayed.
  unfoldable pub Same : AppState P → AppState P → Type ℓ
  Same st st' = (st'.providers ≡ st.providers) × (record_of st' ≡ record_of st)

  enqueue_one-Same :
      (st : AppState P) (q : QueueState) (now : Instant) (n : Notification) (device : Device)
      → st.queue ≡ some q
      → Same st (enqueue_one st q now n device).0
  unfolding Same record_of enqueue_one
  enqueue_one-Same st q now n device there =
      elim (Result-cases (Queue.enqueue q.queue now n device)) [
        | inl (q', done) ↦ rw (done, there, enqueue_one) (refl, refl)
        | inr (e, failed) ↦ rw (failed, enqueue_one) (refl, refl)
      ]

  queue_one-Same :
      (st : AppState P) (q : QueueState) (now : Instant) (n : Notification) (device : Device)
      → st.queue ≡ some q
      → Same st (queue_one st q now n device).0
  unfolding Same queue_one
  queue_one-Same st q now n device there =
      elim (Bool-cases (is_rejected q now device.app_id device.pushkey)) [
        | inl bad ↦ rw (bad, queue_one) (refl, refl)
        | inr good ↦ elim (Bool-cases (is_suppressed st.dedup now n.event_id device)) [
          | inl held ↦ rw (good, held, queue_one) (refl, refl)
          | inr fresh ↦ rw (good, fresh, queue_one) (enqueue_one-Same st q now n device there)
        ]
      ]

  without_provider-Same :
      (st : AppState P) (now : Instant) (n : Notification) (device : Device)
      → Same st (without_provider st now n device).0
  unfolding Same without_provider
  without_provider-Same st now n device = elim (Option-cases st.queue) [
    | inl off ↦ simp (off, without_provider) (refl, refl)
    | inr (q, there) ↦ simp (there, without_provider) (queue_one-Same st q now n device there)
  ]

  pub start-Same :
      (st : AppState P) (now : Instant) (n : Notification) (device : Device)
      → Same st (start st now n device).0
  unfolding Same start
  start-Same st now n device = elim (Option-cases (HashMap.get st.providers device.app_id)) [
    | inr (p, here) ↦ elim (Bool-cases (is_suppressed st.dedup now n.event_id device)) [
      | inl held ↦ rw (here, held, start) (refl, refl)
      | inr fresh ↦ rw (here, fresh, start) (refl, refl)
    ]
    | inl absent ↦ rw (absent, start) (without_provider-Same st now n device)
  ]

  pub finish-Same :
      (st : AppState P) (now : Instant) (n : Notification) (device : Device) (answer : Outcome)
      → Same st (finish st now n device answer).0
  unfolding Same finish record_of
  finish-Same st now n device Outcome.delivered = (refl, refl)
  finish-Same st now n device Outcome.rejected = (refl, refl)
  finish-Same st now n device Outcome.skipped = (refl, refl)
  finish-Same st now n device (Outcome.transient e) = (refl, refl)
