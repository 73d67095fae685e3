-- ===== src/Gateway/Interleaved/Providers.antt =====
-- What the gateway does apart from its backends does not look at them, but for whether an app has
-- one.
use pincerbell.Base.{
  ◌≡◌, refl, ap, String, Option-cases, Bool-cases, Result-cases, inl, inr, string_eq,
}
use pincerbell.Time.{Instant}
use pincerbell.HashMap.{HashMap}
use pincerbell.Api.{Notification, Device}
use pincerbell.Http.{Outcome}
use pincerbell.Gateway.Backends.{finish-providers}
use pincerbell.Queue
use pincerbell.QueueSide.{QueueState, is_rejected}
use pincerbell.Provider.{Provider}
use pincerbell.Gateway.{AppState, is_suppressed, enqueue_one, queue_one, without_provider, finish}

-- A state with other backends.
abbrev with_providers : HashMap String Provider → AppState Provider → AppState Provider
with_providers m st = record st { providers = m }

module _ (m : HashMap String Provider) (st : AppState Provider) (now : Instant) (n : Notification)
    (device : Device) where
  enqueue_one-with_providers :
      (q : QueueState)
      → enqueue_one (with_providers m st) q now n device
        ≡ (with_providers m (enqueue_one st q now n device).0, (enqueue_one st q now n device).1)
  unfolding enqueue_one
  enqueue_one-with_providers q = elim (Result-cases (Queue.enqueue q.queue now n device)) [
    | inl (queue', done) ↦ rw (done, enqueue_one) refl
    | inr (e, failed) ↦ rw (failed, enqueue_one) refl
  ]

  queue_one-with_providers :
      (q : QueueState)
      → queue_one (with_providers m st) q now n device
        ≡ (with_providers m (queue_one st q now n device).0, (queue_one st q now n device).1)
  unfolding queue_one
  queue_one-with_providers q = elim (Bool-cases (is_rejected q now device.app_id device.pushkey)) [
    | inl bad ↦ rw (bad, queue_one) refl
    | inr good ↦ elim (Bool-cases (is_suppressed st.dedup now n.event_id device)) [
      | inl held ↦ rw (good, held, queue_one) refl
      | inr fresh ↦ rw (good, fresh, queue_one) (enqueue_one-with_providers q)
    ]
  ]

  without_provider-with_providers : without_provider (with_providers m st) now n device ≡ (
    with_providers m (without_provider st now n device).0,
    (without_provider st now n device).1,
  )
  unfolding without_provider
  without_provider-with_providers = elim (Option-cases st.queue) [
    | inl unqueued ↦ rw (unqueued, without_provider) refl
    | inr (q, queued) ↦ rw (queued, without_provider) (queue_one-with_providers q)
  ]

module _ (n : Notification) where
  pub without_provider-keeps :
      (st : AppState Provider) (now : Instant) (device : Device)
      → (without_provider st now n device).0.providers ≡ st.providers
  without_provider-keeps st now device =
      ap (λ x. x.0.providers) (without_provider-with_providers st.providers st now n device)

  pub finish-keeps :
      (st : AppState Provider) (now : Instant) (device : Device) (outcome : Outcome)
      → (finish st now n device outcome).0.providers ≡ st.providers
  finish-keeps st now device outcome =
      ap (λ x. x.0.providers) (finish-providers st st.providers now n device outcome)
