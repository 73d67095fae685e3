-- ===== src/Gateway/System/Serving.antt =====
-- Each part of a delivery keeps the account of where tokens, requests and rejections come from.
use pincerbell.Base.{
  ◌≡◌, refl, sym, none, some, String, Bool, arith, true, false, Option-cases, Bool-cases,
  Result-cases, inl, inr, string_eq, if◌then◌else◌,
}
use pincerbell.Time.{Instant}
use pincerbell.HashMap
use pincerbell.HashMap.{get-insert}
use pincerbell.Api.{Notification, Device}
use pincerbell.Http.{Outcome}
use pincerbell.Dedup.{key_eq}
use pincerbell.Queue
use pincerbell.QueueSide.{QueueState, is_rejected}
use pincerbell.Provider.{Provider, Worlds}
use pincerbell.Provider.Calls.{begin}
use pincerbell.Provider.Origins.{begin-Proper, Proper-bare}
use pincerbell.Gateway.{
  AppState, Disposition, is_suppressed, record_delivery, enqueue_one, queue_one, without_provider,
  start, finish,
}
use pincerbell.Gateway.Interleaved.{begun}
use pincerbell.Gateway.System.Tidy.{
  Tidy, Why, unknown_app, reported_key, Justified, StageOk, Tidy-dedup, Tidy-queue,
  is_rejected-Reports, absent_first, there_first,
}

module _ (Says : Worlds → Type 0) (Reports : String → String → Type 0)
    (first : AppState Provider) where
  -- One device: the state afterwards, and where the device stands.
  enqueue_one-Tidy :
      (st : AppState Provider) (q : QueueState) (now : Instant) (n : Notification) (device : Device)
      → st.queue ≡ some q
      → Tidy Says Reports first st
      → Tidy Says Reports first (enqueue_one st q now n device).0
        × Justified Says Reports first n device (enqueue_one st q now n device).1
  unfolding enqueue_one
  enqueue_one-Tidy st q now n device there v =
      elim (Result-cases (Queue.enqueue q.queue now n device)) [
        | inr (e, failed) ↦ rw (failed, enqueue_one) (v, tt)
        | inl (queue', done) ↦
            rw (done, enqueue_one)
              (
                Tidy-queue Says Reports first
                    (record st { dedup = record_delivery st.dedup now n.event_id device }) q
                    (record q { queue = queue' }) there (v.reported_only q there)
                    (Tidy-dedup Says Reports first st _ v),
                tt,
              )
      ]

  queue_one-Tidy :
      (st : AppState Provider) (q : QueueState) (now : Instant) (n : Notification) (device : Device)
      → HashMap.get st.providers device.app_id ≡ none
      → st.queue ≡ some q
      → Tidy Says Reports first st
      → Tidy Says Reports first (queue_one st q now n device).0
        × Justified Says Reports first n device (queue_one st q now n device).1
  unfolding queue_one
  queue_one-Tidy st q now n device absent there v =
      elim (Bool-cases (is_rejected q now device.app_id device.pushkey)) [
        | inl bad ↦
            rw (bad, queue_one)
              (
                v,
                (
                  refl,
                  reported_key (absent_first Says Reports first st device.app_id v absent)
                      (λ h. ground (arith, v.queue_kept.1 h, there))
                      (is_rejected-Reports Says Reports first q now device.app_id device.pushkey
                        (v.reported_only q there) bad),
                ),
              )
        | inr good ↦ elim (Bool-cases (is_suppressed st.dedup now n.event_id device)) [
          | inl held ↦ rw (good, held, queue_one) (v, tt)
          | inr fresh ↦ rw (good, fresh, queue_one) (enqueue_one-Tidy st q now n device there v)
        ]
      ]

  unknown-Justified :
      (n : Notification) (device : Device) (strict : Bool)
      → (strict ≡ true → Why Says Reports first n device)
      → Justified Says Reports first n device
          (if strict then Disposition.reject device.pushkey else Disposition.fine)
  unknown-Justified n device true why = (refl, why refl)
  unknown-Justified n device false why = tt

  without_provider-Tidy :
      (st : AppState Provider) (now : Instant) (n : Notification) (device : Device)
      → HashMap.get st.providers device.app_id ≡ none
      → Tidy Says Reports first st
      → Tidy Says Reports first (without_provider st now n device).0
        × Justified Says Reports first n device (without_provider st now n device).1
  unfolding without_provider
  without_provider-Tidy st now n device absent v = elim (Option-cases st.queue) [
    | inr (q, there) ↦
        rw (there, without_provider) (queue_one-Tidy st q now n device absent there v)
    | inl unqueued ↦
        rw (unqueued, without_provider)
          (
            v,
            unknown-Justified n device st.config.reject_unknown_apps (λ strict.
                unknown_app (absent_first Says Reports first st device.app_id v absent)
                  (v.queue_kept.0 unqueued) (ground (arith, strict, v.config_kept))),
          )
  ]

  pub start-Tidy :
      (st : AppState Provider) (now : Instant) (n : Notification) (device : Device)
      → Tidy Says Reports first st
      → Tidy Says Reports first (start st now n device).0
        × StageOk Says Reports first n device (some (begun (start st now n device).1))
  unfolding start begun
  start-Tidy st now n device v = elim (Option-cases (HashMap.get st.providers device.app_id)) [
    | inl absent ↦ rw (absent, start) (without_provider-Tidy st now n device absent v)
    | inr (p', there) ↦ elim (Bool-cases (is_suppressed st.dedup now n.event_id device)) [
      | inl held ↦ rw (there, held, start) (v, tt)
      | inr fresh ↦
          let (p, e, same, holds) = there_first Says Reports first st device.app_id p' v there in
          rw (there, fresh, start)
            (
              v,
              (
                p,
                e,
                Proper-bare Says p' p n device (begin p') (sym same)
                    (begin-Proper Says p' n device),
              ),
            )
    ]
  ]

  pub finish-Tidy :
      (st : AppState Provider) (now : Instant) (n : Notification) (device : Device)
      (outcome : Outcome)
      → (outcome ≡ Outcome.rejected → Why Says Reports first n device)
      → Tidy Says Reports first st
      → Tidy Says Reports first (finish st now n device outcome).0
        × Justified Says Reports first n device (finish st now n device outcome).1
  unfolding finish
  finish-Tidy st now n device Outcome.delivered why v = (Tidy-dedup Says Reports first st _ v, tt)
  finish-Tidy st now n device Outcome.rejected why v = (v, (refl, why refl))
  finish-Tidy st now n device Outcome.skipped why v = (v, tt)
  finish-Tidy st now n device (Outcome.transient e) why v = (v, tt)
