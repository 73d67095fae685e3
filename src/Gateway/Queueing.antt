-- ===== src/Gateway/Queueing.antt =====
-- The queue side behind the gateway: the state stays consistent, the endpoints ask for the token,
-- and a pushkey that the poll side reports is rejected to the homeserver.
use pincerbell.Base.{
  ℕ, zero, suc, ◌+◌, ◌<◌, ◌≤◌, ◌≡◌, subst, Option, none, some, List, [], ◌∷◌, String, ok,
  Result-cases, Bool-cases, Option-cases, arith, inl, inr, length, string_eq,
}
use pincerbell.Time.{Instant}
use pincerbell.HashMap
use pincerbell.Api.{Notification, Device}
use pincerbell.Http.{Outcome}
use pincerbell.Dedup
use pincerbell.Dedup.Invariant
use pincerbell.Queue
use pincerbell.Queue.{u64_mod}
use pincerbell.Queue.Held
use pincerbell.Queue.Enqueue.{enqueue_at-IsValid}
use pincerbell.QueueSide.{QueueState, is_rejected}
use pincerbell.Gateway.{
  AppState, Stage, start, finish, without_provider, queue_one, enqueue_one, is_suppressed,
  record_delivery,
}
use pincerbell.Gateway.Notify.{Task, resume, resume_at, fan_out, notify, tasks_of}

-- A consistent queue side, which gave out at most `b` ids.
pub record QueueIsSound (b : ℕ) (q : QueueState) : Type 0 where
  pub queue_valid : Queue.Held.IsValid q.queue.inner
  pub rejected_valid : Dedup.Invariant.IsValid q.rejected
  pub few_ids : q.queue.next_id ≤ b

pub record IsSound {ℓ} {P : Type ℓ} (b : ℕ) (st : AppState P) : Type 0 where
  pub dedup_valid : Dedup.Invariant.IsValid st.dedup
  pub queue_sound : (q : QueueState) → st.queue ≡ some q → QueueIsSound b q

pub record_delivery-IsValid :
    (c : Dedup.DedupCache) (now : Instant) (event_id : Option String) (device : Device)
    → Dedup.Invariant.IsValid c
    → Dedup.Invariant.IsValid (record_delivery c now event_id device)
unfolding record_delivery
record_delivery-IsValid c now none device v = v
record_delivery-IsValid c now (some event_id) device v =
    Dedup.Invariant.record_at-IsValid c now event_id device.app_id device.pushkey v

pub QueueIsSound-enqueue :
    (b : ℕ) (q : QueueState) (now : Instant) (n : Notification) (device : Device)
    (queue' : Queue.NotificationQueue)
    → b + 1 < u64_mod
    → Queue.enqueue q.queue now n device ≡ ok queue'
    → QueueIsSound b q
    → QueueIsSound (b + 1) (record q { queue = queue' })
unfolding Queue.enqueue
QueueIsSound-enqueue b q now n device queue' small e v =
    elim (Result-cases (Queue.payload_for n device)) [
      | inr (m, failed) ↦ absurd (ground (arith, failed, e))
      | inl (payload, made) ↦
          let key : Option Queue.CountKey = Queue.count_key_for n device in
          let same : Queue.enqueue_at q.queue now payload key ≡ queue' = ground (arith, made, e) in
          subst (λ (x : Queue.NotificationQueue). QueueIsSound (b + 1) (record q { queue = x }))
            same
            (record {
              queue_valid =
                  enqueue_at-IsValid q.queue now payload key (omega (arith, v.few_ids))
                    v.queue_valid;
              rejected_valid = v.rejected_valid;
              few_ids =
                  omega (arith, v.few_ids, Queue.Runs.next_id-enqueue_at q.queue now payload key);
            })
    ]

pub later-IsSound {ℓ} : {P : Type ℓ} (b : ℕ) (st : AppState P) → IsSound b st → IsSound (b + 1) st
later-IsSound b st v = record {
  dedup_valid = v.dedup_valid;
  queue_sound = λ q e.
      let s : QueueIsSound b q = v.queue_sound q e in
      record {
        queue_valid = s.queue_valid;
        rejected_valid = s.rejected_valid;
        few_ids = omega (arith, s.few_ids);
      };
}

module _ {ℓ} {P : Type ℓ} (b : ℕ) (n : Notification) where
  finish-IsSound :
      (st : AppState P) (now : Instant) (device : Device) (answer : Outcome)
      → IsSound b st
      → IsSound b (finish st now n device answer).0
  unfolding finish
  finish-IsSound st now device Outcome.delivered v = record {
    dedup_valid = record_delivery-IsValid st.dedup now n.event_id device v.dedup_valid;
    queue_sound = v.queue_sound;
  }
  finish-IsSound st now device Outcome.rejected v = v
  finish-IsSound st now device Outcome.skipped v = v
  finish-IsSound st now device (Outcome.transient e) v = v

  enqueue_one-IsSound :
      (st : AppState P) (q : QueueState) (now : Instant) (device : Device)
      → b + 1 < u64_mod
      → st.queue ≡ some q
      → IsSound b st
      → IsSound (b + 1) (enqueue_one st q now n device).0
  unfolding enqueue_one
  enqueue_one-IsSound st q now device small there v =
      elim (Result-cases (Queue.enqueue q.queue now n device)) [
        | inr (e, failed) ↦ rw (failed, enqueue_one) (later-IsSound b st v)
        | inl (queue', done) ↦
            rw (done, enqueue_one)
              (record {
                dedup_valid = record_delivery-IsValid st.dedup now n.event_id device v.dedup_valid;
                queue_sound = λ q' e.
                    let same : record q { queue = queue' } ≡ q' = ground (arith, e) in
                    subst (QueueIsSound (b + 1)) same (
                      QueueIsSound-enqueue b q now n device queue' small done
                        (v.queue_sound q there));
              })
      ]

  queue_one-IsSound :
      (st : AppState P) (q : QueueState) (now : Instant) (device : Device)
      → b + 1 < u64_mod
      → st.queue ≡ some q
      → IsSound b st
      → IsSound (b + 1) (queue_one st q now n device).0
  unfolding queue_one
  queue_one-IsSound st q now device small there v =
      elim (Bool-cases (is_rejected q now device.app_id device.pushkey)) [
        | inl bad ↦ rw (bad, queue_one) (later-IsSound b st v)
        | inr good ↦ elim (Bool-cases (is_suppressed st.dedup now n.event_id device)) [
          | inl held ↦ rw (good, held, queue_one) (later-IsSound b st v)
          | inr fresh ↦
              rw (good, fresh, queue_one) (enqueue_one-IsSound st q now device small there v)
        ]
      ]

  without_provider-IsSound :
      (st : AppState P) (now : Instant) (device : Device)
      → b + 1 < u64_mod
      → IsSound b st
      → IsSound (b + 1) (without_provider st now n device).0
  unfolding without_provider
  without_provider-IsSound st now device small v = elim (Option-cases st.queue) [
    | inr (q, there) ↦
        simp (there, without_provider) (queue_one-IsSound st q now device small there v)
    | inl absent ↦ simp (absent, without_provider) (later-IsSound b st v)
  ]

  start-IsSound :
      (st : AppState P) (now : Instant) (device : Device)
      → b + 1 < u64_mod
      → IsSound b st
      → IsSound (b + 1) (start st now n device).0
  unfolding start
  start-IsSound st now device small v =
      elim (Option-cases (HashMap.get st.providers device.app_id)) [
        | inl absent ↦ rw (absent, start) (without_provider-IsSound st now device small v)
        | inr (p, there) ↦ elim (Bool-cases (is_suppressed st.dedup now n.event_id device)) [
          | inl held ↦ rw (there, held, start) (later-IsSound b st v)
          | inr fresh ↦ rw (there, fresh, start) (later-IsSound b st v)
        ]
      ]

  resume-IsSound :
      (now : Instant) (answer : Outcome) (st : AppState P) (t : Task P)
      → b + 1 < u64_mod
      → IsSound b st
      → IsSound (b + 1) (resume n now answer st t).0
  unfolding resume
  resume-IsSound now answer st (device, none) small v = start-IsSound st now device small v
  resume-IsSound now answer st (device, some (Stage.calling p)) small v =
      later-IsSound b _ (finish-IsSound st now device answer v)
  resume-IsSound now answer st (device, some (Stage.settled d)) small v = later-IsSound b st v

  resume_at-IsSound :
      (k : ℕ) (now : Instant) (answer : Outcome) (st : AppState P) (ts : List (Task P))
      → b + 1 < u64_mod
      → IsSound b st
      → IsSound (b + 1) (resume_at n k now answer st ts).0
  unfolding resume_at
  resume_at-IsSound k now answer st [] small v = later-IsSound b st v
  resume_at-IsSound zero now answer st (t ∷ ts) small v = resume-IsSound now answer st t small v
  resume_at-IsSound (suc k) now answer st (t ∷ ts) small v =
      resume_at-IsSound k now answer st ts small v

fan_out-IsSound {ℓ} :
    {P : Type ℓ} (n : Notification) (events : List (ℕ × Instant × Outcome)) (b : ℕ)
    (st : AppState P) (ts : List (Task P))
    → b + length events < u64_mod
    → IsSound b st
    → IsSound (b + length events) (fan_out n events st ts).0
unfolding fan_out
fan_out-IsSound n [] b st ts small v = subst (λ k. IsSound k st) (omega arith) v
fan_out-IsSound n ((k, now, answer) ∷ events) b st ts small v =
    let r = resume_at n k now answer st ts in
    subst (λ m. IsSound m (fan_out n events r.0 r.1).0) (omega arith)
      (fan_out-IsSound n events (b + 1) r.0 r.1 (omega arith)
        (resume_at-IsSound b n k now answer st ts (omega arith) v))

-- However the deliveries of a request interleave, `notify` leaves a consistent gateway consistent:
-- the duplicate cache, the queue and the record of invalid pushkeys satisfy their invariants, as
-- long as the ids that were given out and one more for each event stay below 2^64.
notify-IsSound {ℓ} :
    {P : Type ℓ} (b : ℕ) (events : List (ℕ × Instant × Outcome)) (st : AppState P)
    (n : Notification)
    → b + length events < u64_mod
    → IsSound b st
    → IsSound (b + length events) (notify events st n).0
unfolding notify
notify-IsSound b events st n small v = fan_out-IsSound n events b st (tasks_of n.devices) small v
