-- ===== src/Gateway/Settling.antt =====
-- What becomes of the devices of a `notify`: each has a disposition of its own, whatever the order.
use pincerbell.Base.{
  ℕ, zero, suc, ◌≡◌, ◌∙◌, refl, sym, subst, Option, none, some, List, [], ◌∷◌, Result-cases, arith,
  Bool-cases, Option-cases, inl, inr, string_eq,
}
use pincerbell.Time.{Instant}
use pincerbell.HashMap
use pincerbell.Api.{Notification, Device}
use pincerbell.Http.{Outcome}
use pincerbell.Queue
use pincerbell.QueueSide.{QueueState, is_rejected}
use pincerbell.Gateway.{
  AppState, Disposition, Stage, start, finish, without_provider, queue_one, enqueue_one,
  is_suppressed,
}
use pincerbell.Gateway.Notify.{Task, resume, resume_at, fan_out, tasks_of, join}

-- A rejection names the pushkey of its own device.
unfoldable pub Names : Device → Disposition → Type 0
Names device Disposition.fine = Unit
Names device (Disposition.reject pushkey) = pushkey ≡ device.pushkey
Names device Disposition.transient = Unit

pub NamesStage {ℓ} : {P : Type ℓ} → Device → Option (Stage P) → Type 0
unfolding Names
NamesStage device none = Unit
NamesStage device (some (Stage.calling p)) = Unit
NamesStage device (some (Stage.settled d)) = Names device d

-- The tasks are those of the devices, and each of the rejections names its device.
unfoldable pub Stands {ℓ} : {P : Type ℓ} → List Device → List (Task P) → Type 0
unfolding NamesStage
Stands [] [] = Unit
Stands [] (t ∷ ts) = ⊥
Stands (d ∷ ds) [] = ⊥
Stands (d ∷ ds) ((device, stage) ∷ ts) = (device ≡ d) × NamesStage d stage × Stands ds ts

-- The dispositions of the devices, one each and in their order.
unfoldable pub Settles : List Device → List Disposition → Type 0
unfolding Names
Settles [] [] = Unit
Settles [] (x ∷ xs) = ⊥
Settles (d ∷ ds) [] = ⊥
Settles (d ∷ ds) (x ∷ xs) = Names d x × Settles ds xs

module _ {ℓ} {P : Type ℓ} (n : Notification) where
  finish-Names :
      (st : AppState P) (now : Instant) (device : Device) (answer : Outcome)
      → Names device (finish st now n device answer).1
  unfolding finish Names
  finish-Names st now device Outcome.delivered = tt
  finish-Names st now device Outcome.rejected = refl
  finish-Names st now device Outcome.skipped = tt
  finish-Names st now device (Outcome.transient e) = tt

  enqueue_one-Names :
      (st : AppState P) (q : QueueState) (now : Instant) (device : Device)
      → Names device (enqueue_one st q now n device).1
  unfolding enqueue_one Names
  enqueue_one-Names st q now device = elim (Result-cases (Queue.enqueue q.queue now n device)) [
    | inl (q', done) ↦ rw (done, enqueue_one) tt
    | inr (e, failed) ↦ rw (failed, enqueue_one) tt
  ]

  queue_one-Names :
      (st : AppState P) (q : QueueState) (now : Instant) (device : Device)
      → Names device (queue_one st q now n device).1
  unfolding queue_one Names
  queue_one-Names st q now device =
      elim (Bool-cases (is_rejected q now device.app_id device.pushkey)) [
        | inl bad ↦ rw (bad, queue_one) refl
        | inr good ↦ elim (Bool-cases (is_suppressed st.dedup now n.event_id device)) [
          | inl held ↦ rw (good, held, queue_one) tt
          | inr fresh ↦ rw (good, fresh, queue_one) (enqueue_one-Names st q now device)
        ]
      ]

  without_provider-Names :
      (st : AppState P) (now : Instant) (device : Device)
      → Names device (without_provider st now n device).1
  unfolding without_provider Names
  without_provider-Names st now device = elim (Option-cases st.queue) [
    | inr (q, there) ↦ rw (there, without_provider) (queue_one-Names st q now device)
    | inl absent ↦ elim (Bool-cases st.config.reject_unknown_apps) [
      | inl strict ↦ rw (absent, strict, without_provider) refl
      | inr lax ↦ rw (absent, lax, without_provider) tt
    ]
  ]

  start-NamesStage :
      (st : AppState P) (now : Instant) (device : Device)
      → NamesStage device (some (start st now n device).1)
  unfolding start NamesStage Names
  start-NamesStage st now device = elim (Option-cases (HashMap.get st.providers device.app_id)) [
    | inl absent ↦ rw (absent, start) (without_provider-Names st now device)
    | inr (p, there) ↦ elim (Bool-cases (is_suppressed st.dedup now n.event_id device)) [
      | inl held ↦ rw (there, held, start) tt
      | inr fresh ↦ rw (there, fresh, start) tt
    ]
  ]

  resume-NamesStage :
      (now : Instant) (answer : Outcome) (st : AppState P) (device : Device)
      (stage : Option (Stage P))
      → NamesStage device stage
      → NamesStage device (resume n now answer st (device, stage)).1.1
  unfolding resume NamesStage
  resume-NamesStage now answer st device none v = start-NamesStage st now device
  resume-NamesStage now answer st device (some (Stage.calling p)) v =
      finish-Names st now device answer
  resume-NamesStage now answer st device (some (Stage.settled d)) v = v

  resume-device :
      (now : Instant) (answer : Outcome) (st : AppState P) (t : Task P)
      → (resume n now answer st t).1.0 ≡ t.0
  unfolding resume
  resume-device now answer st (device, none) = refl
  resume-device now answer st (device, some (Stage.calling p)) = refl
  resume-device now answer st (device, some (Stage.settled d)) = refl

  resume_at-Stands :
      (k : ℕ) (now : Instant) (answer : Outcome) (st : AppState P) (ds : List Device)
      (ts : List (Task P))
      → Stands ds ts
      → Stands ds (resume_at n k now answer st ts).1
  unfolding resume_at Stands
  resume_at-Stands k now answer st [] [] v = tt
  resume_at-Stands k now answer st [] (t ∷ ts) v = absurd v
  resume_at-Stands k now answer st (d ∷ ds) [] v = absurd v
  resume_at-Stands zero now answer st (d ∷ ds) ((device, stage) ∷ ts) (same, v, vs) = (
    resume-device now answer st (device, stage) ∙ same,
    subst (λ x. NamesStage x (resume n now answer st (device, stage)).1.1) same
        (resume-NamesStage now answer st device stage
          (subst (λ x. NamesStage x stage) (sym same) v)),
    vs,
  )
  resume_at-Stands (suc k) now answer st (d ∷ ds) (t ∷ ts) (same, v, vs) =
      (same, v, resume_at-Stands k now answer st ds ts vs)

  pub fan_out-Stands :
      (events : List (ℕ × Instant × Outcome)) (st : AppState P) (ds : List Device)
      (ts : List (Task P))
      → Stands ds ts
      → Stands ds (fan_out n events st ts).1
  unfolding fan_out
  fan_out-Stands [] st ds ts v = v
  fan_out-Stands ((k, now, answer) ∷ events) st ds ts v =
      fan_out-Stands events (resume_at n k now answer st ts).0 ds (resume_at n k now answer st ts).1
        (resume_at-Stands k now answer st ds ts v)

pub tasks_of-Stands {ℓ} : (P : Type ℓ) (ds : List Device) → Stands ds (tasks_of {P = P} ds)
unfolding Stands tasks_of NamesStage
tasks_of-Stands P [] = tt
tasks_of-Stands P (d ∷ ds) = (refl, tt, tasks_of-Stands P ds)

pub join-Settles {ℓ} :
    {P : Type ℓ} (ds : List Device) (ts : List (Task P)) (xs : List Disposition)
    → Stands ds ts
    → join ts ≡ some xs
    → Settles ds xs
unfolding Stands Settles NamesStage join
join-Settles [] [] xs v e = let same : [] ≡ xs = ground (arith, e) in subst (Settles []) same tt
join-Settles [] (t ∷ ts) xs v e = absurd v
join-Settles (d ∷ ds) [] xs v e = absurd v
join-Settles (d ∷ ds) ((device, none) ∷ ts) xs v e = absurd (ground (arith, e))
join-Settles (d ∷ ds) ((device, some (Stage.calling p)) ∷ ts) xs v e = absurd (ground (arith, e))
join-Settles (d ∷ ds) ((device, some (Stage.settled x)) ∷ ts) xs (same, v, vs) e =
    elim (Option-cases (join ts)) [
      | inl absent ↦ absurd (ground (arith, absent, e))
      | inr (ys, joined) ↦
          let same : x ∷ ys ≡ xs = ground (arith, joined, e) in
          subst (Settles (d ∷ ds)) same (v, join-Settles ds ts ys vs joined)
    ]
