-- ===== src/Gateway/Ending.antt =====
-- Every notification is answered, and with a 200 exactly if no delivery failed transiently.
use pincerbell.Base.{
  ℕ, zero, suc, ◌-◌, ◌<◌, ◌≤◌, ◌≡◌, ◌≢◌, ◌↔◌, refl, ap, Option, none, some, List, [], ◌∷◌, Result,
  ok, nat_beq, if◌then◌else◌, arith, Bool-cases, inl, inr, length, All, ltb,
}
use mathlib.Core.Option
use pincerbell.Time.{Instant}
use pincerbell.Api.{Notification, Device}
use pincerbell.Http.{Outcome}
use pincerbell.Gateway.{AppState, Disposition, Stage, start}
use pincerbell.Gateway.Notify.{
  Task, NotifyResponse, Refusal, resume, resume_at, fan_out, tasks_of, join, respond, notify,
  transient_of, rejected_of,
}

-- How often a task has to go on until it is settled.
unfoldable pub left {ℓ} : {P : Type ℓ} → Option (Stage P) → ℕ
left none = 2
left (some (Stage.calling p)) = 1
left (some (Stage.settled d)) = 0

unfoldable pub left_at {ℓ} : {P : Type ℓ} → ℕ → List (Task P) → ℕ
left_at k [] = 0
left_at zero (t ∷ ts) = left t.1
left_at (suc k) (t ∷ ts) = left_at k ts

-- How often a task goes on in a list of events.
unfoldable pub turns {ℓ} : {A : Type ℓ} → ℕ → List (ℕ × Instant × A) → ℕ
turns k [] = 0
turns k ((j, now, answer) ∷ events) =
    let rest = turns k events in if nat_beq j k then suc rest else rest

left_of_stage {ℓ} : {P : Type ℓ} (s : Stage P) → left (some s) ≤ 1
unfolding left
left_of_stage (Stage.calling p) = omega arith
left_of_stage (Stage.settled d) = omega arith

module _ {ℓ} {P : Type ℓ} (n : Notification) where
  left-resume :
      (now : Instant) (answer : Outcome) (st : AppState P) (t : Task P)
      → left (resume n now answer st t).1.1 ≤ left t.1 - 1
  unfolding resume left
  left-resume now answer st (device, none) = omega (arith, left_of_stage (start st now n device).1)
  left-resume now answer st (device, some (Stage.calling p)) = omega arith
  left-resume now answer st (device, some (Stage.settled d)) = omega arith

  left-resume_at :
      (j : ℕ) (now : Instant) (answer : Outcome) (st : AppState P) (ts : List (Task P)) (k : ℕ)
      → left_at k (resume_at n j now answer st ts).1 ≤ left_at k ts - (if nat_beq j k then 1 else 0)
  unfolding resume_at left_at
  left-resume_at j now answer st [] k = omega arith
  left-resume_at zero now answer st (t ∷ ts) zero = left-resume now answer st t
  left-resume_at zero now answer st (t ∷ ts) (suc k) = ground arith
  left-resume_at (suc j) now answer st (t ∷ ts) zero = ground arith
  left-resume_at (suc j) now answer st (t ∷ ts) (suc k) =
      ground (arith, left-resume_at j now answer st ts k)

  left-fan_out :
      (events : List (ℕ × Instant × Outcome)) (st : AppState P) (ts : List (Task P)) (k : ℕ)
      → left_at k (fan_out n events st ts).1 ≤ left_at k ts - turns k events
  unfolding fan_out turns
  left-fan_out [] st ts k = omega arith
  left-fan_out ((j, now, answer) ∷ events) st ts k =
      let r = resume_at n j now answer st ts in
      ground (arith, left-resume_at j now answer st ts k, left-fan_out events r.0 r.1 k)

left_at-tasks_of {ℓ} :
    (P : Type ℓ) (ds : List Device) (k : ℕ)
    → left_at k (tasks_of {P = P} ds) ≤ (if ltb k (length ds) then 2 else 0)
unfolding left_at tasks_of left
left_at-tasks_of P [] k = ground arith
left_at-tasks_of P (d ∷ ds) zero = ground arith
left_at-tasks_of P (d ∷ ds) (suc k) = ground (arith, left_at-tasks_of P ds k)

pub join_of_none_left {ℓ} :
    {P : Type ℓ} (ts : List (Task P))
    → ((k : ℕ) → left_at k ts ≡ 0)
    → (xs : List Disposition) × (join ts ≡ some xs)
unfolding left_at left join
join_of_none_left [] h = ([], refl)
join_of_none_left ((device, none) ∷ ts) h = absurd (omega (arith, h 0))
join_of_none_left ((device, some (Stage.calling p)) ∷ ts) h = absurd (omega (arith, h 0))
join_of_none_left ((device, some (Stage.settled d)) ∷ ts) h =
    let (xs, joined) = join_of_none_left ts (λ k. h (suc k)) in
    (d ∷ xs, ap (Option.map (λ (ds : List Disposition). d ∷ ds)) joined)

-- `notify` answers once each of its devices has gone on twice, in whatever order: up to the call of
-- its backend, and from the backend's answer to the end.
notify_answers {ℓ} :
    {P : Type ℓ} (events : List (ℕ × Instant × Outcome)) (st : AppState P) (n : Notification)
    → ((k : ℕ) → k < length n.devices → 2 ≤ turns k events)
    → (answer : Result NotifyResponse Refusal) × ((notify events st n).1 ≡ some answer)
unfolding notify
notify_answers {P = P} events st n often =
    let (xs, joined) = join_of_none_left (fan_out n events st (tasks_of n.devices)).1 (λ k. ground (
      arith,
      often k,
      left-fan_out n events st (tasks_of n.devices) k,
      left_at-tasks_of P n.devices k,
    )) in
    (respond xs, ap (Option.map respond) joined)

transient_of-eq-zero :
    (xs : List Disposition) → (transient_of xs ≡ 0) ↔ All (λ d. d ≢ Disposition.transient) xs
unfolding transient_of
transient_of-eq-zero [] = (λ h. tt, λ h. refl)
transient_of-eq-zero (Disposition.fine ∷ xs) =
    (λ h. (ground arith, (transient_of-eq-zero xs).0 h), λ h. (transient_of-eq-zero xs).1 h.1)
transient_of-eq-zero (Disposition.reject pushkey ∷ xs) =
    (λ h. (ground arith, (transient_of-eq-zero xs).0 h), λ h. (transient_of-eq-zero xs).1 h.1)
transient_of-eq-zero (Disposition.transient ∷ xs) =
    (λ h. absurd (omega (arith, h)), λ h. absurd (h.0 refl))

-- The request succeeds exactly if no device failed transiently, and the answer is then the list of
-- the rejected pushkeys.
pub respond-eq-ok :
    (xs : List Disposition) (r : NotifyResponse)
    → (respond xs ≡ ok r)
      ↔ (All (λ d. d ≢ Disposition.transient) xs × (r.rejected ≡ rejected_of xs))
unfolding respond
respond-eq-ok xs r = elim (Bool-cases (ltb 0 (transient_of xs))) [
  | inl failed ↦ (
    λ h. absurd (ground (arith, h, failed)),
    λ (clean, _). absurd (ground (arith, failed, (transient_of-eq-zero xs).1 clean)),
  )
  | inr calm ↦ (
    λ h. ((transient_of-eq-zero xs).0 (ground (arith, calm)), ground (arith, h, calm)),
    λ (_, same). ground (arith, calm, same),
  )
]
