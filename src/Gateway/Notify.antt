-- ===== src/Gateway/Notify.antt =====
-- src/gateway.rs: `notify`. Its concurrent deliveries are tasks, which go on in the order of a list
-- of events.
use pincerbell.Base.{
  ℕ, zero, suc, Option, none, some, List, [], ◌∷◌, String, string_eq, Result, ok, err,
  if◌then◌else◌, ltb,
}
use mathlib.Core.Option
use pincerbell.Time.{Instant}
use pincerbell.Api.{Notification, Device}
use pincerbell.Http.{Outcome}
use pincerbell.Gateway.{AppState, Disposition, Stage, calling, settled, start, finish}

-- The answer of `notify` to the dispositions of its devices: the rejected pushkeys, or the number
-- of transient failures that stands in the 502.
unfoldable pub rejected_of : List Disposition → List String
rejected_of [] = []
rejected_of (Disposition.fine ∷ ds) = rejected_of ds
rejected_of (Disposition.reject pushkey ∷ ds) = pushkey ∷ rejected_of ds
rejected_of (Disposition.transient ∷ ds) = rejected_of ds

unfoldable pub transient_of : List Disposition → ℕ
transient_of [] = 0
transient_of (Disposition.fine ∷ ds) = transient_of ds
transient_of (Disposition.reject pushkey ∷ ds) = transient_of ds
transient_of (Disposition.transient ∷ ds) = suc (transient_of ds)

-- What a handler answers in place of a 200.
pub data Refusal : Type 0 where
  bad_gateway : ℕ → Refusal
  not_found : Refusal
  unauthorized : Refusal

pub record NotifyResponse : Type 0 where
  pub rejected : List String

unfoldable pub respond : List Disposition → Result NotifyResponse Refusal
unfolding rejected_of transient_of
respond ds =
    if ltb 0 (transient_of ds)
    then err (bad_gateway (transient_of ds))
    else ok (record { rejected = rejected_of ds })

-- One device of a running `notify`: not looked at yet, or at some stage.
abbrev pub Task {ℓ} : Type ℓ → Type ℓ
Task P = Device × Option (Stage P)

module _ {ℓ} {P : Type ℓ} (n : Notification) where
  -- One task goes on: it runs up to its call of the backend, or from the answer to the end.
  unfoldable pub resume : Instant → Outcome → AppState P → Task P → AppState P × Task P
  unfolding start finish
  resume now answer st (device, none) =
      let (st', stage) = start st now n device in (st', (device, some stage))
  resume now answer st (device, some (calling p)) =
      let (st', d) = finish st now n device answer in (st', (device, some (settled d)))
  resume now answer st (device, some (settled d)) = (st, (device, some (settled d)))

  unfoldable pub resume_at :
      ℕ → Instant → Outcome → AppState P → List (Task P) → AppState P × List (Task P)
  unfolding resume
  resume_at k now answer st [] = (st, [])
  resume_at zero now answer st (t ∷ ts) = let (st', t') = resume now answer st t in (st', t' ∷ ts)
  resume_at (suc k) now answer st (t ∷ ts) =
      let (st', ts') = resume_at k now answer st ts in (st', t ∷ ts')

  -- `join_all` in any order: which task goes on, when, and what its backend has answered.
  unfoldable pub fan_out :
      List (ℕ × Instant × Outcome) → AppState P → List (Task P) → AppState P × List (Task P)
  unfolding resume_at
  fan_out [] st ts = (st, ts)
  fan_out ((k, now, answer) ∷ events) st ts =
      let (st', ts') = resume_at k now answer st ts in fan_out events st' ts'

unfoldable pub tasks_of {ℓ} : {P : Type ℓ} → List Device → List (Task P)
tasks_of [] = []
tasks_of (device ∷ ds) = (device, none) ∷ tasks_of ds

-- The dispositions, once every task is settled.
unfoldable pub join {ℓ} : {P : Type ℓ} → List (Task P) → Option (List Disposition)
join [] = some []
join ((device, none) ∷ ts) = none
join ((device, some (calling p)) ∷ ts) = none
join ((device, some (settled d)) ∷ ts) = Option.map (λ ds. d ∷ ds) (join ts)

-- The handler's answer, once there is one, and the state.
unfoldable pub notify {ℓ} :
    {P : Type ℓ}
    → List (ℕ × Instant × Outcome)
    → AppState P
    → Notification
    → AppState P × Option (Result NotifyResponse Refusal)
unfolding fan_out join tasks_of respond
notify events st n =
    let (st', ts) = fan_out n events st (tasks_of n.devices) in (st', Option.map respond (join ts))
