-- ===== src/Gateway/Fanout.antt =====
-- The answer of `notify`, in whatever order its deliveries go on.
use pincerbell.Base.{
  ℕ, suc, ◌<◌, ◌≡◌, refl, subst, some, List, [], ◌∷◌, String, Result, ok, err, ltb, none, arith,
  Bool-cases, Option-cases, inl, inr, string_eq,
}
use pincerbell.Time.{Instant}
use pincerbell.Api.{Notification, Device}
use pincerbell.Http.{Outcome}
use pincerbell.Gateway.{AppState, Disposition, Stage}
use pincerbell.Gateway.Notify.{
  Task, Refusal, NotifyResponse, fan_out, tasks_of, join, respond, notify, rejected_of,
  transient_of,
}
use pincerbell.Gateway.Settling.{Stands, fan_out-Stands, tasks_of-Stands}

-- All tasks have ended, and this many of them with a transient failure.
pub data Fails {ℓ} {P : Type ℓ} : List (Task P) → ℕ → Type ℓ where
  no_more : Fails [] 0
  served :
      {d : Device} {ts : List (Task P)} {k : ℕ}
      → Fails ts k
      → Fails ((d, some (Stage.settled Disposition.fine)) ∷ ts) k
  refused :
      {d : Device} {pushkey : String} {ts : List (Task P)} {k : ℕ}
      → Fails ts k
      → Fails ((d, some (Stage.settled (Disposition.reject pushkey))) ∷ ts) k
  failed :
      {d : Device} {ts : List (Task P)} {k : ℕ}
      → Fails ts k
      → Fails ((d, some (Stage.settled Disposition.transient)) ∷ ts) (suc k)

-- All tasks have ended, none with a transient failure, and these pushkeys are those of the
-- rejections, in the tasks' order.
pub data Reports {ℓ} {P : Type ℓ} : List (Task P) → List String → Type ℓ where
  nobody : Reports [] []
  spared :
      {d : Device} {ts : List (Task P)} {ks : List String}
      → Reports ts ks
      → Reports ((d, some (Stage.settled Disposition.fine)) ∷ ts) ks
  named :
      {d : Device} {pushkey : String} {ts : List (Task P)} {ks : List String}
      → Reports ts ks
      → Reports ((d, some (Stage.settled (Disposition.reject pushkey))) ∷ ts) (pushkey ∷ ks)

-- What an answer to `notify` says of its tasks.
pub IsAnswerTo {ℓ} : {P : Type ℓ} → List (Task P) → Result NotifyResponse Refusal → Type ℓ
IsAnswerTo ts (ok r) = Reports ts r.rejected
IsAnswerTo ts (err e) = (k : ℕ) × (e ≡ Refusal.bad_gateway k) × (0 < k) × Fails ts k

module _ {ℓ} {P : Type ℓ} where
  -- The dispositions of tasks that have ended, against what the answer is made of.
  EndAs : List (Task P) → List Disposition → Type ℓ
  EndAs ts xs = Fails ts (transient_of xs) × (transient_of xs ≡ 0 → Reports ts (rejected_of xs))

  EndAs-settled :
      (device : Device) (x : Disposition) (ts : List (Task P)) (xs : List Disposition)
      → EndAs ts xs
      → EndAs ((device, some (Stage.settled x)) ∷ ts) (x ∷ xs)
  unfolding EndAs transient_of rejected_of
  EndAs-settled device Disposition.fine ts xs (fails, reports) =
      (served fails, λ calm. spared (reports calm))
  EndAs-settled device (Disposition.reject pushkey) ts xs (fails, reports) =
      (refused fails, λ calm. named (reports calm))
  EndAs-settled device Disposition.transient ts xs (fails, reports) =
      (failed fails, λ calm. absurd (omega (arith, calm)))

  join-EndAs : (ts : List (Task P)) (xs : List Disposition) → join ts ≡ some xs → EndAs ts xs
  unfolding EndAs join transient_of rejected_of
  join-EndAs [] xs e =
      let same : [] ≡ xs = ground (arith, e) in subst (EndAs []) same (no_more, λ calm. nobody)
  join-EndAs ((device, none) ∷ ts) xs e = absurd (ground (arith, e))
  join-EndAs ((device, some (Stage.calling p)) ∷ ts) xs e = absurd (ground (arith, e))
  join-EndAs ((device, some (Stage.settled x)) ∷ ts) xs e = elim (Option-cases (join ts)) [
    | inl absent ↦ absurd (ground (arith, absent, e))
    | inr (ys, joined) ↦
        let same : x ∷ ys ≡ xs = ground (arith, joined, e) in
        subst (EndAs ((device, some (Stage.settled x)) ∷ ts)) same
          (EndAs-settled device x ts ys (join-EndAs ts ys joined))
  ]

  respond-IsAnswerTo :
      (ts : List (Task P)) (xs : List Disposition) → EndAs ts xs → IsAnswerTo ts (respond xs)
  unfolding EndAs respond IsAnswerTo
  respond-IsAnswerTo ts xs (fails, reports) = elim (Bool-cases (ltb 0 (transient_of xs))) [
    | inl some_failed ↦
        rw (some_failed, respond) (transient_of xs, refl, ground (arith, some_failed), fails)
    | inr none_failed ↦ rw (none_failed, respond) (reports (ground (arith, none_failed)))
  ]

-- In whatever order the deliveries of a request go on and whatever the backends answer, `notify`
-- answers only once each of its devices is settled, each rejection being that of the device's own
-- pushkey: where deliveries failed transiently, with a 502 that gives their number, and else with a
-- 200 that has the pushkeys of exactly the rejected devices, in the devices' order.
pub notify-IsAnswerTo {ℓ} :
    {P : Type ℓ} (events : List (ℕ × Instant × Outcome)) (st : AppState P) (n : Notification)
    (answer : Result NotifyResponse Refusal)
    → (notify events st n).1 ≡ some answer
    → Stands n.devices (fan_out n events st (tasks_of n.devices)).1
      × IsAnswerTo (fan_out n events st (tasks_of n.devices)).1 answer
unfolding notify
notify-IsAnswerTo {P = P} events st n answer given =
    let ts : List (Task P) = (fan_out n events st (tasks_of n.devices)).1 in
    elim (Option-cases (join ts)) [
      | inl absent ↦ absurd (ground (arith, absent, given))
      | inr (xs, joined) ↦
          let same : respond xs ≡ answer = ground (arith, joined, given) in
          (
            fan_out-Stands n events st n.devices (tasks_of n.devices) (tasks_of-Stands P n.devices),
            subst (IsAnswerTo ts) same (respond-IsAnswerTo ts xs (join-EndAs ts xs joined)),
          )
    ]
