-- ===== src/Gateway/Reported.antt =====
-- `notify` on a pushkey that the poll side has reported, beside any other devices.
pub mod Kept
pub mod Tasks
use pincerbell.Base.{
  ℕ, zero, suc, ◌+◌, ◌<◌, ◌≤◌, ◌≡◌, refl, sym, ap, subst, Option, none, some, List, [], ◌∷◌, String,
  Result, ok, All, Any, Result-cases, Bool-cases, Option-cases, inl, inr, arith, string_eq, false,
  true, ◌∙◌, ◌⊎◌,
}
use mathlib.Core.Option
use pincerbell.Time.{Instant, is_zero}
use pincerbell.HashMap
use pincerbell.HashMap.{HashMap}
use pincerbell.Api.{Notification, Device}
use pincerbell.Http.{Outcome}
use pincerbell.Dedup.{DedupCache, is_duplicate_at}
use pincerbell.Queue
use pincerbell.QueueSide.{QueueState, is_rejected}
use pincerbell.Gateway.{
  AppState, Disposition, Stage, start, finish, without_provider, queue_one, enqueue_one,
  is_suppressed,
}
use pincerbell.Gateway.Endpoints.{
  start_rejected, acknowledged, acknowledged_rejects, queue_ack-state,
}
use pincerbell.Gateway.Ending.{respond-eq-ok}
use pincerbell.Gateway.Settling.{Stands, fan_out-Stands, tasks_of-Stands}
use pincerbell.Gateway.QueueApi.{queue_ack, with_queue}
use pincerbell.Queue.Wire.{RejectedPushkey}
use pincerbell.Dedup
use pincerbell.Dedup.Invariant
use pincerbell.Gateway.Notify.{
  Task, Refusal, NotifyResponse, fan_out, resume, resume_at, tasks_of, join, respond, notify,
  rejected_of,
}
use Tasks.{Rejects, Any-rejected_of, RejectedStage, Marked, Told, fan_out-Told, tasks_of-Told}
use Kept.{record_of, Same, start-Same, finish-Same}

module _ {ℓ} {P : Type ℓ} (app_id pushkey : String) (from until : Instant) where
  -- The rejections of settled tasks have the pushkey.
  join-Told :
      (ds : List Device) (ts : List (Task P)) (xs : List Disposition)
      → Stands ds ts
      → All (Told app_id pushkey from until) ts
      → join ts ≡ some xs
      → Any (λ d. (d.app_id ≡ app_id) × (d.pushkey ≡ pushkey)) ds
      → Any (λ k. k ≡ pushkey) (rejected_of xs)
  unfolding Stands Told join RejectedStage
  join-Told [] ts xs v told e found = absurd found
  join-Told (d ∷ ds) [] xs v told e found = absurd v
  join-Told (d ∷ ds) ((device, none) ∷ ts) xs v told e found = absurd (ground (arith, e))
  join-Told (d ∷ ds) ((device, some (Stage.calling p)) ∷ ts) xs v told e found =
      absurd (ground (arith, e))
  join-Told (d ∷ ds) ((device, some (Stage.settled x)) ∷ ts) xs (same, _, v) (told, tolds) e found =
      elim (Option-cases (join ts)) [
        | inl absent ↦ absurd (ground (arith, absent, e))
        | inr (ys, joined) ↦
            let all : x ∷ ys ≡ xs = ground (arith, joined, e) in
            subst (λ v'. Any (λ k. k ≡ pushkey) (rejected_of v')) all
              (Any-rejected_of pushkey x ys (elim found [
                | inl (app, key) ↦ inl (
                    told (ap (λ (a : Device). a.app_id) same ∙ app)
                      (ap (λ (a : Device). a.pushkey) same ∙ key))
                | inr rest ↦ inr (join-Told ds ts ys v tolds joined rest)
              ]))
      ]

  notify-Marked :
      (events : List (ℕ × Instant × Outcome)) (st : AppState P) (n : Notification)
      (a : NotifyResponse)
      → All (λ e. (from ≤ e.1) × (e.1 < until)) events
      → Marked app_id pushkey from until st
      → Any (λ d. (d.app_id ≡ app_id) × (d.pushkey ≡ pushkey)) n.devices
      → (notify events st n).1 ≡ some (ok a)
      → Any (λ k. k ≡ pushkey) a.rejected
  unfolding notify
  notify-Marked events st n a within m found given =
      let ts : List (Task P) = (fan_out n events st (tasks_of n.devices)).1 in
      elim (Option-cases (join ts)) [
        | inl absent ↦ absurd (ground (arith, absent, given))
        | inr (xs, joined) ↦
            let same : respond xs ≡ ok a = ground (arith, joined, given) in
            subst (λ v. Any (λ k. k ≡ pushkey) v) (sym ((respond-eq-ok xs a).0 same).1)
              (join-Told n.devices ts xs
                (fan_out-Stands n events st n.devices (tasks_of n.devices)
                  (tasks_of-Stands P n.devices))
                (fan_out-Told app_id pushkey from until n events st (tasks_of n.devices) within m
                  (tasks_of-Told P app_id pushkey from until n.devices))
                joined found)
      ]

-- After an accepted acknowledgement that reports one pushkey as invalid, every request with that
-- device that is answered with a 200 within the record's `ttl` has the pushkey among the rejected
-- ones, whatever other devices it has, in whatever order their deliveries go on, and whatever the
-- backends answer. This asks that the pushkey's app is not configured here, that the pushkey was
-- not reported within `ttl` before, that the record is consistent, on and holds entries at all, and
-- that the clock does not run back.
pub notify_tells_reported {ℓ} :
    {P : Type ℓ} (sha256 : String → List ℕ) (st st' : AppState P) (q : QueueState) (now : Instant)
    (header : Option String) (acked : List ℕ) (r : RejectedPushkey) (n : Notification)
    (events : List (ℕ × Instant × Outcome)) (a : NotifyResponse)
    → queue_ack sha256 st now header (record { acked = acked; rejected_pushkeys = r ∷ [] }) ≡ ok st'
    → st.queue ≡ some q
    → Dedup.Invariant.IsValid q.rejected
    → is_zero q.rejected.ttl ≡ false
    → 0 < q.rejected.max_entries
    → is_rejected q now r.app_id r.pushkey ≡ false
    → HashMap.get st.providers r.app_id ≡ none
    → Any (λ d. (d.app_id ≡ r.app_id) × (d.pushkey ≡ r.pushkey)) n.devices
    → All (λ e. (now ≤ e.1) × (e.1 < now + q.rejected.ttl)) events
    → (notify events st' n).1 ≡ some (ok a)
    → Any (λ k. k ≡ r.pushkey) a.rejected
unfolding Marked record_of is_rejected with_queue
notify_tells_reported sha256 st st' q now header acked r n events a done there v on pos new absent
      found within given =
    let marked : Marked r.app_id r.pushkey now (now + q.rejected.ttl) st' =
      subst (Marked r.app_id r.pushkey now (now + q.rejected.ttl))
        (queue_ack-state sha256 st st' q now header acked r done there)
        (
          absent,
          (
            (acknowledged q now acked r).rejected,
            refl,
            λ t lo hi. acknowledged_rejects q now t acked r v on pos new lo hi,
          ),
        ) in
    notify-Marked r.app_id r.pushkey now (now + q.rejected.ttl) events st' n a within marked found
      given
