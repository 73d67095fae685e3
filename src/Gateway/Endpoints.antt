-- ===== src/Gateway/Endpoints.antt =====
-- The endpoints of the queue side: who may call them, and what an acknowledgement does to later
-- notifications.
use pincerbell.Base.{
  Result, sym, ℕ, ◌+◌, ◌<◌, ◌≤◌, ◌≡◌, ◌↔◌, ◌∙◌, refl, ap, subst, true, false, Option, none, some,
  List, [], ◌∷◌, String, ok, Result-cases, Bool-cases, Option-cases, arith, inl, inr, string_eq,
}
use mathlib.Core.Option
use Prim.Native.String.{slice, len}
use text.Mathlib.Text.{starts_with}
use pincerbell.Time.{Instant, is_zero}
use pincerbell.HashMap
use pincerbell.Api.{Notification, Device}
use pincerbell.Dedup
use pincerbell.Dedup.Invariant
use pincerbell.Queue
use pincerbell.Queue.Wire.{RejectedPushkey}
use pincerbell.QueueSide.{QueueState, is_rejected, report_rejected, verify_token}
use pincerbell.QueueSide.Laws.{bytes_beq_iff, is_rejected-report_rejected}
use pincerbell.Gateway.{AppState, Disposition, Stage, start, without_provider, queue_one}
use pincerbell.Http.{Outcome}
use pincerbell.Gateway.Notify.{
  Task, NotifyResponse, Refusal, notify, fan_out, resume_at, resume, tasks_of, join, respond,
  transient_of, rejected_of,
}
use pincerbell.Gateway.QueueApi.{queue_auth, is_authorized, queue_ack, report_all, with_queue}

is_authorized_iff :
    (sha256 : String → List ℕ) (q : QueueState) (header : Option String)
    → (is_authorized sha256 q header ≡ true) ↔ (
        (v : String) × (header ≡ some v)
        × (starts_with v "Bearer " ≡ true)
        × (sha256 (slice v 7 (len v)) ≡ q.token_hash))
unfolding is_authorized verify_token
is_authorized_iff sha256 q none =
    (λ h. absurd (ground (arith, h)), λ (v, e, b, h). absurd (ground (arith, e)))
is_authorized_iff sha256 q (some v) = elim (Bool-cases (starts_with v "Bearer ")) [
  | inl bearer ↦ (
    λ h. (
      v,
      refl,
      bearer,
      (bytes_beq_iff (sha256 (slice v 7 (len v))) q.token_hash).0 (ground (arith, bearer, h)),
    ),
    λ (w, e, _, h).
        rw (bearer, is_authorized)
          ((bytes_beq_iff (sha256 (slice v 7 (len v))) q.token_hash).1 (ground (arith, e, h))),
  )
  | inr other ↦
      (λ h. absurd (ground (arith, other, h)), λ (w, e, b, h). absurd (ground (arith, e, b, other)))
]

-- The queue's endpoints let a request through exactly if the instance is in queue mode and the
-- request's Authorization header is text that starts with "Bearer " and goes on with a token whose
-- digest is the stored one.
pub queue_auth-eq-ok {ℓ} :
    {P : Type ℓ} (sha256 : String → List ℕ) (st : AppState P) (header : Option String)
    (q : QueueState)
    → (queue_auth sha256 st header ≡ ok q) ↔ (
        (st.queue ≡ some q)
        × ((v : String) × (header ≡ some v)
            × (starts_with v "Bearer " ≡ true)
            × (sha256 (slice v 7 (len v)) ≡ q.token_hash)))
unfolding queue_auth
queue_auth-eq-ok sha256 st header q = elim (Option-cases st.queue) [
  | inl absent ↦ (
    λ h. absurd (ground (arith, absent, h)),
    λ (there, _). absurd (ground (arith, absent, there)),
  )
  | inr (q', there) ↦ elim (Bool-cases (is_authorized sha256 q' header)) [
    | inl granted ↦ (
      λ h.
          let same : q' ≡ q = ground (arith, there, granted, h) in
          (
            there ∙ ap (λ (x : QueueState). some x) same,
            subst
                (λ (x : QueueState).
                  (v : String) × (header ≡ some v)
                  × (starts_with v "Bearer " ≡ true)
                  × (sha256 (slice v 7 (len v)) ≡ x.token_hash))
                same ((is_authorized_iff sha256 q' header).0 granted),
          ),
      λ (here, _). ground (arith, there, granted, here),
    )
    | inr refused ↦ (
      λ h. absurd (ground (arith, there, refused, h)),
      λ (here, shown).
          let same : q' ≡ q = ground (arith, there, here) in
          absurd (ground (arith, refused, same, (is_authorized_iff sha256 q header).1 shown)),
    )
  ]
]

pub start_rejected {ℓ} :
    {P : Type ℓ} (st : AppState P) (q : QueueState) (now : Instant) (n : Notification)
    (device : Device)
    → HashMap.get st.providers device.app_id ≡ none
    → st.queue ≡ some q
    → is_rejected q now device.app_id device.pushkey ≡ true
    → start st now n device ≡ (st, Stage.settled (Disposition.reject device.pushkey))
unfolding start without_provider queue_one
start_rejected st q now n device absent there bad =
    simp (absent, there, bad, start, without_provider, queue_one) refl

-- The state after an acknowledgement of one report.
pub acknowledged : QueueState → Instant → List ℕ → RejectedPushkey → QueueState
unfolding report_rejected
acknowledged q now acked r =
    report_rejected (record q { queue = Queue.ack q.queue acked }) now r.app_id r.pushkey

pub queue_ack-state {ℓ} :
    {P : Type ℓ} (sha256 : String → List ℕ) (st st' : AppState P) (q : QueueState) (now : Instant)
    (header : Option String) (acked : List ℕ) (r : RejectedPushkey)
    → queue_ack sha256 st now header (record { acked = acked; rejected_pushkeys = r ∷ [] }) ≡ ok st'
    → st.queue ≡ some q
    → with_queue st (acknowledged q now acked r) ≡ st'
unfolding queue_ack report_all acknowledged
queue_ack-state sha256 st st' q now header acked r done there =
    elim (Result-cases (queue_auth sha256 st header)) [
      | inr (e, refused) ↦ absurd (ground (arith, refused, done))
      | inl (q', granted) ↦
          let same : q' ≡ q =
            ground (arith, ((queue_auth-eq-ok sha256 st header q').0 granted).0, there) in
          ground (arith, granted, same, done)
    ]

pub acknowledged_rejects :
    (q : QueueState) (now later : Instant) (acked : List ℕ) (r : RejectedPushkey)
    → Dedup.Invariant.IsValid q.rejected
    → is_zero q.rejected.ttl ≡ false
    → 0 < q.rejected.max_entries
    → is_rejected q now r.app_id r.pushkey ≡ false
    → now ≤ later
    → later < now + q.rejected.ttl
    → is_rejected (acknowledged q now acked r) later r.app_id r.pushkey ≡ true
unfolding acknowledged is_rejected
acknowledged_rejects q now later acked r v on pos new le within = ground (
  arith,
  new,
  is_rejected-report_rejected (record q { queue = Queue.ack q.queue acked }) now later r.app_id
      r.pushkey v on pos le,
)

-- A request for one device, which is rejected at once.
notify_alone {ℓ} :
    {P : Type ℓ} (st : AppState P) (later : Instant) (n : Notification) (device : Device)
    (answer : Outcome)
    → start st later n device ≡ (st, Stage.settled (Disposition.reject device.pushkey))
    → n.devices ≡ device ∷ []
    → notify ((0, later, answer) ∷ []) st n
      ≡ (st, some (ok (record { rejected = device.pushkey ∷ [] })))
unfolding notify fan_out resume_at resume tasks_of join respond transient_of rejected_of
notify_alone {P = P} st later n device answer settled alone =
    let ended : fan_out n ((0, later, answer) ∷ []) st ((device, none) ∷ [])
        ≡ (st, (device, some (Stage.settled (Disposition.reject device.pushkey))) ∷ []) =
      ap (λ (r : Stage P × AppState P). (r.1, (device, some r.0) ∷ []))
        (ap (λ (r : AppState P × Stage P). (r.1, r.0)) settled) in
    subst
      (λ ds.
        let (st', ts) = fan_out n ((0, later, answer) ∷ []) st (tasks_of ds) in
        ◌≡◌ {A = AppState P × Option (Result NotifyResponse Refusal)}
          (st', Option.map respond (join ts))
          (st, some (ok (record { rejected = device.pushkey ∷ [] }))))
      (sym alone)
      (ap (λ (r : AppState P × List (Task P)). (r.0, Option.map respond (join r.1))) ended)

-- After an accepted acknowledgement that reports one pushkey as invalid, a request for that device
-- alone is answered with a 200 that rejects the pushkey, for the record's `ttl`, and changes
-- nothing. This asks that the pushkey's app is not configured here, that the pushkey was not
-- reported within `ttl` before, that the record is consistent, on and holds entries at all, and
-- that the clock does not run back.
pub notify-queue_ack {ℓ} :
    {P : Type ℓ} (sha256 : String → List ℕ) (st st' : AppState P) (q : QueueState)
    (now later : Instant) (header : Option String) (acked : List ℕ) (r : RejectedPushkey)
    (n : Notification) (device : Device) (answer : Outcome)
    → queue_ack sha256 st now header (record { acked = acked; rejected_pushkeys = r ∷ [] }) ≡ ok st'
    → st.queue ≡ some q
    → Dedup.Invariant.IsValid q.rejected
    → is_zero q.rejected.ttl ≡ false
    → 0 < q.rejected.max_entries
    → is_rejected q now r.app_id r.pushkey ≡ false
    → device.app_id ≡ r.app_id
    → device.pushkey ≡ r.pushkey
    → HashMap.get st.providers device.app_id ≡ none
    → n.devices ≡ device ∷ []
    → now ≤ later
    → later < now + q.rejected.ttl
    → notify ((0, later, answer) ∷ []) st' n
      ≡ (st', some (ok (record { rejected = device.pushkey ∷ [] })))
unfolding with_queue
notify-queue_ack sha256 st st' q now later header acked r n device answer done there v on pos new
      app key absent alone le within =
    let settled =
      subst (λ x. start x later n device ≡ (x, Stage.settled (Disposition.reject device.pushkey)))
        (queue_ack-state sha256 st st' q now header acked r done there)
        (start_rejected (with_queue st (acknowledged q now acked r)) (acknowledged q now acked r)
          later n device absent refl
          (rw (app, key) (acknowledged_rejects q now later acked r v on pos new le within))) in
    notify_alone st' later n device answer settled alone
