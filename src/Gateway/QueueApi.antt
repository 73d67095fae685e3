-- ===== src/Gateway/QueueApi.antt =====
-- src/gateway.rs: the endpoints of the queue side.
use pincerbell.Base.{
  ℕ, ◌+◌, Bool, false, Option, none, some, List, [], ◌∷◌, String, string_eq, Result, ok, err,
  if◌then◌else◌, ◌>>=◌, ltb,
}
use text.Mathlib.Text.{starts_with}
use Prim.Native.String.{slice, len}
use pincerbell.Time.{Instant, from_secs}
use pincerbell.Queue
use pincerbell.Queue.Runs
use pincerbell.Queue.Wire.{PollRequest, PollResponse, RejectedPushkey, AckRequest}
use pincerbell.QueueSide.{QueueState, verify_token, report_rejected}
use pincerbell.Gateway.{AppState}
use pincerbell.Gateway.Notify.{Refusal, not_found, unauthorized}

module _ (sha256 : String → List ℕ) where
  -- `header` is the Authorization header, if it is there and `HeaderValue::to_str` gives its text.
  unfoldable pub is_authorized : QueueState → Option String → Bool
  is_authorized q none = false
  is_authorized q (some v) =
      if starts_with v "Bearer " then verify_token sha256 q (slice v 7 (len v)) else false

  unfoldable pub queue_auth {ℓ} :
      {P : Type ℓ} → AppState P → Option String → Result QueueState Refusal
  unfolding is_authorized
  queue_auth st header = elim st.queue [
    | none ↦ err not_found
    | some q ↦ if is_authorized q header then ok q else err unauthorized
  ]

-- `unwrap_or(30).min(60)`
unfoldable pub hold_secs : PollRequest → ℕ
hold_secs req =
    let secs : ℕ = elim req.timeout_secs [ none ↦ 30 | some s ↦ s ] in
    if ltb 60 secs then 60 else secs

-- `unwrap_or(100).clamp(1, 1000)`
unfoldable pub batch_size : PollRequest → ℕ
batch_size req =
    let size : ℕ = elim req.max_batch [ none ↦ 100 | some m ↦ m ] in
    if ltb size 1 then 1 else if ltb 1000 size then 1000 else size

-- The wake-ups that come before the deadline.
unfoldable pub in_time :
    Instant → List (List Queue.Runs.Call × Instant) → List (List Queue.Runs.Call × Instant)
in_time deadline [] = []
in_time deadline ((others, later) ∷ wakeups) =
    let rest = in_time deadline wakeups in if ltb later deadline then (others, later) ∷ rest else []

unfoldable pub with_queue {ℓ} : {P : Type ℓ} → AppState P → QueueState → AppState P
with_queue st q = record st { queue = some q }

-- The wake-ups are those of `poll_wait`.
unfoldable pub queue_poll {ℓ} :
    {P : Type ℓ}
    → (String → List ℕ)
    → AppState P
    → Instant
    → List (List Queue.Runs.Call × Instant)
    → Option String
    → PollRequest
    → Result (PollResponse × AppState P) Refusal
unfolding queue_auth hold_secs batch_size in_time with_queue
queue_poll sha256 st now wakeups header req = do
  q ← queue_auth sha256 st header
  ok (
      let (entries, queue') =
        Queue.Runs.poll_wait (batch_size req) now
          (in_time (now + from_secs (hold_secs req)) wakeups) q.queue in
      (record { entries = entries }, with_queue st (record q { queue = queue' })))

-- The loop of `queue_ack`.
unfoldable pub report_all : QueueState → Instant → List RejectedPushkey → QueueState
report_all q now [] = q
report_all q now (r ∷ rs) = report_all (report_rejected q now r.app_id r.pushkey) now rs

-- The answer is an empty object.
unfoldable pub queue_ack {ℓ} :
    {P : Type ℓ}
    → (String → List ℕ)
    → AppState P
    → Instant
    → Option String
    → AckRequest
    → Result (AppState P) Refusal
unfolding queue_auth report_all with_queue
queue_ack sha256 st now header req = do
  q ← queue_auth sha256 st header
  ok (
      with_queue st
        (report_all (record q { queue = Queue.ack q.queue req.acked }) now req.rejected_pushkeys))
