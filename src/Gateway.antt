-- ===== src/Gateway.antt =====
-- src/gateway.rs: the state and the pipeline of one device; Notify has the notify endpoint and
-- QueueApi the endpoints of the queue side. A backend is reached
-- through `Provider.deliver`, whose outcome comes from outside; what it answers is an argument, and
-- so is each reading of the clock. Log lines are left out.
pub mod Notify
pub mod Interleaved
pub mod QueueApi
pub mod Construction
pub mod Constructed
pub mod Backends
pub mod System
pub mod Retries
pub mod Rejections
pub mod Settling
pub mod Fanout
pub mod Queueing
pub mod Reported
pub mod Endpoints
pub mod Ending
pub mod Sample
mod Tests
use pincerbell.Base.{
  ℕ, zero, suc, ◌+◌, ◌≡◌, Bool, true, false, Option, none, some, List, [], ◌∷◌, ◌++◌, String, ◌==◌,
  string_eq, Result, ok, err, if◌then◌else◌, ◌>>=◌, leb, ltb, min, max, arith,
}
use mathlib.Core.Option
use text.Mathlib.Text.{starts_with}
use Prim.Native.String.{slice, len}
use pincerbell.Time.{Duration, Instant, from_secs}
use pincerbell.HashMap
use pincerbell.HashMap.{HashMap}
use pincerbell.Api.{Notification, Device}
use pincerbell.Config.{Config}
use pincerbell.Dedup
use pincerbell.Dedup.{DedupCache}
use pincerbell.Queue
use pincerbell.Queue.Runs
use pincerbell.Queue.Wire.{PollRequest, PollResponse, RejectedPushkey, AckRequest}
use pincerbell.QueueSide.{QueueState, verify_token, report_rejected, is_rejected}
use pincerbell.Http.{Outcome}

-- `P` is the type of the configured backends.
pub record AppState {ℓ} (P : Type ℓ) : Type ℓ where
  pub config : Config
  pub providers : HashMap String P
  pub dedup : DedupCache
  pub queue : Option QueueState

pub data Disposition : Type 0 where
  fine : Disposition
  reject : String → Disposition
  transient : Disposition

-- `event_id` is given, and the cache suppresses it.
unfoldable pub is_suppressed : DedupCache → Instant → Option String → Device → Bool
is_suppressed c now none device = false
is_suppressed c now (some event_id) device =
    Dedup.is_duplicate_at c now event_id device.app_id device.pushkey

-- What a delivered or queued notification leaves in the cache.
unfoldable pub record_delivery : DedupCache → Instant → Option String → Device → DedupCache
record_delivery c now none device = c
record_delivery c now (some event_id) device =
    Dedup.record_at c now event_id device.app_id device.pushkey

-- Where a device stands: its backend is being called, or it is settled.
pub data Stage {ℓ} (P : Type ℓ) : Type ℓ where
  calling : P → Stage P
  settled : Disposition → Stage P

module _ {ℓ} {P : Type ℓ} where
  -- The rest of `queue_one`, behind the two checks.
  unfoldable pub enqueue_one :
      AppState P → QueueState → Instant → Notification → Device → AppState P × Disposition
  unfolding record_delivery
  enqueue_one st q now n device = elim (Queue.enqueue q.queue now n device) [
    | ok queue' ↦ (
      record st {
        dedup = record_delivery st.dedup now n.event_id device;
        queue = some (record q { queue = queue' });
      },
      Disposition.fine,
    )
    | err e ↦ (st, Disposition.transient)
  ]

  -- It never waits, so that one reading of the clock stands for those of its calls.
  unfoldable pub queue_one :
      AppState P → QueueState → Instant → Notification → Device → AppState P × Disposition
  unfolding enqueue_one
  queue_one st q now n device =
      if is_rejected q now device.app_id device.pushkey
      then (st, Disposition.reject device.pushkey)
      else if is_suppressed st.dedup now n.event_id device
      then (st, Disposition.fine)
      else enqueue_one st q now n device

  -- A device whose app is not configured here.
  unfoldable pub without_provider :
      AppState P → Instant → Notification → Device → AppState P × Disposition
  unfolding queue_one
  without_provider st now n device = elim st.queue [
    | some q ↦ queue_one st q now n device
    | none ↦ (
      st,
      if st.config.reject_unknown_apps then Disposition.reject device.pushkey else Disposition.fine,
    )
  ]

  -- `deliver_one` up to its call of the backend.
  unfoldable pub start : AppState P → Instant → Notification → Device → AppState P × Stage P
  start st now n device = elim (HashMap.get st.providers device.app_id) [
    | none ↦ let (st', d) = without_provider st now n device in (st', settled d)
    | some provider ↦
        if is_suppressed st.dedup now n.event_id device
        then (st, settled Disposition.fine)
        else (st, calling provider)
  ]

  -- `deliver_one` from the backend's answer on.
  unfoldable pub finish :
      AppState P → Instant → Notification → Device → Outcome → AppState P × Disposition
  finish st now n device Outcome.delivered =
      (record st { dedup = record_delivery st.dedup now n.event_id device }, Disposition.fine)
  finish st now n device Outcome.rejected = (st, Disposition.reject device.pushkey)
  finish st now n device Outcome.skipped = (st, Disposition.fine)
  finish st now n device (Outcome.transient e) = (st, Disposition.transient)

  -- With nothing else going on during the call; `deliver` is that of the backends.
  unfoldable pub deliver_one :
      (P → Notification → Device → Outcome)
      → AppState P
      → Instant
      → Instant
      → Notification
      → Device
      → AppState P × Disposition
  unfolding start finish
  deliver_one deliver st now later n device =
      let (st', stage) = start st now n device in
      elim stage [
        | settled d ↦ (st', d)
        | calling p ↦ finish st' later n device (deliver p n device)
      ]
