-- ===== src/Relay/Cycle.antt =====
-- A cycle of the poll side against the queue: the poll, the deliveries, and the acknowledgement that
-- arrives.
use pincerbell.Base.{
  ℕ, ◌+◌, ◌≡◌, refl, true, false, none, some, List, String, Result, ok, any, Any, nat_beq, arith,
  Bool-cases, nat_eq, inl, inr,
}
use pincerbell.Time.{Instant}
use pincerbell.HashMap
use pincerbell.Json.{Value}
use pincerbell.Api.{Notification, Device}
use pincerbell.Queue.{Entry, NotificationQueue, take_at, ack}
use pincerbell.Queue.Wire.{PollEntry, AckRequest}
use pincerbell.Queue.Held.{IsValid}
use pincerbell.Queue.Take.{entry_at, batch_of, queue_of, take_at-IsValid, take_at_batch}
use pincerbell.Queue.Ack.{leased-ack}
use pincerbell.Queue.Settled.{ack-Gone}
use pincerbell.Gateway.{Disposition}
use pincerbell.Poller.{PollReply, poll_once}
use pincerbell.Poller.Batches.{Acks, sent_ids, poll_once-Acks}

abbrev answer_of : List PollEntry → PollReply
answer_of entries = record { status = 200; body = ok (record { entries = entries }) }

module _ {ℓ} {S : Type ℓ} (read : Value → Result Notification String)
    (one : S → Notification → Device → S × Disposition) (send : AckRequest → Result ℕ String)
    (q : NotificationQueue) (now : Instant) (max_batch : ℕ) (s : S) where
  -- The ids that the cycle acknowledges.
  unfoldable pub settled_ids : List ℕ
  settled_ids =
      sent_ids read one
        (poll_once read one (ok (answer_of (batch_of (take_at q now max_batch)))) send s).1

  -- The queue behind the cycle.
  unfoldable pub queue_behind : NotificationQueue
  unfolding settled_ids
  queue_behind = ack (queue_of (take_at q now max_batch)) settled_ids

  -- What became of an entry of the batch: it is gone, or it is still leased to the poll.
  pub data Fared (p : PollEntry) : Type 0 where
    gone :
        any (λ acked. nat_beq acked p.id) settled_ids ≡ true
        → entry_at queue_behind p.id ≡ none
        → Fared p
    kept :
        (e : Entry)
        → any (λ acked. nat_beq acked p.id) settled_ids ≡ false
        → HashMap.get queue_behind.leased p.id ≡ some (now + q.lease, e)
        → p.notification ≡ e.payload
        → Fared p

  -- With nothing else calling a consistent queue between the poll and the acknowledgement, which
  -- arrives, a cycle acknowledges exactly the entries that cannot be read and those with no transient
  -- failure among their devices. Each of them is gone from the queue behind the cycle, and each other
  -- entry of the batch is still leased to the poll, with the payload that was handed out.
  pub poll_once-Fared :
      (p : PollEntry)
      → IsValid q.inner
      → Any (λ x. x ≡ p) (batch_of (take_at q now max_batch))
      → Acks read one s (batch_of (take_at q now max_batch)) settled_ids × Fared p
  unfolding settled_ids queue_behind
  poll_once-Fared p v here =
      let batch = batch_of (take_at q now max_batch) in
      let (e, _, payload, _, _, lent) = (take_at_batch q now max_batch v).1 p here in
      let q' = queue_of (take_at q now max_batch) in
      (
        poll_once-Acks read one (answer_of batch) send s batch refl refl,
        elim (Bool-cases (any (λ acked. nat_beq acked p.id) settled_ids)) [
          | inl sent ↦
              gone sent
                (ack-Gone q' settled_ids p.id (now + q.lease) e (take_at-IsValid q now max_batch v)
                  lent sent).nowhere
          | inr unsent ↦
              kept e unsent (ground (arith, (leased-ack q' settled_ids p.id).1, unsent, lent))
                payload
        ],
      )
