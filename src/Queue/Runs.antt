-- ===== src/Queue/Runs.antt =====
-- Any history of calls on the queue, and the waiting poll.
use pincerbell.Base.{
  ℕ, suc, ◌+◌, ◌<◌, ◌≤◌, ◌≡◌, ◌∙◌, refl, Option, some, List, [], ◌∷◌, arith, length, ap, Any, subst,
  inl, inr, zero, ◌≢◌, Option-cases, nat_eq,
}
use pincerbell.Time.{Instant, Duration}
use pincerbell.HashMap
use pincerbell.HashMap.{HashMap}
use pincerbell.Json.{Value}
use pincerbell.Queue.Wire.{PollEntry}
use pincerbell.Queue.{
  CountKey, count_key_eq, u64_mod, Entry, Inner, NotificationQueue, new, enqueue_at, take_at, ack,
  reclaimed, reclaim, requeue, fill, settle, push_back, sort_desc, expired_ids,
}
use pincerbell.Queue.Held.{find, held, IsValid}
use pincerbell.Queue.Reclaim.{round}
use pincerbell.Queue.Fill.{fill_cases, forgotten, lent_to}
use pincerbell.Queue.Fates.{Fresh}
use pincerbell.Queue.Enqueue.{enqueue_at-IsValid}
use pincerbell.Queue.Take.{take_at-IsValid, take_at_delivers, entry_at, batch_of, queue_of}
use pincerbell.Queue.Ack.{settled, ack-IsValid}

-- A call on the queue, with the clock's reading.
pub data Call : Type 0 where
  enqueues : Instant → Value → Option CountKey → Call
  takes : Instant → ℕ → Call
  acks : List ℕ → Call

unfoldable pub step : NotificationQueue → Call → NotificationQueue
step q (enqueues now payload key) = enqueue_at q now payload key
step q (takes now max_batch) = queue_of (take_at q now max_batch)
step q (acks ids) = ack q ids

unfoldable pub run : NotificationQueue → List Call → NotificationQueue
run q [] = q
run q (c ∷ cs) = run (step q c) cs

-- `poll_wait`: a first attempt, and one more for each wake-up until the deadline fires. A wake-up
-- is what the other tasks did meanwhile, and the clock's reading after it.
unfoldable pub poll_wait :
    ℕ
    → Instant
    → List (List Call × Instant)
    → NotificationQueue
    → List PollEntry × NotificationQueue
poll_wait max_batch now [] q = take_at q now max_batch
poll_wait max_batch now ((others, later) ∷ wakeups) q = elim (batch_of (take_at q now max_batch)) [
  | [] ↦ poll_wait max_batch later wakeups (run (queue_of (take_at q now max_batch)) others)
  | p ∷ batch ↦ take_at q now max_batch
]

next_id-reclaim :
    (ttl : Duration) (now : Instant) (ids : List ℕ) (i : Inner)
    → (reclaim ttl now ids i).next_id ≡ i.next_id
unfolding reclaim requeue
next_id-reclaim ttl now [] i = refl
next_id-reclaim ttl now (id ∷ ids) i = elim (Option-cases (HashMap.get i.leased id)) [
  | inl absent ↦ rw (absent, reclaim) (next_id-reclaim ttl now ids i)
  | inr ((d, e), lent) ↦
      rw (lent, reclaim) (next_id-reclaim ttl now ids (round ttl now id e i) ∙ ground arith)
]

next_id-fill :
    (ttl lease : Duration) (now : Instant) (room : ℕ) (l : List Entry) (i : Inner)
    → (fill ttl lease now room l i).1.next_id ≡ i.next_id
unfolding fill
next_id-fill ttl lease now room [] i = refl
next_id-fill ttl lease now zero (e ∷ rest) i = refl
next_id-fill ttl lease now (suc room) (e ∷ rest) i =
    fill_cases ttl lease now (λ r. r.1.next_id ≡ i.next_id) room e rest i
      (λ _. next_id-fill ttl lease now (suc room) rest i)
      (λ _. next_id-fill ttl lease now (suc room) rest (forgotten e i))
      (λ _. next_id-fill ttl lease now room rest (lent_to (now + lease) e i))

pub next_id-settle : (ids : List ℕ) (i : Inner) → (settle ids i).next_id ≡ i.next_id
unfolding settle
next_id-settle [] i = refl
next_id-settle (id ∷ ids) i = elim (Option-cases (HashMap.get i.leased id)) [
  | inl absent ↦ rw (absent, settle) (next_id-settle ids i)
  | inr ((d, e), lent) ↦ rw (lent, settle) (next_id-settle ids (settled id e i))
]

pub next_id-enqueue_at :
    (q : NotificationQueue) (now : Instant) (payload : Value) (key : Option CountKey)
    → (enqueue_at q now payload key).next_id ≤ q.next_id + 1
unfolding enqueue_at push_back
next_id-enqueue_at q now payload key = omega arith

pub next_id-take_at :
    (q : NotificationQueue) (now : Instant) (max_batch : ℕ)
    → (queue_of (take_at q now max_batch)).next_id ≡ q.next_id
unfolding take_at reclaimed
next_id-take_at q now m =
    let i = reclaimed q now in
    next_id-fill q.entry_ttl q.lease now m i.pending i
    ∙ next_id-reclaim q.entry_ttl now (sort_desc (expired_ids now q.leased)) q.inner

pub next_id-step : (q : NotificationQueue) (c : Call) → (step q c).next_id ≤ q.next_id + 1
unfolding step enqueue_at push_back take_at reclaimed ack
next_id-step q (enqueues now payload key) = omega arith
next_id-step q (takes now max_batch) = omega (arith, next_id-take_at q now max_batch)
next_id-step q (acks ids) = omega (arith, next_id-settle ids q.inner)

pub step-IsValid :
    (q : NotificationQueue) (c : Call)
    → q.next_id + 1 < u64_mod
    → IsValid q.inner
    → IsValid (step q c).inner
unfolding step
step-IsValid q (enqueues now payload key) small v = enqueue_at-IsValid q now payload key small v
step-IsValid q (takes now max_batch) small v = take_at-IsValid q now max_batch v
step-IsValid q (acks ids) small v = ack-IsValid q ids v

pub run-IsValid :
    (q : NotificationQueue) (cs : List Call)
    → q.next_id + length cs < u64_mod
    → IsValid q.inner
    → IsValid (run q cs).inner
unfolding run
run-IsValid q [] small v = v
run-IsValid q (c ∷ cs) small v =
    run-IsValid (step q c) cs (omega (arith, next_id-step q c)) (step-IsValid q c (omega arith) v)

pub new-IsValid :
    (max_entries : ℕ) (entry_ttl lease : Duration) → IsValid (new max_entries entry_ttl lease).inner
unfolding new
new-IsValid n ttl lease = record {
  parts = record {
    distinct = tt;
    apart = λ id. inl (unfold find in refl);
    keyed = λ id d e h. unfold HashMap.get in cc;
    leased_distinct = tt;
  };
  below = λ id e h. unfold held find HashMap.get in cc;
  indexed = λ k id h. unfold HashMap.get in cc;
}

-- Whatever calls arrive, and whatever the clock says, the queue stays consistent as long as fewer
-- than 2^64 calls were made: no id is held twice, pending or leased, each key of the count index
-- names an entry that the queue holds, and all ids lie below the next one.
pub run-new-IsValid :
    (max_entries : ℕ) (entry_ttl lease : Duration) (cs : List Call)
    → length cs < u64_mod
    → IsValid (run (new max_entries entry_ttl lease) cs).inner
run-new-IsValid n ttl lease cs small =
    run-IsValid (new n ttl lease) cs (unfold new in omega arith) (new-IsValid n ttl lease)

poll_wait_first :
    (q : NotificationQueue) (max_batch : ℕ) (now : Instant) (wakeups : List (List Call × Instant))
    → batch_of (take_at q now max_batch) ≢ []
    → poll_wait max_batch now wakeups q ≡ take_at q now max_batch
unfolding poll_wait
poll_wait_first q m now [] some_batch = refl
poll_wait_first q m now ((others, later) ∷ wakeups) some_batch = ground arith

-- A poll for at least one entry, of a consistent queue with an entry that is neither superseded
-- nor too old and under no lease that goes on, answers at once, whatever the timeout: it hands out
-- a batch that is not empty, and that of the first attempt.
pub poll_wait_at_once :
    (q : NotificationQueue) (max_batch : ℕ) (now : Instant) (wakeups : List (List Call × Instant))
    (id : ℕ) (e : Entry)
    → 0 < max_batch
    → IsValid q.inner
    → entry_at q id ≡ some e
    → Fresh q.entry_ttl now q.count_index e
    → ((d : Instant) (x : Entry) → HashMap.get q.leased id ≡ some (d, x) → d ≤ now)
    → (poll_wait max_batch now wakeups q ≡ take_at q now max_batch)
      × (batch_of (poll_wait max_batch now wakeups q) ≢ [])
poll_wait_at_once q m now wakeups id e pos v here fr over =
    let handed : batch_of (take_at q now m) ≢ [] = λ empty.
      subst (Any (λ p. (p.id ≡ id) × (p.notification ≡ e.payload))) empty (
        take_at_delivers q now m v id e here fr over
          (omega (arith, ap (λ (b : List PollEntry). length b) empty))) in
    (poll_wait_first q m now wakeups handed, rw (poll_wait_first q m now wakeups handed) handed)
