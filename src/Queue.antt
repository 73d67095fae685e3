-- ===== src/Queue.antt =====
-- src/queue.rs: the queue side's ring buffer. The mutex makes each method one step, so a method is
-- a function of the state; `Instant::now()` is an argument, as in the `_at` methods of the source.
pub mod Survival
pub mod Wire
pub mod Bodies
pub mod Index
pub mod Held
pub mod Steps
pub mod Filling
pub mod Enqueue
pub mod Fates
pub mod Reclaim
pub mod Expiry
pub mod Fill
pub mod Batch
pub mod Take
pub mod Ack
pub mod Coalesce
pub mod Runs
pub mod Settled
pub mod Tests
use pincerbell.Base.{
  ℕ, zero, suc, ◌+◌, ◌%◌, ◌^◌, ◌≡◌, ◌↔◌, ◌&&◌, not, Bool, true, false, Option, none, some, List, [],
  ◌∷◌, ◌++◌, String, Eq, ◌==◌, nat_eq, string_eq, if◌then◌else◌, ltb, leb, nat_beq, arith, eq_iff,
  length, Result, ok, ◌>>=◌,
}
use pincerbell.Time.{Duration, Instant, duration_since}
use pincerbell.HashMap
use pincerbell.HashMap.{HashMap}
use pincerbell.Json.{Value, arr, cons, nil}
use pincerbell.Json
use pincerbell.Api.{Notification, Device, to_value, device_value}
use Wire.{PollEntry}

-- (app_id, pushkey)
abbrev pub CountKey : Type 0
CountKey = String × String

pub count_key_beq : CountKey → CountKey → Bool
count_key_beq (a, p) (a', p') = a == a' && p == p'

pub count_key_beq_iff : (k j : CountKey) → (count_key_beq k j ≡ true) ↔ (k ≡ j)
unfolding count_key_beq
count_key_beq_iff (a, p) (a', p') = ground (arith, eq_iff a a', eq_iff p p')

instance abbrev pub count_key_eq : Eq CountKey
count_key_eq = record { test = count_key_beq; test_iff = count_key_beq_iff }

-- The ids are `u64`, which wrap round in a release build.
abbrev pub u64_mod : ℕ
u64_mod = 2 ^ 64

pub record Entry : Type 0 where
  pub id : ℕ
  pub enqueued : Instant
  pub payload : Value
  pub count_key : Option CountKey

pub record Inner : Type 0 where
  pub next_id : ℕ
  pub pending : List Entry
  pub count_index : HashMap CountKey ℕ
  pub leased : HashMap ℕ (Instant × Entry)

pub record NotificationQueue : Type 0 where
  pub max_entries : ℕ
  pub entry_ttl : Duration
  pub lease : Duration
  pub inner : Inner
  pub open inner use *

unfoldable pub new : ℕ → Duration → Duration → NotificationQueue
new max_entries entry_ttl lease = record {
  max_entries = max_entries;
  entry_ttl = entry_ttl;
  lease = lease;
  inner = record { next_id = 0; pending = []; count_index = HashMap.empty; leased = HashMap.empty };
}

-- `count_index.get(k) == Some(&entry.id)`
pub owns : HashMap CountKey ℕ → CountKey → ℕ → Bool
owns index k id = elim (HashMap.get index k) [ none ↦ false | some newest ↦ nat_beq newest id ]

unfoldable pub is_live : HashMap CountKey ℕ → Entry → Bool
unfolding owns
is_live index e = elim e.count_key [ none ↦ true | some k ↦ owns index k e.id ]

pub forget_count_key : HashMap CountKey ℕ → Entry → HashMap CountKey ℕ
unfolding owns
forget_count_key index e = elim e.count_key [
  | none ↦ index
  | some k ↦ if owns index k e.id then HashMap.remove index k else index
]

-- The loop of `enqueue_at` that drops entries at the front of a full buffer.
pub make_room : ℕ → HashMap CountKey ℕ → List Entry → HashMap CountKey ℕ × List Entry
make_room max_entries index [] = (index, [])
make_room max_entries index (dropped ∷ rest) =
    if leb max_entries (length (dropped ∷ rest))
    then make_room max_entries
        (if is_live index dropped then forget_count_key index dropped else index) rest
    else (index, dropped ∷ rest)

-- `count_index.insert(k, id)` for a count-only notification.
pub index_count : HashMap CountKey ℕ → Option CountKey → ℕ → HashMap CountKey ℕ
index_count index none id = index
index_count index (some k) id = HashMap.insert index k id

pub push_back : ℕ → Instant → Value → Option CountKey → Inner → Inner
unfolding make_room index_count
push_back max_entries now payload count_key i =
    let entry : Entry = record {
      id = i.next_id;
      enqueued = now;
      payload = payload;
      count_key = count_key;
    } in
    let (index, kept) =
      make_room max_entries (index_count i.count_index count_key i.next_id) i.pending in
    record i {
      next_id = (i.next_id + 1) % u64_mod;
      pending = kept ++ entry ∷ [];
      count_index = index;
    }

unfoldable pub enqueue_at :
    NotificationQueue → Instant → Value → Option CountKey → NotificationQueue
unfolding push_back
enqueue_at q now payload count_key = record q {
  inner = push_back q.max_entries now payload count_key q.inner;
}

-- The payload of `enqueue`: the notification with its one device.
unfoldable pub payload_for : Notification → Device → Result Value String
payload_for n device = do
  payload ← to_value n
  ok (Json.set payload "devices" (arr (cons (device_value device) nil)))

-- The coalescing key of `enqueue`: a count-only notification has no event.
unfoldable pub count_key_for : Notification → Device → Option CountKey
count_key_for n device = elim n.event_id [
  | none ↦ some (device.app_id, device.pushkey)
  | some _ ↦ none
]

-- The waiters that it wakes up are those of `poll_wait`.
unfoldable pub enqueue :
    NotificationQueue → Instant → Notification → Device → Result NotificationQueue String
unfolding payload_for count_key_for
enqueue q now n device = do
  payload ← payload_for n device
  ok (enqueue_at q now payload (count_key_for n device))

-- What `take_at` finds of an entry that it takes off the buffer or out of a lease.
pub data Fate : Type 0 where
  superseded expired deliverable : Fate

pub fate : Duration → Instant → HashMap CountKey ℕ → Entry → Fate
fate entry_ttl now index e =
    if not (is_live index e)
    then Fate.superseded
    else if leb entry_ttl (duration_since now e.enqueued)
    then Fate.expired
    else Fate.deliverable

-- The ids of the leases that have run out.
pub expired_ids : Instant → HashMap ℕ (Instant × Entry) → List ℕ
expired_ids now [] = []
expired_ids now ((id, (deadline, e)) ∷ rest) =
    let ids = expired_ids now rest in if leb deadline now then id ∷ ids else ids

insert_desc : ℕ → List ℕ → List ℕ
insert_desc x [] = x ∷ []
insert_desc x (y ∷ ys) = if leb y x then x ∷ y ∷ ys else y ∷ insert_desc x ys

-- `sort_unstable_by(|a, b| b.cmp(a))`
pub sort_desc : List ℕ → List ℕ
unfolding insert_desc
sort_desc [] = []
sort_desc (x ∷ xs) = insert_desc x (sort_desc xs)

-- One round of the loop over expired leases, for an entry just taken out of its lease.
pub requeue : Duration → Instant → Entry → Inner → Inner
requeue entry_ttl now e i = elim (fate entry_ttl now i.count_index e) [
  | Fate.superseded ↦ i
  | Fate.expired ↦ record i { count_index = forget_count_key i.count_index e }
  | Fate.deliverable ↦ record i { pending = e ∷ i.pending }
]

-- The loop over expired leases. An id of the list is that of a lease; where it were not, the
-- source would panic and the model goes on.
pub reclaim : Duration → Instant → List ℕ → Inner → Inner
reclaim entry_ttl now [] i = i
reclaim entry_ttl now (id ∷ ids) i = reclaim entry_ttl now ids (elim (HashMap.get i.leased id) [
  | none ↦ i
  | some (_, e) ↦ requeue entry_ttl now e (record i { leased = HashMap.remove i.leased id })
])

-- The loop that fills the batch with at most `room` entries of `pending`, which is the buffer of
-- the state that it works on.
pub fill : Duration → Duration → Instant → ℕ → List Entry → Inner → List PollEntry × Inner
fill entry_ttl lease now room [] i = ([], record i { pending = [] })
fill entry_ttl lease now zero (e ∷ rest) i = ([], record i { pending = e ∷ rest })
fill entry_ttl lease now (suc room) (e ∷ rest) i = elim (fate entry_ttl now i.count_index e) [
  | Fate.superseded ↦ fill entry_ttl lease now (suc room) rest i
  | Fate.expired ↦
      fill entry_ttl lease now (suc room) rest
        (record i { count_index = forget_count_key i.count_index e })
  | Fate.deliverable ↦
      let (batch, i') =
        fill entry_ttl lease now room rest
          (record i { leased = HashMap.insert i.leased e.id (now + lease, e) }) in
      (record { id = e.id; notification = e.payload } ∷ batch, i')
]

pub reclaimed : NotificationQueue → Instant → Inner
unfolding reclaim requeue expired_ids sort_desc
reclaimed q now = reclaim q.entry_ttl now (sort_desc (expired_ids now q.leased)) q.inner

unfoldable pub take_at : NotificationQueue → Instant → ℕ → List PollEntry × NotificationQueue
unfolding reclaimed fill fate
take_at q now max_batch =
    let i = reclaimed q now in
    let (batch, i') = fill q.entry_ttl q.lease now max_batch i.pending i in
    (batch, record q { inner = i' })

-- The loop of `ack`.
pub settle : List ℕ → Inner → Inner
settle [] i = i
settle (id ∷ ids) i = settle ids (elim (HashMap.get i.leased id) [
  | none ↦ i
  | some (_, e) ↦ record i {
    leased = HashMap.remove i.leased id;
    count_index = forget_count_key i.count_index e;
  }
])

unfoldable pub ack : NotificationQueue → List ℕ → NotificationQueue
unfolding settle
ack q ids = record q { inner = settle ids q.inner }
