-- ===== src/Queue/Tests.antt =====
-- The queue on concrete inputs.
use pincerbell.Base.{
  inl, inr, ◌-◌, ◌+◌, ◌<◌, ◌≤◌, ◌≡◌, ◌≢◌, refl, none, some, List, [], ◌∷◌, ◌++◌, arith, Any, nat_eq,
  length, drop,
}
use pincerbell.Time.{Instant}
use pincerbell.HashMap
use pincerbell.Json.{str}
use pincerbell.Queue.Wire.{PollEntry, PollRequest, PollResponse, AckRequest}
use pincerbell.Queue.{
  u64_mod, count_key_beq, count_key_eq, Entry, NotificationQueue, new, owns, is_live,
  forget_count_key, make_room, index_count, push_back, enqueue_at, fate, expired_ids, sort_desc,
  reclaim, fill, reclaimed, take_at,
}
use pincerbell.Queue.Held.{find, held, IsValid}
use pincerbell.Queue.Fates.{Fresh}
use pincerbell.Queue.Enqueue.{enqueue_at-IsValid, pending-enqueue_at, length-enqueue_at-le}
use pincerbell.Queue.Take.{
  take_at-IsValid, take_at_keeps, take_at_batch, take_at_delivers, entry_at, batch_of, queue_of,
}
use pincerbell.Queue.Runs.{
  Call, enqueues, takes, step, run, poll_wait, run-new-IsValid, poll_wait_at_once,
}

abbrev pub calls : List Call
calls =
    enqueues 1 (str "a") (some ("app", "k"))
    ∷ enqueues 2 (str "b") none
    ∷ takes 3 1
    ∷ enqueues 4 (str "c") (some ("app", "k"))
    ∷ []

-- The entry 0 is leased until 13 and superseded by the entry 2; 1 and 2 are pending.
abbrev pub queue : NotificationQueue
queue = run (new 3 100 10) calls

pub queue-IsValid : IsValid queue.inner
queue-IsValid = run-new-IsValid 3 100 10 calls (omega arith)

abbrev pub second : Entry
second = record { id = 1; enqueued = 2; payload = str "b"; count_key = none }

pub shown : (queue.next_id ≡ 3) × (length queue.pending ≡ 2) × (entry_at queue 1 ≡ some second)
unfolding run step new enqueue_at push_back make_room index_count take_at reclaimed reclaim fill
    fate is_live owns forget_count_key expired_ids sort_desc entry_at held find HashMap.get
    HashMap.insert HashMap.remove count_key_beq
shown = (refl, refl, refl)

not_leased : HashMap.get queue.leased 1 ≡ none
unfolding run step new enqueue_at push_back make_room index_count take_at reclaimed reclaim fill
    fate is_live owns forget_count_key expired_ids sort_desc entry_at held find HashMap.get
    HashMap.insert HashMap.remove count_key_beq
not_leased = refl

full : queue.max_entries ≡ 3
unfolding run step new enqueue_at push_back make_room index_count take_at reclaimed reclaim fill
    fate is_live owns forget_count_key expired_ids sort_desc entry_at held find HashMap.get
    HashMap.insert HashMap.remove count_key_beq
full = refl

second-Fresh : Fresh queue.entry_ttl 5 queue.count_index second
unfolding run step new enqueue_at push_back make_room index_count take_at reclaimed reclaim fill
    fate is_live owns forget_count_key expired_ids sort_desc entry_at held find HashMap.get
    HashMap.insert HashMap.remove count_key_beq
second-Fresh = record { live = refl; young = omega arith }

room_left : length (batch_of (take_at queue 5 3)) ≡ 2
unfolding run step new enqueue_at push_back make_room index_count take_at reclaimed reclaim fill
    fate is_live owns forget_count_key expired_ids sort_desc entry_at held find HashMap.get
    HashMap.insert HashMap.remove count_key_beq
room_left = refl

take_at-IsValid_example : IsValid (queue_of (take_at queue 5 2)).inner
take_at-IsValid_example = take_at-IsValid queue 5 2 queue-IsValid

enqueue_at-IsValid_example : IsValid (enqueue_at queue 5 (str "d") none).inner
enqueue_at-IsValid_example =
    enqueue_at-IsValid queue 5 (str "d") none (omega (arith, shown.0)) queue-IsValid

take_at_keeps_example :
    (entry_at queue 1 ≡ some second
      → Fresh queue.entry_ttl 5 queue.count_index second
      → (entry_at (queue_of (take_at queue 5 2)) 1 ≡ some second)
        × Fresh queue.entry_ttl 5 (queue_of (take_at queue 5 2)).count_index second)
    × (entry_at (queue_of (take_at queue 5 2)) 1 ≡ some second → entry_at queue 1 ≡ some second)
take_at_keeps_example = take_at_keeps queue 5 2 queue-IsValid 1 second

take_at_batch_example :
    (length (batch_of (take_at queue 5 2)) ≤ 2)
    × ((p : PollEntry)
        → Any (λ x. x ≡ p) (batch_of (take_at queue 5 2))
        → (e : Entry) × (entry_at queue p.id ≡ some e)
          × (p.notification ≡ e.payload)
          × Fresh queue.entry_ttl 5 queue.count_index e
          × ((d : Instant) (x : Entry) → HashMap.get queue.leased p.id ≡ some (d, x) → d ≤ 5)
          × (HashMap.get (queue_of (take_at queue 5 2)).leased p.id ≡ some (5 + queue.lease, e)))
take_at_batch_example = take_at_batch queue 5 2 queue-IsValid

take_at_delivers_example :
    Any (λ p. (p.id ≡ 1) × (p.notification ≡ second.payload)) (batch_of (take_at queue 5 3))
take_at_delivers_example =
    take_at_delivers queue 5 3 queue-IsValid 1 second shown.2 second-Fresh
      (λ d x h. ground (arith, not_leased, h)) (omega (arith, room_left))

poll_wait_at_once_example :
    (poll_wait 2 5 [] queue ≡ take_at queue 5 2) × (batch_of (poll_wait 2 5 [] queue) ≢ [])
poll_wait_at_once_example =
    poll_wait_at_once queue 2 5 [] 1 second (omega arith) queue-IsValid shown.2 second-Fresh
      (λ d x h. ground (arith, not_leased, h))

pending-enqueue_at_example :
    ((enqueue_at queue 5 (str "d") none).pending
      ≡ drop (length queue.pending + 1 - queue.max_entries) queue.pending
        ++ record { id = queue.next_id; enqueued = 5; payload = str "d"; count_key = none } ∷ [])
    × ((enqueue_at queue 5 (str "d") none).leased ≡ queue.leased)
pending-enqueue_at_example = pending-enqueue_at queue 5 (str "d") none

length-enqueue_at-le_example :
    length (enqueue_at queue 5 (str "d") none).pending ≤ queue.max_entries
length-enqueue_at-le_example = length-enqueue_at-le queue 5 (str "d") none (omega (arith, full))

abbrev first : Entry
first = record { id = 0; enqueued = 1; payload = str "a"; count_key = some ("app", "k") }

-- The lease of 0 has run out long before the last poll.
still_leased :
    HashMap.get queue.leased 0
    ≡ some (13, record { id = 0; enqueued = 1; payload = str "a"; count_key = some ("app", "k") })
unfolding run step new enqueue_at push_back make_room index_count take_at reclaimed reclaim fill
    fate is_live owns forget_count_key expired_ids sort_desc entry_at held find HashMap.get
    HashMap.insert HashMap.remove count_key_beq
still_leased = refl

few : queue.next_id + length {A = Call} (takes 20 5 ∷ []) < u64_mod
unfolding run step new enqueue_at push_back make_room index_count take_at reclaimed reclaim fill
    fate is_live owns forget_count_key expired_ids sort_desc entry_at held find HashMap.get
    HashMap.insert HashMap.remove count_key_beq
few = omega arith

-- Two pending entries, for the poll side.
abbrev pub two_entries : NotificationQueue
two_entries = run (new 3 100 10) (enqueues 1 (str "a") none ∷ enqueues 2 (str "broken") none ∷ [])

pub two_entries-IsValid : IsValid two_entries.inner
two_entries-IsValid =
    run-new-IsValid 3 100 10 (enqueues 1 (str "a") none ∷ enqueues 2 (str "broken") none ∷ [])
      (omega arith)

abbrev pub broken : PollEntry
broken = record { id = 1; notification = str "broken" }

pub handed : Any (λ x. x ≡ broken) (batch_of (take_at two_entries 5 10))
unfolding run step new enqueue_at push_back make_room index_count take_at reclaimed reclaim fill
    fate is_live owns forget_count_key expired_ids sort_desc HashMap.get HashMap.insert
    HashMap.remove count_key_beq
handed = inr (inl refl)

abbrev response : PollResponse
response = record { entries = broken ∷ [] }

abbrev acknowledgement : AckRequest
acknowledgement = record {
  acked = 0 ∷ 1 ∷ [];
  rejected_pushkeys = record { app_id = "app"; pushkey = "k" } ∷ [];
}

abbrev request : PollRequest
request = record { timeout_secs = some 30; max_batch = none }
