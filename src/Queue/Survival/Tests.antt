-- ===== src/Queue/Survival/Tests.antt =====
-- An entry of the queue over a history, on concrete inputs.
use pincerbell.Base.{
  ◌-◌, ◌<◌, ◌≤◌, ◌≡◌, refl, none, some, List, [], ◌∷◌, arith, Any, nat_eq, length,
}
use pincerbell.Time.{Instant}
use pincerbell.HashMap
use pincerbell.Json.{str}
use pincerbell.Queue.{
  count_key_beq, count_key_eq, Entry, new, owns, is_live, forget_count_key, make_room, index_count,
  push_back, enqueue_at, fate, expired_ids, sort_desc, reclaim, fill, reclaimed, take_at, settle,
  ack,
}
use pincerbell.Queue.Take.{entry_at, batch_of}
use pincerbell.Queue.Survival.{AllSpare, run-delivers}
use pincerbell.Queue.Tests.{queue, queue-IsValid, second, shown}
use pincerbell.Queue.Runs.{Call, enqueues, takes, acks, step, run}

-- The second entry is leased again, another is acknowledged, and a third enters.
abbrev more : List Call
more = takes 6 1 ∷ acks (2 ∷ []) ∷ enqueues 7 (str "d") none ∷ []

spared : AllSpare queue second more
unfolding AllSpare run step new enqueue_at push_back make_room index_count take_at reclaimed reclaim
    fill fate is_live owns forget_count_key expired_ids sort_desc ack settle HashMap.get
    HashMap.insert HashMap.remove count_key_beq
spared = (omega arith, (refl, (omega arith, tt)))

leased_until : HashMap.get (run queue more).leased 1 ≡ some (16, second)
unfolding run step new enqueue_at push_back make_room index_count take_at reclaimed reclaim fill
    fate is_live owns forget_count_key expired_ids sort_desc ack settle HashMap.get HashMap.insert
    HashMap.remove count_key_beq
leased_until = refl

run-delivers_example :
    (entry_at (run queue more) 1 ≡ some second)
    × (20 - second.enqueued < queue.entry_ttl
        → ((d : Instant) (x : Entry) → HashMap.get (run queue more).leased 1 ≡ some (d, x) → d ≤ 20)
        → length (batch_of (take_at (run queue more) 20 5)) < 5
        → Any
            (λ p. (p.id ≡ 1) × (p.notification ≡ second.payload))
            (batch_of (take_at (run queue more) 20 5)))
run-delivers_example =
    run-delivers queue 1 second more 20 5 queue-IsValid shown.2 refl (omega (arith, shown.0)) spared
