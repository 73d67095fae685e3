-- ===== src/Queue/Survival.antt =====
-- The notification of an event in the queue, over any history of calls.
mod Tests
use pincerbell.Base.{
  ℕ, zero, suc, ◌+◌, ◌-◌, ◌<◌, ◌≤◌, ◌≡◌, ◌≢◌, ◌∙◌, refl, sym, ap, subst, Option, none, some, List,
  [], ◌∷◌, ◌++◌, false, true, arith, length, drop, Option-cases, inl, inr, Any, any, nat_beq,
  nat_beq_iff, nat_eq,
}
use pincerbell.Time.{Instant, Duration}
use pincerbell.HashMap
use pincerbell.Json.{Value}
use pincerbell.Queue.Wire.{PollEntry}
use pincerbell.Queue.{
  CountKey, u64_mod, Entry, NotificationQueue, is_live, enqueue_at, take_at, ack,
}
use pincerbell.Queue.Held.{Leases, find, held, held-id, IsValid}
use pincerbell.Queue.Fates.{Fresh}
use pincerbell.Queue.Enqueue.{pending-enqueue_at}
use pincerbell.Queue.Take.{entry_at, batch_of, queue_of, take_at_keeps, take_at_delivers}
use pincerbell.Queue.Ack.{leased-ack}
use pincerbell.Queue.Runs.{Call, enqueues, takes, acks, step, run, next_id-step, step-IsValid}

-- The call leaves the entry alone: it is no ack of it, no enqueue into a full buffer, and no poll
-- after the entry's time.
abbrev pub Spares : NotificationQueue → Entry → Call → Type 0
Spares q e (enqueues now payload key) = length q.pending < q.max_entries
Spares q e (takes now max_batch) = now - e.enqueued < q.entry_ttl
Spares q e (acks ids) = any (λ acked. nat_beq acked e.id) ids ≡ false

-- So does each call of a history, in its turn.
unfoldable pub AllSpare : NotificationQueue → Entry → List Call → Type 0
AllSpare q e [] = Unit
AllSpare q e (c ∷ cs) = Spares q e c × AllSpare (step q c) e cs

find-append_some :
    (id : ℕ) (l : List Entry) (e x : Entry) → find id l ≡ some e → find id (l ++ x ∷ []) ≡ some e
unfolding find
find-append_some id [] e x h = absurd (ground (arith, h))
find-append_some id (y ∷ l) e x h = ground (arith, h, find-append_some id l e x)

find-append_other :
    (id : ℕ) (l : List Entry) (x : Entry)
    → find id l ≡ none
    → x.id ≢ id
    → find id (l ++ x ∷ []) ≡ none
unfolding find
find-append_other id [] x h other = ground (arith, nat_beq_iff x.id id)
find-append_other id (y ∷ l) x h other = ground (arith, h, find-append_other id l x)

entry_at-enqueue_at :
    (q : NotificationQueue) (now : Instant) (payload : Value) (key : Option CountKey) (id : ℕ)
    (e : Entry)
    → IsValid q.inner
    → length q.pending < q.max_entries
    → entry_at q id ≡ some e
    → entry_at (enqueue_at q now payload key) id ≡ some e
unfolding entry_at held
entry_at-enqueue_at q now payload key id e v room here =
    let x : Entry = record { id = q.next_id; enqueued = now; payload = payload; count_key = key } in
    let (pending, leased) = pending-enqueue_at q now payload key in
    let none_dropped : length q.pending + 1 - q.max_entries ≡ 0 = omega (arith, room) in
    let grown : (enqueue_at q now payload key).pending ≡ q.pending ++ x ∷ [] =
      pending ∙ ap (λ k. drop k q.pending ++ x ∷ []) none_dropped in
    let old : id < q.next_id = v.below id e (unfold held in here) in
    rw (grown, leased)
      (elim (Option-cases (find id q.pending)) [
        | inr (y, found) ↦ ground (arith, here, found, find-append_some id q.pending y x found)
        | inl absent ↦ ground (arith, here, absent, find-append_other id q.pending x absent, old)
      ])

entry_at-ack :
    (q : NotificationQueue) (ids : List ℕ) (id : ℕ) (e : Entry)
    → any (λ acked. nat_beq acked id) ids ≡ false
    → entry_at q id ≡ some e
    → entry_at (ack q ids) id ≡ some e
unfolding entry_at held
entry_at-ack q ids id e other here =
    let (pending, leased) = leased-ack q ids id in
    ground (arith, ap (find id) pending, leased, other, here)

-- An event's notification is superseded by none.
event-Fresh :
    (q : NotificationQueue) (now : Instant) (e : Entry)
    → e.count_key ≡ none
    → now - e.enqueued < q.entry_ttl
    → Fresh q.entry_ttl now q.count_index e
unfolding is_live
event-Fresh q now e plain young = record { live = ground (arith, plain); young = young }

step-Spares :
    (q : NotificationQueue) (id : ℕ) (e : Entry) (c : Call)
    → IsValid q.inner
    → e.id ≡ id
    → e.count_key ≡ none
    → Spares q e c
    → entry_at q id ≡ some e
    → entry_at (step q c) id ≡ some e
unfolding step
step-Spares q id e (enqueues now payload key) v named plain spared here =
    entry_at-enqueue_at q now payload key id e v spared here
step-Spares q id e (takes now m) v named plain spared here =
    ((take_at_keeps q now m v id e).0 here (event-Fresh q now e plain spared)).0
step-Spares q id e (acks ids) v named plain spared here =
    entry_at-ack q ids id e (subst (λ j. any (λ acked. nat_beq acked j) ids ≡ false) named spared)
      here

entry_ttl-step : (q : NotificationQueue) (c : Call) → (step q c).entry_ttl ≡ q.entry_ttl
unfolding step enqueue_at take_at ack
entry_ttl-step q (enqueues now payload key) = refl
entry_ttl-step q (takes now m) = refl
entry_ttl-step q (acks ids) = refl

-- What is left of the queue after the history.
record Survives (q : NotificationQueue) (id : ℕ) (e : Entry) (ttl : Duration) : Type 0 where
  valid : IsValid q.inner
  here : entry_at q id ≡ some e
  same_ttl : q.entry_ttl ≡ ttl

run-Survives :
    (q : NotificationQueue) (id : ℕ) (e : Entry) (cs : List Call) (ttl : Duration)
    → e.id ≡ id
    → e.count_key ≡ none
    → q.next_id + length cs < u64_mod
    → AllSpare q e cs
    → Survives q id e ttl
    → Survives (run q cs) id e ttl
unfolding run AllSpare
run-Survives q id e [] ttl named plain small spared s = s
run-Survives q id e (c ∷ cs) ttl named plain small (first_one, rest) s =
    run-Survives (step q c) id e cs ttl named plain (omega (arith, small, next_id-step q c)) rest
      (record {
        valid = step-IsValid q c (omega (arith, small)) s.valid;
        here = step-Spares q id e c s.valid named plain first_one s.here;
        same_ttl = entry_ttl-step q c ∙ s.same_ttl;
      })

-- At least once, over any history: the notification of an event that a consistent queue holds is
-- still held after any calls of which none acknowledges it, none enqueues into a full buffer and
-- none polls once `entry_ttl` is over, for ids below 2^64; and a poll in its time, with room left in
-- its batch, hands it out if no lease of it goes on.
pub run-delivers :
    (q : NotificationQueue) (id : ℕ) (e : Entry) (cs : List Call) (now : Instant) (max_batch : ℕ)
    → IsValid q.inner
    → entry_at q id ≡ some e
    → e.count_key ≡ none
    → q.next_id + length cs < u64_mod
    → AllSpare q e cs
    → (entry_at (run q cs) id ≡ some e)
      × (now - e.enqueued < q.entry_ttl
          → ((d : Instant) (x : Entry) → HashMap.get (run q cs).leased id ≡ some (d, x) → d ≤ now)
          → length (batch_of (take_at (run q cs) now max_batch)) < max_batch
          → Any
              (λ p. (p.id ≡ id) × (p.notification ≡ e.payload))
              (batch_of (take_at (run q cs) now max_batch)))
unfolding entry_at
run-delivers q id e cs now m v here plain small spared =
    let s =
      run-Survives q id e cs q.entry_ttl (held-id id e v.parts here) plain small spared
        (record { valid = v; here = here; same_ttl = refl }) in
    (
      s.here,
      λ young over room.
          take_at_delivers (run q cs) now m s.valid id e s.here
            (event-Fresh (run q cs) now e plain (omega (arith, young, s.same_ttl))) over room,
    )
