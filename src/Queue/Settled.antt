-- ===== src/Queue/Settled.antt =====
-- An acknowledged entry is gone for good, whatever is called afterwards.
use pincerbell.Base.{
  ℕ, zero, suc, ◌+◌, ◌-◌, ◌≤◌, ◌<◌, ◌≡◌, ◌≢◌, ◌∙◌, refl, ap, true, Option, none, some, List, [],
  ◌∷◌, ◌++◌, drop, length, any, Any, nat_beq, nat_eq, nat_beq_iff, arith, Option-cases, inl, inr,
}
use pincerbell.Time.{Instant}
use pincerbell.HashMap
use pincerbell.Json.{Value}
use pincerbell.Queue.Wire.{PollEntry}
use pincerbell.Queue.{
  CountKey, u64_mod, Entry, NotificationQueue, push_back, enqueue_at, take_at, ack,
}
use pincerbell.Queue.Held.{Leases, find, held, IsValid}
use pincerbell.Queue.Enqueue.{pending-enqueue_at}
use pincerbell.Queue.Take.{entry_at, batch_of, queue_of, take_at_keeps, take_at_batch}
use pincerbell.Queue.Ack.{leased-ack, ack-IsValid}
use pincerbell.Queue.Runs.{
  Call, enqueues, takes, acks, step, run, next_id-step, step-IsValid, next_id-settle,
  next_id-take_at,
}

-- An id that was given out, and whose entry is nowhere any more.
pub record Gone (id : ℕ) (q : NotificationQueue) : Type 0 where
  pub valid : IsValid q.inner
  pub nowhere : entry_at q id ≡ none
  pub old : id < q.next_id

nowhere-parts :
    (q : NotificationQueue) (id : ℕ)
    → entry_at q id ≡ none
    → (find id q.pending ≡ none) × (HashMap.get q.leased id ≡ none)
unfolding entry_at held
nowhere-parts q id h = elim (Option-cases (find id q.pending)) [
  | inr (e, found) ↦ absurd (ground (arith, h, found))
  | inl absent ↦ elim (Option-cases (HashMap.get q.leased id)) [
    | inr ((d, e), lent) ↦ absurd (ground (arith, h, absent, lent))
    | inl free ↦ (absent, free)
  ]
]

find-drop-none : (id k : ℕ) (l : List Entry) → find id l ≡ none → find id (drop k l) ≡ none
unfolding find
find-drop-none id zero l h = h
find-drop-none id (suc k) [] h = h
find-drop-none id (suc k) (x ∷ l) h = find-drop-none id k l (ground (arith, h))

find-append_none :
    (id : ℕ) (l : List Entry) (e : Entry)
    → find id l ≡ none
    → id ≢ e.id
    → find id (l ++ e ∷ []) ≡ none
unfolding find
find-append_none id [] e h other = ground (arith, nat_beq_iff e.id id)
find-append_none id (x ∷ l) e h other = ground (arith, h, find-append_none id l e)

nowhere-of_parts :
    (q : NotificationQueue) (id : ℕ)
    → find id q.pending ≡ none
    → HashMap.get q.leased id ≡ none
    → entry_at q id ≡ none
unfolding entry_at held
nowhere-of_parts q id absent free = ground (arith, absent, free)

-- No call brings it back.
enqueue_at-nowhere :
    (q : NotificationQueue) (now : Instant) (payload : Value) (key : Option CountKey) (id : ℕ)
    → entry_at q id ≡ none
    → id < q.next_id
    → entry_at (enqueue_at q now payload key) id ≡ none
enqueue_at-nowhere q now payload key id h old =
    let (absent, free) = nowhere-parts q id h in
    let (pending, leased) = pending-enqueue_at q now payload key in
    let k : ℕ = length q.pending + 1 - q.max_entries in
    let e : Entry = record { id = q.next_id; enqueued = now; payload = payload; count_key = key } in
    nowhere-of_parts (enqueue_at q now payload key) id
      (ap (find id) pending
        ∙ find-append_none id (drop k q.pending) e (find-drop-none id k q.pending absent)
            (λ same. absurd (omega arith)))
      (ap (λ (m : Leases). HashMap.get m id) leased ∙ free)

take_at-nowhere :
    (q : NotificationQueue) (now : Instant) (max_batch id : ℕ)
    → IsValid q.inner
    → entry_at q id ≡ none
    → entry_at (queue_of (take_at q now max_batch)) id ≡ none
take_at-nowhere q now m id v h = elim (Option-cases (entry_at (queue_of (take_at q now m)) id)) [
  | inl absent ↦ absent
  | inr (e, back) ↦ absurd (ground (arith, h, (take_at_keeps q now m v id e).1 back))
]

ack-nowhere :
    (q : NotificationQueue) (ids : List ℕ) (id : ℕ)
    → entry_at q id ≡ none
    → entry_at (ack q ids) id ≡ none
ack-nowhere q ids id h =
    let (absent, free) = nowhere-parts q id h in
    let (pending, leased) = leased-ack q ids id in
    nowhere-of_parts (ack q ids) id (ap (find id) pending ∙ absent) (ground (arith, leased, free))

next_id-ack : (q : NotificationQueue) (ids : List ℕ) → (ack q ids).next_id ≡ q.next_id
unfolding ack
next_id-ack q ids = next_id-settle ids q.inner

next_id-le-step :
    (q : NotificationQueue) (c : Call) → q.next_id + 1 < u64_mod → q.next_id ≤ (step q c).next_id
unfolding step enqueue_at push_back
next_id-le-step q (enqueues now payload key) small = omega arith
next_id-le-step q (takes now m) small = omega (arith, next_id-take_at q now m)
next_id-le-step q (acks ids) small = omega (arith, next_id-ack q ids)

held-leased :
    (q : NotificationQueue) (id : ℕ) (d : Instant) (e : Entry)
    → find id q.pending ≡ none
    → HashMap.get q.leased id ≡ some (d, e)
    → held q.pending q.leased id ≡ some e
unfolding held
held-leased q id d e absent lent = ground (arith, absent, lent)

Any-witness :
    (l : List PollEntry) (id : ℕ)
    → Any (λ p. p.id ≡ id) l
    → (p : PollEntry) × Any (λ x. x ≡ p) l × (p.id ≡ id)
Any-witness [] id h = absurd h
Any-witness (p ∷ l) id (inl same) = (p, inl refl, same)
Any-witness (p ∷ l) id (inr later) =
    let (x, here, same) = Any-witness l id later in (x, inr here, same)

step-Gone :
    (id : ℕ) (q : NotificationQueue) (c : Call)
    → q.next_id + 1 < u64_mod
    → Gone id q
    → Gone id (step q c)
unfolding step
step-Gone id q (enqueues now payload key) small g = record {
  valid = step-IsValid q (enqueues now payload key) small g.valid;
  nowhere = enqueue_at-nowhere q now payload key id g.nowhere g.old;
  old = omega (arith, g.old, next_id-le-step q (enqueues now payload key) small);
}
step-Gone id q (takes now m) small g = record {
  valid = step-IsValid q (takes now m) small g.valid;
  nowhere = take_at-nowhere q now m id g.valid g.nowhere;
  old = omega (arith, g.old, next_id-le-step q (takes now m) small);
}
step-Gone id q (acks ids) small g = record {
  valid = step-IsValid q (acks ids) small g.valid;
  nowhere = ack-nowhere q ids id g.nowhere;
  old = omega (arith, g.old, next_id-le-step q (acks ids) small);
}

run-Gone :
    (id : ℕ) (q : NotificationQueue) (cs : List Call)
    → q.next_id + length cs < u64_mod
    → Gone id q
    → Gone id (run q cs)
unfolding run
run-Gone id q [] small g = g
run-Gone id q (c ∷ cs) small g =
    run-Gone id (step q c) cs (omega (arith, next_id-step q c)) (step-Gone id q c (omega arith) g)

pub ack-Gone :
    (q : NotificationQueue) (ids : List ℕ) (id : ℕ) (d : Instant) (e : Entry)
    → IsValid q.inner
    → HashMap.get q.leased id ≡ some (d, e)
    → any (λ acked. nat_beq acked id) ids ≡ true
    → Gone id (ack q ids)
ack-Gone q ids id d e v lent acked =
    let (pending, leased) = leased-ack q ids id in
    let absent : find id q.pending ≡ none = elim (v.parts.apart id) [
      | inl absent ↦ absent
      | inr free ↦ absurd (ground (arith, lent, free))
    ] in
    record {
      valid = ack-IsValid q ids v;
      nowhere =
          nowhere-of_parts (ack q ids) id (ap (find id) pending ∙ absent)
            (ground (arith, leased, acked));
      old = omega (arith, next_id-ack q ids, v.below id e (held-leased q id d e absent lent));
    }

-- What the poll side acknowledges while it is leased is never handed out again, whatever calls
-- follow and whatever the clock says, as long as the queue is consistent and the ids stay below
-- 2^64.
pub acked_never_again :
    (q : NotificationQueue) (ids : List ℕ) (id : ℕ) (d : Instant) (e : Entry) (cs : List Call)
    (now : Instant) (max_batch : ℕ)
    → IsValid q.inner
    → HashMap.get q.leased id ≡ some (d, e)
    → any (λ acked. nat_beq acked id) ids ≡ true
    → q.next_id + length cs < u64_mod
    → ¬ Any (λ p. p.id ≡ id) (batch_of (take_at (run (ack q ids) cs) now max_batch))
acked_never_again q ids id d e cs now m v lent acked small again =
    let g =
      run-Gone id (ack q ids) cs (omega (arith, next_id-ack q ids))
        (ack-Gone q ids id d e v lent acked) in
    let (p, here, same) = Any-witness (batch_of (take_at (run (ack q ids) cs) now m)) id again in
    let handed = (take_at_batch (run (ack q ids) cs) now m g.valid).1 p here in
    ground (arith, handed.1, ap (entry_at (run (ack q ids) cs)) same, g.nowhere)
