-- ===== src/Queue/Enqueue.antt =====
-- Enqueueing: the invariant, and what becomes of the buffer.
use pincerbell.Base.{
  ℕ, ◌+◌, ◌-◌, ◌<◌, ◌≡◌, ap, sym, subst, refl, Option, none, some, List, [], ◌∷◌, ◌++◌, nat_eq, leb,
  nat_beq_iff, arith, Option-cases, Bool-cases, ◌≤◌, ◌%◌, zero, suc, inl, inr, length, drop,
  length-append, length-drop,
}
use pincerbell.Time.{Instant}
use pincerbell.HashMap.{HashMap}
use pincerbell.Json.{Value}
use pincerbell.Queue.{
  CountKey, count_key_eq, u64_mod, Entry, Inner, NotificationQueue, forget_count_key, make_room,
  index_count, push_back, enqueue_at,
}
use pincerbell.Queue.Held.{held, IsValid}
use pincerbell.Queue.Filling.{
  Filling, drop_forgets, make_room-Filling, held-append, Apart-append, index-Filling,
}

-- The id of the next entry is that of no entry yet.
next_id-fresh :
    (i : Inner) (pending : List Entry)
    → ((id : ℕ) (e : Entry) → held pending i.leased id ≡ some e → id < i.next_id)
    → held pending i.leased i.next_id ≡ none
next_id-fresh i pending below = elim (Option-cases (held pending i.leased i.next_id)) [
  | inl absent ↦ absent
  | inr (e, here) ↦ absurd (omega (arith, below i.next_id e here))
]

push-IsValid :
    (i : Inner) (e : Entry) (index : HashMap CountKey ℕ) (kept : List Entry)
    → e.id ≡ i.next_id
    → Filling i.next_id e.count_key index kept i.leased
    → IsValid (record i { next_id = i.next_id + 1; pending = kept ++ e ∷ []; count_index = index })
push-IsValid i e index kept new v =
    let fresh : held kept i.leased e.id ≡ none =
      subst (λ (n : ℕ). held kept i.leased n ≡ none) (sym new) (next_id-fresh i kept v.below) in
    record {
      parts = Apart-append kept e i.leased fresh v.parts;
      below = λ id x h.
          ground (
            arith,
            held-append kept e i.leased id fresh,
            h,
            v.below id x,
            new,
            nat_beq_iff e.id id,
          );
      indexed = λ k id h. elim (v.indexed k id h) [
        | inl (here, counted) ↦ (
          e,
          ground (arith, held-append kept e i.leased id fresh, here, new, nat_beq_iff e.id id),
          counted,
        )
        | inr (x, here, counted) ↦ (
          x,
          ground (arith, held-append kept e i.leased id fresh, here, fresh, nat_beq_iff e.id id),
          counted,
        )
      ];
    }

-- Enqueueing keeps the invariant, as long as the ids do not wrap round.
pub enqueue_at-IsValid :
    (q : NotificationQueue) (now : Instant) (payload : Value) (count_key : Option CountKey)
    → q.next_id + 1 < u64_mod
    → IsValid q.inner
    → IsValid (enqueue_at q now payload count_key).inner
unfolding enqueue_at push_back
enqueue_at-IsValid q now payload key small v =
    let made =
      make_room-Filling q.max_entries q.next_id key (index_count q.count_index key q.next_id)
        q.pending q.leased (index-Filling q.inner key v) in
    let same : (q.next_id + 1) % u64_mod ≡ q.next_id + 1 = omega arith in
    rw same (
      push-IsValid q.inner
        (record { id = q.next_id; enqueued = now; payload = payload; count_key = key }) _ _ refl
        made)

drop-nil : (n : ℕ) → [] ≡ drop {A = Entry} n []
drop-nil zero = refl
drop-nil (suc n) = refl

-- The buffer loses just enough of the entries at its front to have room for one more.
make_room-drop :
    (max_entries : ℕ) (index : HashMap CountKey ℕ) (pending : List Entry)
    → (make_room max_entries index pending).1 ≡ drop (length pending + 1 - max_entries) pending
unfolding make_room
make_room-drop m index [] = drop-nil (length {A = Entry} [] + 1 - m)
make_room-drop m index (e ∷ rest) = elim (Bool-cases (leb m (length (e ∷ rest)))) [
  | inl full ↦
      let more : suc (length rest) + 1 - m ≡ suc (length rest + 1 - m) = ground arith in
      rw (full, more, drop_forgets index e) (make_room-drop m (forget_count_key index e) rest)
  | inr fits ↦
      let none_dropped : suc (length rest) + 1 - m ≡ 0 = ground arith in rw (fits, none_dropped)
]

-- An entry enters at the back, and as many entries as needed leave at the front of a buffer that
-- would grow beyond `max_entries`, whether or not these are the oldest; nothing else is dropped, and
-- no lease is touched.
pub pending-enqueue_at :
    (q : NotificationQueue) (now : Instant) (payload : Value) (count_key : Option CountKey)
    → ((enqueue_at q now payload count_key).pending
        ≡ drop (length q.pending + 1 - q.max_entries) q.pending
          ++ record { id = q.next_id; enqueued = now; payload = payload; count_key = count_key }
            ∷ [])
      × ((enqueue_at q now payload count_key).leased ≡ q.leased)
unfolding enqueue_at push_back
pending-enqueue_at q now payload key =
    (rw (make_room-drop q.max_entries (index_count q.count_index key q.next_id) q.pending), refl)

-- Where the limit is above zero, the buffer is within its limit after every enqueue.
pub length-enqueue_at-le :
    (q : NotificationQueue) (now : Instant) (payload : Value) (count_key : Option CountKey)
    → 0 < q.max_entries
    → length (enqueue_at q now payload count_key).pending ≤ q.max_entries
length-enqueue_at-le q now payload key pos =
    let kept = drop (length q.pending + 1 - q.max_entries) q.pending in
    omega (
      arith,
      ap length ((pending-enqueue_at q now payload key).0),
      length-append kept
          (record { id = q.next_id; enqueued = now; payload = payload; count_key = key } ∷ []),
      length-drop (length q.pending + 1 - q.max_entries) q.pending,
    )
