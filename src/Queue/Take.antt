-- ===== src/Queue/Take.antt =====
-- Polling: what `take_at` hands out, keeps and drops.
use pincerbell.Base.{
  ℕ, ◌+◌, ◌<◌, ◌≤◌, ◌≡◌, ap, subst, true, Option, some, List, nat_eq, arith, inl, inr, Any, length,
}
use pincerbell.Time.{Instant}
use pincerbell.HashMap
use pincerbell.HashMap.{HashMap}
use pincerbell.Queue.Wire.{PollEntry}
use pincerbell.Queue.{
  count_key_eq, Entry, NotificationQueue, is_live, reclaimed, sort_desc, expired_ids, fill, take_at,
}
use pincerbell.Queue.Held.{held, IsValid, held-found, held-nil}
use pincerbell.Queue.Fates.{Fresh}
use pincerbell.Queue.Reclaim.{reclaim-IsValid, reclaim-Fresh, reclaim-held, is_live-reclaim}
use pincerbell.Queue.Expiry.{get-reclaimed}
use pincerbell.Queue.Fill.{fill-IsValid, fill-Fresh, fill-held, fill-empties, length-fill-le}
use pincerbell.Queue.Batch.{fill-Handed, get-fill}

-- The entry that a queue holds under an id, pending or leased.
unfoldable pub entry_at : NotificationQueue → ℕ → Option Entry
entry_at q id = held q.pending q.leased id

-- The batch of a poll, and the queue behind it.
abbrev pub batch_of : List PollEntry × NotificationQueue → List PollEntry
batch_of r = r.0

abbrev pub queue_of : List PollEntry × NotificationQueue → NotificationQueue
queue_of r = r.1

module _ (q : NotificationQueue) (now : Instant) where
  reclaimed-IsValid : IsValid q.inner → IsValid (reclaimed q now)
  unfolding reclaimed
  reclaimed-IsValid v =
      reclaim-IsValid q.entry_ttl now (sort_desc (expired_ids now q.leased)) q.inner v

  reclaimed-Fresh :
      (j : ℕ) (x : Entry)
      → IsValid q.inner
      → held q.pending q.leased j ≡ some x
      → Fresh q.entry_ttl now q.count_index x
      → (held (reclaimed q now).pending (reclaimed q now).leased j ≡ some x)
        × Fresh q.entry_ttl now (reclaimed q now).count_index x
  unfolding reclaimed
  reclaimed-Fresh j x v =
      reclaim-Fresh q.entry_ttl now (sort_desc (expired_ids now q.leased)) q.inner v j x

  reclaimed-held :
      (j : ℕ) (x : Entry)
      → IsValid q.inner
      → held (reclaimed q now).pending (reclaimed q now).leased j ≡ some x
      → held q.pending q.leased j ≡ some x
  unfolding reclaimed
  reclaimed-held j x v =
      reclaim-held q.entry_ttl now (sort_desc (expired_ids now q.leased)) q.inner j x v

  reclaimed-live :
      (x : Entry) → is_live (reclaimed q now).count_index x ≡ true → is_live q.count_index x ≡ true
  unfolding reclaimed
  reclaimed-live x =
      is_live-reclaim q.entry_ttl now (sort_desc (expired_ids now q.leased)) q.inner x

  module _ (max_batch : ℕ) where
    -- Polling keeps the invariant.
    pub take_at-IsValid : IsValid q.inner → IsValid (queue_of (take_at q now max_batch)).inner
    unfolding take_at
    take_at-IsValid v =
        fill-IsValid q.entry_ttl q.lease now max_batch (reclaimed q now).pending (reclaimed q now)
          (reclaimed-IsValid v)

    -- Polling a consistent queue loses no entry that is still worth delivering: what is neither
    -- superseded nor older than `entry_ttl` is still held, and still neither. It makes no entry up
    -- either.
    pub take_at_keeps :
        IsValid q.inner
        → (id : ℕ) (e : Entry)
        → (entry_at q id ≡ some e
            → Fresh q.entry_ttl now q.count_index e
            → (entry_at (queue_of (take_at q now max_batch)) id ≡ some e)
              × Fresh q.entry_ttl now (queue_of (take_at q now max_batch)).count_index e)
          × (entry_at (queue_of (take_at q now max_batch)) id ≡ some e → entry_at q id ≡ some e)
    unfolding take_at entry_at
    take_at_keeps v id e = (
      λ here fr.
          let (here', fr') = reclaimed-Fresh id e v here fr in
          fill-Fresh q.entry_ttl q.lease now max_batch (reclaimed q now).pending (reclaimed q now)
            id e (reclaimed-IsValid v) here' fr',
      λ here. reclaimed-held id e v (
          fill-held q.entry_ttl q.lease now max_batch (reclaimed q now).pending (reclaimed q now) id
            e (reclaimed-IsValid v) here),
    )

    -- What a poll of a consistent queue hands out: each entry of the batch is one that the queue
    -- held, with its payload; it was neither superseded nor too old, no other poll had it under a
    -- lease that goes on, and it is leased now until `now + lease`. The batch is no longer than
    -- asked for.
    pub take_at_batch :
        IsValid q.inner
        → (length (batch_of (take_at q now max_batch)) ≤ max_batch)
          × ((p : PollEntry)
              → Any (λ x. x ≡ p) (batch_of (take_at q now max_batch))
              → (e : Entry) × (entry_at q p.id ≡ some e)
                × (p.notification ≡ e.payload)
                × Fresh q.entry_ttl now q.count_index e
                × ((d : Instant) (x : Entry) → HashMap.get q.leased p.id ≡ some (d, x) → d ≤ now)
                × (HashMap.get (queue_of (take_at q now max_batch)).leased p.id
                    ≡ some (now + q.lease, e)))
    unfolding take_at entry_at
    take_at_batch v = (
      length-fill-le q.entry_ttl q.lease now max_batch (reclaimed q now).pending (reclaimed q now),
      λ p m.
          let valid = reclaimed-IsValid v in
          let h =
            fill-Handed q.entry_ttl q.lease now max_batch (reclaimed q now).pending
              (reclaimed q now) p valid.parts.distinct m in
          (
            h.entry,
            reclaimed-held p.id h.entry v (held-found _ _ p.id h.entry h.found),
            ap (λ (x : PollEntry). x.notification) h.shown,
            record { live = reclaimed-live h.entry h.fresh.live; young = h.fresh.young },
            λ d x lent. ground (
              arith,
              lent,
              h.found,
              valid.parts.apart p.id,
              get-reclaimed q now p.id v.parts.leased_distinct,
            ),
            h.lent,
          ),
    )

    -- At least once: in a consistent queue, an entry that is neither superseded nor older than
    -- `entry_ttl`, and under no lease that goes on, is handed out by every poll whose batch stays
    -- below its limit, and so again when the lease of an earlier poll has run out without an ack.
    pub take_at_delivers :
        IsValid q.inner
        → (id : ℕ) (e : Entry) → entry_at q id ≡ some e
        → Fresh q.entry_ttl now q.count_index e
        → ((d : Instant) (x : Entry) → HashMap.get q.leased id ≡ some (d, x) → d ≤ now)
        → length (batch_of (take_at q now max_batch)) < max_batch
        → Any (λ p. (p.id ≡ id) × (p.notification ≡ e.payload)) (batch_of (take_at q now max_batch))
    unfolding take_at entry_at
    take_at_delivers v id e here fr over room =
        let i = reclaimed q now in
        let (here', fr') = reclaimed-Fresh id e v here fr in
        let r = fill q.entry_ttl q.lease now max_batch i.pending i in
        let still =
          (fill-Fresh q.entry_ttl q.lease now max_batch i.pending i id e (reclaimed-IsValid v) here'
            fr').0 in
        let (d, lent) = held-nil r.1.leased id e (
          subst (λ (l : List Entry). held l r.1.leased id ≡ some e)
            (fill-empties q.entry_ttl q.lease now max_batch i.pending i room) still) in
        elim (get-fill q.entry_ttl q.lease now max_batch i.pending i id d e lent) [
          | inl old ↦
              absurd (ground (arith, old, over d e, get-reclaimed q now id v.parts.leased_distinct))
          | inr handed ↦ handed
        ]
