-- ===== src/Dedup/Invariant.antt =====
-- The invariant of the duplicate cache: every method keeps it, at any sequence of clock readings.
use pincerbell.Base.{
  ℕ, ◌≤◌, ◌<◌, ◌≡◌, false, some, [], ◌∷◌, ◌++◌, String, inl, inr, arith, Bool-cases,
}
use pincerbell.Time.{Duration, Instant, is_zero}
use pincerbell.HashMap
use pincerbell.Dedup.{Key, key_eq, Inner, DedupCache, new, is_within, expire, insert_new, record_at}
use pincerbell.Dedup.Linked.{
  Linked, Linked-empty, expire-Linked, evict-Linked, insert-Linked, evict-len,
}
use pincerbell.Dedup.Loops.{len-expire-le}

pub record IsValid (c : DedupCache) : Type 0 where
  pub linked : Linked c.seen c.order
  pub bounded : HashMap.len c.seen ≤ c.max_entries

-- What `is_within` says of an expired time.
pub expired_before :
    (ttl : Duration) (now u : Instant)
    → is_zero ttl ≡ false
    → is_within ttl now (some u) ≡ false
    → u < now
unfolding is_within
expired_before ttl now u z h = ground arith

pub insertable :
    (ttl : Duration) (now : Instant) (i : Inner) (k : Key)
    → is_zero ttl ≡ false
    → is_within ttl now (HashMap.get i.seen k) ≡ false
    → Linked i.seen i.order
    → Linked (HashMap.insert i.seen k now) (i.order ++ (now, k) ∷ [])
insertable ttl now i k z h v =
    insert-Linked i.seen i.order k now (λ u e. expired_before ttl now u z (rw e at h)) v

insert_new-Linked :
    (ttl : Duration) (n : ℕ) (now : Instant) (k : Key) (i : Inner)
    → is_zero ttl ≡ false
    → HashMap.len i.seen ≤ n
    → Linked i.seen i.order
    → Linked (insert_new ttl n now k i).seen (insert_new ttl n now k i).order
      × (HashMap.len (insert_new ttl n now k i).seen ≤ n)
unfolding insert_new
insert_new-Linked ttl n now k i z b v =
    elim (Bool-cases (is_within ttl now (HashMap.get i.seen k))) [
      | inl held ↦ rw held (v, b)
      | inr absent ↦
          let linked = insertable ttl now i k z absent v in
          rw absent (evict-Linked n _ _ linked, evict-len n _ _ linked)
    ]

pub new-IsValid : (ttl : Duration) (max_entries : ℕ) → IsValid (new ttl max_entries)
unfolding new HashMap.len
new-IsValid ttl n = record { linked = Linked-empty; bounded = omega arith }

-- Recording keeps the cache consistent, whatever the clock says: each key stands in `seen` once
-- and with the time of its latest place in `order`, and there are at most `max_entries` keys.
pub record_at-IsValid :
    (c : DedupCache) (now : Instant) (event_id app_id pushkey : String)
    → IsValid c
    → IsValid (record_at c now event_id app_id pushkey)
unfolding record_at
record_at-IsValid c now e a p v = elim (Bool-cases (is_zero c.ttl)) [
  | inl off ↦ rw off v
  | inr on ↦
      let (linked, bounded) =
        insert_new-Linked c.ttl c.max_entries now (e, a, p) (expire c.ttl now c.seen c.order) on
          (omega (arith, v.bounded, len-expire-le c.ttl now c.seen c.order))
          (expire-Linked c.ttl now c.seen c.order v.linked) in
      rw on (record { linked = linked; bounded = bounded })
]
