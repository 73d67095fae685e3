-- ===== src/Dedup/Window.antt =====
-- The suppression window of a key after a recording.
use pincerbell.Base.{
  ℕ, ◌-◌, ◌≤◌, ◌<◌, ◌≡◌, ◌≢◌, false, some, [], ◌∷◌, ◌++◌, String, inl, inr, if◌then◌else◌, ltb,
  arith, Bool-cases, beq_of_ne, ◌==◌, ◌+◌, ◌⊎◌,
}
use pincerbell.Time.{Duration, Instant, is_zero}
use pincerbell.HashMap
use pincerbell.Dedup.{
  Key, key_eq, Inner, DedupCache, is_within, is_duplicate_at, expire, insert_new, record_at,
}
use pincerbell.Dedup.Linked.{Linked, expire-Linked, get-evict_last}
use pincerbell.Dedup.Loops.{is_within-expire, get-expire, len-expire-le, get-evict, evict_room}
use pincerbell.Dedup.Invariant.{IsValid, insertable}

module _ (ttl : Duration) (n : ℕ) (now : Instant) (k : Key) (i : Inner) where
  insert_new_self :
      (later : Instant)
      → is_zero ttl ≡ false
      → 0 < n
      → Linked i.seen i.order
      → is_within ttl later (HashMap.get (insert_new ttl n now k i).seen k) ≡ (
          if is_within ttl now (HashMap.get i.seen k)
          then is_within ttl later (HashMap.get i.seen k)
          else ltb (later - now) ttl)
  unfolding insert_new is_within
  insert_new_self later z pos v = elim (Bool-cases (is_within ttl now (HashMap.get i.seen k))) [
    | inl held ↦ ground (arith, held)
    | inr absent ↦ rw (
      absent,
      get-evict_last n (HashMap.insert i.seen k now) i.order k now pos
          (insertable ttl now i k z absent v),
    )
  ]

  insert_new_room :
      (j : Key)
      → HashMap.len i.seen < n
      → (k == j) ≡ false
      → HashMap.get (insert_new ttl n now k i).seen j ≡ HashMap.get i.seen j
  unfolding insert_new
  insert_new_room j room other = ground (
    arith,
    evict_room n (HashMap.insert i.seen k now) (i.order ++ (now, k) ∷ []),
    HashMap.len-insert-le i.seen k now,
    HashMap.get-insert i.seen k j now,
  )

  -- A stored time is an old one, or the one just recorded.
  insert_new_origin :
      (j : Key) (t : Instant)
      → HashMap.get (insert_new ttl n now k i).seen j ≡ some t
      → (HashMap.get i.seen j ≡ some t) ⊎ ((k ≡ j) × (now ≡ t))
  unfolding insert_new
  insert_new_origin j t e = ground (
    arith,
    get-evict n (HashMap.insert i.seen k now) (i.order ++ (now, k) ∷ []) j,
    HashMap.get-insert i.seen k j now,
    key_eq.test_iff k j,
  )

module _ (c : DedupCache) (now later : Instant) (event_id app_id pushkey : String) where
  -- After a recording in a consistent cache, a key is suppressed for `ttl` from that moment,
  -- unless it was suppressed already: then its window stays where it was. This asks for
  -- suppression to be on, a clock that does not run back and a cache that holds entries at all.
  pub is_duplicate_at-record_at_self :
      IsValid c
      → is_zero c.ttl ≡ false
      → 0 < c.max_entries
      → now ≤ later
      → is_duplicate_at (record_at c now event_id app_id pushkey) later event_id app_id pushkey ≡ (
          if is_duplicate_at c now event_id app_id pushkey
          then is_duplicate_at c later event_id app_id pushkey
          else ltb (later - now) c.ttl)
  unfolding is_duplicate_at record_at
  is_duplicate_at-record_at_self v on pos le =
      let k : Key = (event_id, app_id, pushkey) in
      let i : Inner = expire c.ttl now c.seen c.order in
      ground (
        arith,
        on,
        insert_new_self c.ttl c.max_entries now k i later on pos
            (expire-Linked c.ttl now c.seen c.order v.linked),
        is_within-expire c.ttl now later c.seen c.order k le,
        is_within-expire c.ttl now now c.seen c.order k (omega arith),
      )

  -- With room for one more entry and a clock that does not run back, a recording changes the
  -- answer for no other key.
  pub is_duplicate_at-record_at_ne :
      (e a p : String)
      → ◌≢◌ {A = Key} (event_id, app_id, pushkey) (e, a, p)
      → HashMap.len c.seen < c.max_entries
      → now ≤ later
      → is_duplicate_at (record_at c now event_id app_id pushkey) later e a p
        ≡ is_duplicate_at c later e a p
  unfolding is_duplicate_at record_at
  is_duplicate_at-record_at_ne e a p ne room le =
      let k : Key = (event_id, app_id, pushkey) in
      let i : Inner = expire c.ttl now c.seen c.order in
      ground (
        arith,
        insert_new_room c.ttl c.max_entries now k i (e, a, p)
            (omega (arith, len-expire-le c.ttl now c.seen c.order)) (beq_of_ne k (e, a, p) ne),
        is_within-expire c.ttl now later c.seen c.order (e, a, p) le,
      )

  -- Where a stored time comes from.
  pub get-record_at :
      (j : Key) (t : Instant)
      → HashMap.get (record_at c now event_id app_id pushkey).seen j ≡ some t
      → (HashMap.get c.seen j ≡ some t)
        ⊎ (◌≡◌ {A = Instant × Key} (now, (event_id, app_id, pushkey)) (t, j))
  unfolding record_at
  get-record_at j t e = ground (
    arith,
    insert_new_origin c.ttl c.max_entries now (event_id, app_id, pushkey)
        (expire c.ttl now c.seen c.order) j t,
    get-expire c.ttl now c.seen c.order j,
  )

-- Each recording adds one entry at most.
pub len-record_at-le :
    (c : DedupCache) (now : Instant) (event_id app_id pushkey : String)
    → HashMap.len c.seen < c.max_entries
    → HashMap.len (record_at c now event_id app_id pushkey).seen ≤ HashMap.len c.seen + 1
unfolding record_at insert_new
len-record_at-le c now event_id app_id pushkey room =
    let k : Key = (event_id, app_id, pushkey) in
    let i : Inner = expire c.ttl now c.seen c.order in
    ground (
      arith,
      len-expire-le c.ttl now c.seen c.order,
      HashMap.len-insert-le i.seen k now,
      evict_room c.max_entries (HashMap.insert i.seen k now) (i.order ++ (now, k) ∷ []),
    )
