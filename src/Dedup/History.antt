-- ===== src/Dedup/History.antt =====
-- The cache against the history of recordings: what it suppresses was recorded, and a cache that
-- is never full is the ideal one that forgets nothing.
use pincerbell.Base.{
  ℕ, ◌-◌, ◌+◌, ◌≤◌, ◌<◌, ◌≡◌, refl, Bool, false, true, Option, none, some, List, [], ◌∷◌, String,
  inl, inr, if◌then◌else◌, arith, Option-cases, eq-cases, ◌⊎◌, ◌==◌, length, Any, subst, eq_self,
  ◌∙◌, ne_of_beq,
}
use pincerbell.Time.{Duration, Instant, is_zero}
use pincerbell.HashMap
use pincerbell.Dedup.{Key, key_eq, DedupCache, new, is_within, is_duplicate_at, record_at}
use pincerbell.Dedup.Invariant.{IsValid, new-IsValid, record_at-IsValid}
use pincerbell.Dedup.Window.{
  is_duplicate_at-record_at_self, is_duplicate_at-record_at_ne, get-record_at, len-record_at-le,
}

-- The recordings made, the oldest first.
abbrev pub History : Type 0
History = List (Instant × Key)

-- A history of calls of `record_at`.
unfoldable pub run : DedupCache → History → DedupCache
run c [] = c
run c ((now, (e, a, p)) ∷ h) = run (record_at c now e a p) h

pub run-IsValid : (c : DedupCache) (h : History) → IsValid c → IsValid (run c h)
unfolding run
run-IsValid c [] v = v
run-IsValid c ((now, (e, a, p)) ∷ h) v =
    run-IsValid (record_at c now e a p) h (record_at-IsValid c now e a p v)

get-run :
    (c : DedupCache) (h : History) (k : Key) (t : Instant)
    → HashMap.get (run c h).seen k ≡ some t
    → (HashMap.get c.seen k ≡ some t) ⊎ Any (λ x. x ≡ (t, k)) h
unfolding run
get-run c [] k t e = inl e
get-run c ((now, (e', a, p)) ∷ h) k t e = elim (get-run (record_at c now e' a p) h k t e) [
  | inl held ↦ elim (get-record_at c now now e' a p k t held) [
    | inl old ↦ inl old
    | inr fresh ↦ inr (inl fresh)
  ]
  | inr later ↦ inr (inr later)
]

-- The ttl and the capacity never change.
ttl-run : (c : DedupCache) (h : History) → (run c h).ttl ≡ c.ttl
unfolding run record_at
ttl-run c [] = refl
ttl-run c ((now, (e, a, p)) ∷ h) = ground (arith, ttl-run (record_at c now e a p) h)

-- After any history of recordings on a new cache, nothing is suppressed but a key with a recording
-- in that history less than `ttl` ago.
pub is_duplicate_at-run :
    (ttl : Duration) (max_entries : ℕ) (h : History) (now : Instant)
    (event_id app_id pushkey : String)
    → is_duplicate_at (run (new ttl max_entries) h) now event_id app_id pushkey ≡ true
    → (t : Instant) × Any (λ x. x ≡ (t, (event_id, app_id, pushkey))) h × (now - t < ttl)
unfolding is_duplicate_at is_within new HashMap.get
is_duplicate_at-run ttl n h now e a p d =
    elim (Option-cases (HashMap.get (run (new ttl n) h).seen (e, a, p))) [
      | inl absent ↦ absurd (ground (arith, absent))
      | inr (t, held) ↦ (
        t,
        elim (get-run (new ttl n) h (e, a, p) t held) [
          | inl old ↦ absurd (ground arith)
          | inr x ↦ x
        ],
        ground (arith, held, ttl-run (new ttl n) h),
      )
    ]

-- The ideal cache: a time for each key that was ever recorded. A recording starts a window,
-- unless the key is within one.
abbrev pub Ideal : Type 0
Ideal = Key → Option Instant

unfoldable pub note : Duration → Ideal → Instant → Key → Ideal
note ttl f now k j = if k == j then (if is_within ttl now (f k) then f k else some now) else f j

unfoldable pub ideal : Duration → Ideal → History → Ideal
ideal ttl f [] = f
ideal ttl f ((now, k) ∷ h) = ideal ttl (note ttl f now k) h

-- The clock does not run back.
abbrev pub Forward : Instant → History → Type 0
Forward t [] = Unit
Forward t ((now, k) ∷ h) = (t ≤ now) × Forward now h

abbrev pub end_time : Instant → History → Instant
end_time t [] = t
end_time t ((now, k) ∷ h) = end_time now h

-- The answer of the cache for a key.
abbrev pub suppresses : DedupCache → Instant → Key → Bool
suppresses c now (e, a, p) = is_duplicate_at c now e a p

-- From `t` on, the cache answers as the ideal one does.
abbrev Agrees : DedupCache → Ideal → Instant → Type 0
Agrees c f t =
    (later : Instant) (k : Key) → t ≤ later → suppresses c later k ≡ is_within c.ttl later (f k)

ttl-record_at :
    (c : DedupCache) (now : Instant) (e a p : String)
    → ((record_at c now e a p).ttl ≡ c.ttl) × ((record_at c now e a p).max_entries ≡ c.max_entries)
unfolding record_at
ttl-record_at c now e a p = (ground arith, ground arith)

module _ (c : DedupCache) (f : Ideal) (t now : Instant) (e a p : String) where
  step_self :
      IsValid c
      → is_zero c.ttl ≡ false
      → 0 < c.max_entries
      → t ≤ now
      → Agrees c f t
      → (later : Instant) → now ≤ later
      → is_duplicate_at (record_at c now e a p) later e a p
        ≡ is_within c.ttl later (note c.ttl f now (e, a, p) (e, a, p))
  unfolding note is_within
  step_self v on pos le h later le' = ground (
    arith,
    is_duplicate_at-record_at_self c now later e a p v on pos le',
    h now (e, a, p) le,
    h later (e, a, p) (omega arith),
    eq_self {A = Key} (e, a, p),
  )

  step-Agrees :
      IsValid c
      → is_zero c.ttl ≡ false
      → HashMap.len c.seen < c.max_entries
      → t ≤ now
      → Agrees c f t
      → Agrees (record_at c now e a p) (note c.ttl f now (e, a, p)) now
  unfolding note
  step-Agrees v on room le h later j le' =
      simp ((ttl-record_at c now e a p).0) (elim (eq-cases {A = Key} (e, a, p) j) [
        | inl same ↦
            subst
              (λ (k : Key).
                suppresses (record_at c now e a p) later k
                ≡ is_within c.ttl later (note c.ttl f now (e, a, p) k))
              same (step_self v on (omega arith) le h later le')
        | inr other ↦ rw other (
            is_duplicate_at-record_at_ne c now later e a p j.0 j.1 j.2
              (ne_of_beq {A = Key} (e, a, p) j other) room le'
            ∙ h later j (omega arith))
      ])

run-Agrees :
    (c : DedupCache) (f : Ideal) (t : Instant) (h : History)
    → IsValid c
    → is_zero c.ttl ≡ false
    → HashMap.len c.seen + length h ≤ c.max_entries
    → Forward t h
    → Agrees c f t
    → Agrees (run c h) (ideal c.ttl f h) (end_time t h)
unfolding run ideal
run-Agrees c f t [] v on room fw ag = ag
run-Agrees c f t ((now, (e, a, p)) ∷ h) v on room fw ag =
    let (ttl_eq, max_eq) = ttl-record_at c now e a p in
    let rest =
      run-Agrees (record_at c now e a p) (note c.ttl f now (e, a, p)) now h
        (record_at-IsValid c now e a p v) (rw ttl_eq on)
        (omega (arith, max_eq, len-record_at-le c now e a p (omega arith))) fw.1
        (step-Agrees c f t now e a p v on (omega arith) fw.0 ag) in
    simp ttl_eq at rest

new-Agrees : (ttl : Duration) (n t : ℕ) → Agrees (new ttl n) (λ k. none) t
unfolding is_duplicate_at is_within new HashMap.get
new-Agrees ttl n t later k le = ground arith

-- A cache with room for its whole history answers exactly as the ideal cache, at any time from
-- the last recording on, if the clock does not run back and suppression is on.
pub run-new-ideal :
    (ttl : Duration) (max_entries : ℕ) (h : History) (later : Instant)
    (event_id app_id pushkey : String)
    → 0 < ttl
    → length h ≤ max_entries
    → Forward 0 h
    → end_time 0 h ≤ later
    → is_duplicate_at (run (new ttl max_entries) h) later event_id app_id pushkey
      ≡ is_within ttl later (ideal ttl (λ k. none) h (event_id, app_id, pushkey))
unfolding new HashMap.len
run-new-ideal ttl n h later e a p pos room fw le = simp (ttl-run (new ttl n) h) at (
    run-Agrees (new ttl n) (λ k. none) 0 h (new-IsValid ttl n) (ground arith) (omega arith) fw
      (new-Agrees ttl n 0) later (e, a, p) le)
