-- ===== src/Queue/Expiry.antt =====
-- Which leases the loop ends: exactly those that have run out.
use pincerbell.Base.{
  ℕ, ◌≡◌, refl, Bool, false, ◌||◌, Option, none, some, List, [], ◌∷◌, nat_eq, if◌then◌else◌, leb,
  nat_beq, nat_beq_iff, arith, Option-cases, inl, inr, any,
}
use pincerbell.Time.{Duration, Instant}
use pincerbell.HashMap
use pincerbell.HashMap.{HashMap}
use pincerbell.Queue.{
  count_key_eq, Entry, Inner, NotificationQueue, reclaim, reclaimed, expired_ids, insert_desc,
  sort_desc,
}
use pincerbell.Queue.Held.{Leases}
use pincerbell.Queue.Reclaim.{round, leased-round}

get-reclaim :
    (ttl : Duration) (now : Instant) (ids : List ℕ) (i : Inner) (j : ℕ)
    → HashMap.get (reclaim ttl now ids i).leased j
      ≡ (if any (λ id. nat_beq id j) ids then none else HashMap.get i.leased j)
unfolding reclaim
get-reclaim ttl now [] i j = refl
get-reclaim ttl now (id ∷ ids) i j = elim (Option-cases (HashMap.get i.leased id)) [
  | inl absent ↦
      rw (absent, reclaim) (ground (arith, absent, get-reclaim ttl now ids i j, nat_beq_iff id j))
  | inr ((d, e), lent) ↦
      rw (lent, reclaim)
        (ground (
          arith,
          get-reclaim ttl now ids (round ttl now id e i) j,
          leased-round ttl now i id e,
          HashMap.get-remove i.leased id j,
        ))
]

any-insert_desc : (p : ℕ → Bool) (x : ℕ) (l : List ℕ) → any p (insert_desc x l) ≡ (p x || any p l)
unfolding insert_desc
any-insert_desc p x [] = refl
any-insert_desc p x (y ∷ l) = ground (arith, any-insert_desc p x l)

any-sort_desc : (p : ℕ → Bool) (l : List ℕ) → any p (sort_desc l) ≡ any p l
unfolding sort_desc
any-sort_desc p [] = refl
any-sort_desc p (x ∷ l) = ground (arith, any-insert_desc p x (sort_desc l), any-sort_desc p l)

-- A lease that has run out.
abbrev pub has_run_out : Instant → Option (Instant × Entry) → Bool
has_run_out now none = false
has_run_out now (some (deadline, e)) = leb deadline now

any-expired_ids :
    (now : Instant) (m : Leases) (j : ℕ)
    → HashMap.Distinct m
    → any (λ id. nat_beq id j) (expired_ids now m) ≡ has_run_out now (HashMap.get m j)
unfolding expired_ids HashMap.get
any-expired_ids now [] j d = refl
any-expired_ids now ((id, (deadline, e)) ∷ m) j d =
    ground (arith, any-expired_ids now m j d.1, d.0, nat_beq_iff id j)

-- Where no id is leased twice, the first part of a poll takes back exactly the leases whose deadline
-- has passed, and leaves the others as they are.
pub get-reclaimed :
    (q : NotificationQueue) (now : Instant) (id : ℕ)
    → HashMap.Distinct q.leased
    → HashMap.get (reclaimed q now).leased id
      ≡ (if has_run_out now (HashMap.get q.leased id) then none else HashMap.get q.leased id)
unfolding reclaimed
get-reclaimed q now id d = rw (
  get-reclaim q.entry_ttl now (sort_desc (expired_ids now q.leased)) q.inner id,
  any-sort_desc (λ j. nat_beq j id) (expired_ids now q.leased),
  any-expired_ids now q.leased id d,
)
