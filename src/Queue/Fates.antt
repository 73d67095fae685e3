-- ===== src/Queue/Fates.antt =====
-- The three fates of an entry that `take_at` looks at.
use pincerbell.Base.{ℕ, ◌<◌, ◌≤◌, ◌-◌, ◌≡◌, true, false, ◌⊎◌, arith}
use pincerbell.Time.{Duration, Instant}
use pincerbell.HashMap.{HashMap}
use pincerbell.Queue.{CountKey, Entry, Fate, fate, is_live}

-- Neither superseded nor too old.
pub record Fresh (entry_ttl : Duration) (now : Instant) (index : HashMap CountKey ℕ) (e : Entry)
    : Type 0 where
  pub live : is_live index e ≡ true
  pub young : now - e.enqueued < entry_ttl

pub fate-cases :
    (entry_ttl : Duration) (now : Instant) (index : HashMap CountKey ℕ) (e : Entry)
    → ((fate entry_ttl now index e ≡ Fate.superseded) × (is_live index e ≡ false))
      ⊎ ((fate entry_ttl now index e ≡ Fate.expired) × (entry_ttl ≤ now - e.enqueued))
      ⊎ ((fate entry_ttl now index e ≡ Fate.deliverable) × Fresh entry_ttl now index e)
unfolding fate
fate-cases ttl now index e = ground arith
